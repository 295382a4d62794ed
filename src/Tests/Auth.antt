-- ===== src/Tests/Auth.antt =====
-- The rate limiter and sessions on concrete inputs.
mod Reset
mod Request
mod Exchange
mod Users
mod Routes
mod Roles
use Prim.Native.String.{◌++◌ as join_text}
use hippo_build_x.Prelude.{
  ℕ, String, ◌≡◌, ◌≢◌, refl, Bool, true, false, Option, none, some, List, [], ◌∷◌, codes, eq_iff,
  arith, min, ◌<◌, All, ◌==◌,
}
use hippo_build_x.Prelude.Effect.{Result, ok, err}
use hippo_build_x.Shared.Errors.{unauthorized}
use hippo_build_x.Db.Names.{is_safe_schema_name, is_tenant_id}
use hippo_build_x.Auth.RateLimit.{
  Rate, allowed, refused, Hits, lookup, check_rate_limit, reset_rate_limit,
}
use hippo_build_x.Auth.RateLimit.Window.{
  listed, allowed_attempts, check_rate_limit-window, rate_limit-other_keys,
}
use hippo_build_x.Auth.RefreshToken.{Parsed, parse_refresh_token, format_refresh_token}
use hippo_build_x.Auth.RefreshToken.RoundTrip.{NoDot, parse-format}
use hippo_build_x.Auth.Tables.{TenantRow, UserRow, RoleRow, UserRole, SessionRow, Store, at_time}
use hippo_build_x.Auth.Sessions.{
  External, Meta, Authz, Issued, tenant_sql, flatten_permissions, authorise, load_user_authz,
  issue_session, issue_for, rotate_session, rotate_for, rotate_refresh_token, login_user,
  login_tenant, login_with_password,
}
use hippo_build_x.Auth.Sessions.Rotation.{rotate_refresh_token-once}

abbrev others : Hits
others = ("b", record { count = 4; reset_at = 9 }) ∷ []

rate_runs :
    (allowed_attempts "a" 2 100 (5 ∷ 6 ∷ 105 ∷ 106 ∷ []) others ≡ 3)
    × ((check_rate_limit "b" (record { limit = some 4; window_ms = none }) 5 others).0 ≡ refused 1)
unfolding allowed_attempts check_rate_limit
rate_runs = (refl, refl)

no_entry : All (λ e. e.reset_at < 5) (listed (lookup "a" others))
unfolding lookup
no_entry = tt

a_not_b : ◌≢◌ {A = String} "a" "b"
a_not_b h = absurd (false≢true ((eq_iff "a" "b").1 h))
  where
    false≢true : ◌≢◌ {A = Bool} false true
    false≢true e = cc

abbrev tenant_id : String
tenant_id = "0f8fad5b-d9cb-469f-a165-70867728950e"

tenant_id_valid : is_tenant_id (codes tenant_id) ≡ true
unfolding is_tenant_id
tenant_id_valid = refl

parse_runs :
    (parse_refresh_token "abc.def" ≡ err (unauthorized "Invalid refresh token"))
    × (parse_refresh_token "0f8fad5b-d9cb-469f-a165-70867728950e.tenant_a.c.d"
        ≡ ok (record { tenant_id = tenant_id; token_body = "c.d" }))
unfolding parse_refresh_token is_tenant_id
parse_runs = (refl, refl)

abbrev world : External
world = record {
  hash_token = λ t. join_text "h:" t;
  verify_password = λ h p. h == p;
  sign_access_token = λ c. c.sid;
  lower = λ s. s;
  uuid = λ _. "s2";
}

abbrev tenant : TenantRow
tenant = record {
  id = tenant_id;
  slug = "acme";
  schema_name = "tenant_acme";
  status = "active";
  isolation_mode = "shared_schema";
  database_secret_ref = none;
  deleted = false;
}

abbrev user : UserRow
user = record {
  tenant_id = tenant_id;
  id = "u1";
  email = "a@b.c";
  name = "A";
  status = "active";
  password_hash = "pw";
  deleted = false;
}

abbrev role : RoleRow
role = record {
  tenant_id = tenant_id;
  id = "r1";
  name = "Sales";
  permissions = "lead.read" ∷ "lead.read" ∷ [];
  deleted = false;
}

abbrev given : UserRole
given = record {
  tenant_id = tenant_id;
  user_id = "u1";
  role_id = "r1";
  project_id = some "p1";
  location_id = none;
  deleted = false;
}

abbrev session : SessionRow
session = record {
  tenant_id = tenant_id;
  id = "s1";
  user_id = "u1";
  refresh_token_hash = "h:old";
  expires_at = 90;
  revoked_at = none;
  user_agent = none;
  ip_address = none;
  deleted = false;
}

abbrev store : Store
store = record {
  users = user ∷ [];
  roles = role ∷ [];
  user_roles = given ∷ [];
  sessions = session ∷ [];
  resets = [];
  now = 50;
  serial = 0;
}

abbrev client : Meta
client = record { user_agent = none; ip = none }

abbrev authz : Authz
authz = record {
  user_id = "u1";
  email = "a@b.c";
  name = "A";
  roles = "Sales" ∷ [];
  permissions = "lead.read" ∷ [];
  project_ids = "p1" ∷ [];
  location_ids = [];
}

abbrev token : String
token = "0f8fad5b-d9cb-469f-a165-70867728950e.old"

abbrev issued : Issued
issued = record {
  access_token = "s2";
  refresh_token = "0f8fad5b-d9cb-469f-a165-70867728950e.new";
  session_id = "s2";
  expires_at = 604800050;
}

abbrev rotated : Store
rotated = record store {
  sessions =
      record session { revoked_at = some 50 }
      ∷ record session { id = "s2"; refresh_token_hash = "h:new"; expires_at = 604800050 }
      ∷ [];
  serial = 1;
}

rotation :
    rotate_refresh_token world (tenant ∷ []) token "new" client store
    ≡ (ok (authz, issued), rotated)
unfolding rotate_refresh_token rotate_for rotate_session issue_for issue_session load_user_authz
    authorise tenant_sql parse_refresh_token format_refresh_token is_safe_schema_name is_tenant_id
    flatten_permissions
rotation = refl

login_runs :
    (login_with_password world (tenant ∷ []) "acme" "a@b.c" "pw" "new" client store ≡ (
      ok (authz, issued),
      record store {
        sessions =
            session
            ∷ record session { id = "s2"; refresh_token_hash = "h:new"; expires_at = 604800050 }
            ∷ [];
        serial = 1;
      },
    ))
    × (login_with_password world (tenant ∷ []) "acme" "a@b.c" "no" "new" client store
        ≡ (err (unauthorized "Invalid credentials"), store))
unfolding login_with_password login_tenant login_user issue_for issue_session load_user_authz
    authorise tenant_sql format_refresh_token is_safe_schema_name is_tenant_id flatten_permissions
login_runs = (refl, refl)

rotate_refresh_token-once_example :
    rotate_refresh_token world (tenant ∷ []) token "again" client (at_time 60 rotated)
    ≡ (err (unauthorized "Refresh token reuse detected"), at_time 60 rotated)
rotate_refresh_token-once_example =
    rotate_refresh_token-once world (tenant ∷ []) token "new" "again" client client store rotated
      (authz, issued) 60 rotation
