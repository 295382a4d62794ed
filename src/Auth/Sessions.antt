-- ===== src/Auth/Sessions.antt =====
-- session-service.js: authorisation, login, and the rotation of refresh tokens. Parameters are what
-- the file takes from libraries and from PostgreSQL: the token hash, the password check, the signing
-- of access tokens, `lower(...)`, and `gen_random_uuid()`; the random part of a new refresh token is
-- an argument.
pub mod Rotation
pub mod Exchange
use Prim.Native.String.{◌++◌ as join_text}
use hippo_build_x.Prelude.{
  ℕ, suc, ◌+◌, String, Bool, true, false, not, ◌&&◌, ◌||◌, Option, none, some, List, [], ◌∷◌, ◌++◌,
  map, find, filter, update, includes, codes, ltb, or_null, if◌then◌else◌, ◌==◌,
}
use hippo_build_x.Prelude.Effect.{Result, ok, err, app, other, Thrown, bind_result, then_result}
use hippo_build_x.Shared.Errors.{unauthorized}
use hippo_build_x.Shared.Errors.ErrorCode
use hippo_build_x.Db.Names.{is_safe_schema_name, is_tenant_id}
use hippo_build_x.Auth.RefreshToken.{Parsed, parse_refresh_token, format_refresh_token}
use hippo_build_x.Auth.Tables.{TenantRow, UserRow, RoleRow, UserRole, SessionRow, Store, is_set}

-- The claims of an access token.
pub record Claims : Type 0 where
  pub sub : String
  pub tenant_id : String
  pub sid : String
  pub scope : String

pub record External : Type 0 where
  pub hash_token : String → String
  pub verify_password : String → String → Bool
  pub sign_access_token : Claims → String
  pub lower : String → String
  pub uuid : ℕ → String

pub record Meta : Type 0 where
  pub user_agent : Option String
  pub ip : Option String

pub record Authz : Type 0 where
  pub user_id : String
  pub email : String
  pub name : String
  pub roles : List String
  pub permissions : List String
  pub project_ids : List String
  pub location_ids : List String

pub record Issued : Type 0 where
  pub access_token : String
  pub refresh_token : String
  pub session_id : String
  pub expires_at : ℕ

-- `new Set` in the order of insertion.
abbrev pub add_to_set : List String → String → List String
add_to_set seen v = if includes seen v then seen else seen ++ v ∷ []

abbrev pub add_all : List String → List String → List String
add_all seen [] = seen
add_all seen (v ∷ vs) = add_all (add_to_set seen v) vs

-- A row has the array that its column holds, or whose JSON text it holds; a row whose column is neither
-- has no permissions. A text that is no JSON, on which `JSON.parse` throws, is left out.
unfoldable pub flatten_from : List String → List RoleRow → List String
flatten_from seen [] = seen
flatten_from seen (r ∷ rs) = flatten_from (add_all seen r.permissions) rs

unfoldable pub flatten_permissions : List RoleRow → List String
unfolding flatten_from
flatten_permissions roles = flatten_from [] roles

-- `[...new Set(values.filter(Boolean))]`
abbrev pub distinct_present : List String → List (Option String) → List String
distinct_present seen [] = seen
distinct_present seen (none ∷ vs) = distinct_present seen vs
distinct_present seen (some v ∷ vs) =
    distinct_present (if v == "" then seen else add_to_set seen v) vs

-- `createTenantSql`: the tests before a tenant is bound.
unfoldable pub tenant_sql : String → String → Result (Unit {0})
tenant_sql schema_name tenant_id =
    if is_safe_schema_name (codes schema_name)
    then if is_tenant_id (codes tenant_id)
      then ok tt
      else err (other "A valid tenantId is required for tenant data access")
    else err (other (join_text "Invalid tenant schema: " schema_name))

-- The assignments of a user with their roles, as the JOIN gives them.
abbrev pub live_roles : String → String → List UserRole → List UserRole
live_roles tenant_id user_id =
    filter (λ a. a.tenant_id == tenant_id && (a.user_id == user_id && not a.deleted))

abbrev pub joined : String → List RoleRow → List UserRole → List (RoleRow × UserRole)
joined tenant_id roles [] = []
joined tenant_id roles (a ∷ as') =
    map (λ r. (r, a))
      (filter (λ r. r.tenant_id == tenant_id && (r.id == a.role_id && not r.deleted)) roles)
    ++ joined tenant_id roles as'

abbrev pub authz_of : Store → String → UserRow → Authz
authz_of s tenant_id u =
    let rows = joined tenant_id s.roles (live_roles tenant_id u.id s.user_roles) in
    record {
      user_id = u.id;
      email = u.email;
      name = u.name;
      roles = map (λ row. row.0.name) rows;
      permissions = flatten_permissions (map (λ row. row.0) rows);
      project_ids = distinct_present [] (map (λ row. row.1.project_id) rows);
      location_ids = distinct_present [] (map (λ row. row.1.location_id) rows);
    }

abbrev pub is_user : String → String → UserRow → Bool
is_user tenant_id id u = u.tenant_id == tenant_id && (u.id == id && not u.deleted)

unfoldable pub authorise : Store → String → Option UserRow → Result (Option Authz)
unfolding flatten_permissions
authorise s tenant_id none = ok none
authorise s tenant_id (some u) =
    if u.status == "active"
    then ok (some (authz_of s tenant_id u))
    else err (app ErrorCode.forbidden "Account is not active" 403)

abbrev pub and_then : {A B : Type 0} → Result A → (A → Result B) → Result B
and_then (ok a) f = f a
and_then (err e) f = err e

unfoldable pub load_user_authz : String → String → String → Store → Result (Option Authz)
load_user_authz schema_name user_id tenant_id s =
    and_then (tenant_sql schema_name tenant_id)
      (λ _. authorise s tenant_id (find (is_user tenant_id user_id) s.users))

module _ (x : External) where
  open x use {hash_token, verify_password, sign_access_token, lower, uuid}

  -- The INSERT of `issueSession`. REFRESH_TTL_MS is seven days.
  abbrev pub new_session : String → String → String → Meta → Store → SessionRow
  new_session tenant_id user_id raw meta s = record {
    tenant_id = tenant_id;
    id = uuid s.serial;
    user_id = user_id;
    refresh_token_hash = hash_token raw;
    expires_at = s.now + 604800000;
    revoked_at = none;
    user_agent = or_null meta.user_agent;
    ip_address = or_null meta.ip;
    deleted = false;
  }

  unfoldable pub issue_session : TenantRow → String → String → Meta → Store → Result Issued × Store
  issue_session t user_id raw meta s =
      bind_result (tenant_sql t.schema_name t.id, s)
        (λ _ s.
          let row = new_session t.id user_id raw meta s in
          (
            ok (record {
              access_token =
                  sign_access_token
                    (record { sub = user_id; tenant_id = t.id; sid = row.id; scope = "tenant" });
              refresh_token = format_refresh_token t.id raw;
              session_id = row.id;
              expires_at = row.expires_at;
            }),
            record s { sessions = s.sessions ++ row ∷ []; serial = suc s.serial },
          ))

  -- `UPDATE sessions SET revoked_at = NOW() WHERE id = $1`
  abbrev pub revoke : String → String → Store → Store
  revoke tenant_id id s = record s {
    sessions =
        update (λ r. r.tenant_id == tenant_id && r.id == id)
          (λ r. record r { revoked_at = some s.now }) s.sessions;
  }

  -- From the user's authorisation on; a missing user makes `authz.user` throw a TypeError.
  unfoldable pub issue_for :
      TenantRow → Result (Option Authz) → String → Meta → Store → Result (Authz × Issued) × Store
  issue_for t (err e) raw meta s = (err e, s)
  issue_for t (ok none) raw meta s = (err (other "Cannot read properties of null"), s)
  issue_for t (ok (some a)) raw meta s =
      bind_result (issue_session t a.user_id raw meta s) (λ issued s'. (ok (a, issued), s'))

  unfoldable pub rotate_session :
      TenantRow → Option SessionRow → String → Meta → Store → Result (Authz × Issued) × Store
  rotate_session t none raw meta s = (err (unauthorized "Invalid refresh token"), s)
  rotate_session t (some row) raw meta s =
      if is_set row.revoked_at
      then (err (unauthorized "Refresh token reuse detected"), s)
      else if ltb row.expires_at s.now
      then (err (unauthorized "Refresh token expired"), s)
      else let s' = revoke t.id row.id s in
        issue_for t (load_user_authz t.schema_name row.user_id t.id s') raw meta s'

  abbrev pub is_session : String → String → SessionRow → Bool
  is_session tenant_id hash r =
      r.tenant_id == tenant_id && (r.refresh_token_hash == hash && not r.deleted)

  unfoldable pub rotate_for :
      Option TenantRow → String → String → Meta → Store → Result (Authz × Issued) × Store
  rotate_for none body raw meta s = (err (unauthorized "Invalid refresh token"), s)
  rotate_for (some t) body raw meta s =
      if t.status == "active"
      then bind_result (tenant_sql t.schema_name t.id, s)
          (λ _. rotate_session t (find (is_session t.id (hash_token body)) s.sessions) raw meta)
      else (err (unauthorized "Invalid refresh token"), s)

  abbrev pub is_tenant : String → TenantRow → Bool
  is_tenant id t = t.id == id && not t.deleted

  -- `rotateRefreshToken`, of the tenants of the control plane.
  unfoldable pub rotate_refresh_token :
      List TenantRow → String → String → Meta → Store → Result (Authz × Issued) × Store
  rotate_refresh_token tenants token raw meta s =
      bind_result (parse_refresh_token token, s)
        (λ p. rotate_for (find (is_tenant p.tenant_id) tenants) p.token_body raw meta)

  abbrev pub is_login : String → String → UserRow → Bool
  is_login tenant_id email u =
      u.tenant_id == tenant_id && (lower u.email == lower email && not u.deleted)

  abbrev pub invalid_credentials : Thrown
  invalid_credentials = unauthorized "Invalid credentials"

  unfoldable pub login_user :
      TenantRow → Option UserRow → String → String → Meta → Store → Result (Authz × Issued) × Store
  login_user t none password raw meta s = (err invalid_credentials, s)
  login_user t (some u) password raw meta s =
      if u.status == "active"
      then if verify_password u.password_hash password
        then issue_for t (load_user_authz t.schema_name u.id t.id s) raw meta s
        else (err invalid_credentials, s)
      else (err invalid_credentials, s)

  unfoldable pub login_tenant :
      Option TenantRow → String → String → String → Meta → Store → Result (Authz × Issued) × Store
  login_tenant none email password raw meta s = (err invalid_credentials, s)
  login_tenant (some t) email password raw meta s =
      if t.status == "active"
      then bind_result (tenant_sql t.schema_name t.id, s)
          (λ _. login_user t (find (is_login t.id email) s.users) password raw meta)
      else (err invalid_credentials, s)

  -- `loginWithPassword`
  unfoldable pub login_with_password :
      List TenantRow
      → String
      → String
      → String
      → String
      → Meta
      → Store
      → Result (Authz × Issued) × Store
  login_with_password tenants slug email password raw meta s =
      login_tenant (find (λ t. t.slug == slug && not t.deleted) tenants) email password raw meta s
