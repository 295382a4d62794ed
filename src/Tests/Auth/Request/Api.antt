-- ===== src/Tests/Auth/Request/Api.antt =====
-- The request pipeline on concrete requests.
use mathlib.Core.Bool.{false≢true}
use hippo_build_x.Prelude.{
  ℕ, String, ◌≡◌, ◌≢◌, refl, ◌⊎◌, true, false, Option, none, some, [], ◌∷◌, split_on, eq_iff,
}
use hippo_build_x.Prelude.Effect.{ok, Thrown}
use hippo_build_x.Shared.Errors.ErrorCode
use hippo_build_x.Db.Names.{is_safe_schema_name, is_tenant_id}
use hippo_build_x.Rbac.Guards.{enforce_permission, enforce_not_auditor_write}
use hippo_build_x.Rbac.Context.{lower_is}
use hippo_build_x.Auth.Sessions.{tenant_sql, authorise, load_user_authz, flatten_permissions}
use hippo_build_x.Auth.Request.{
  resolve_tenant_record, resolved, resolve_user, resolve_claims, resolve_payload,
  resolve_auth_from_request,
}
use hippo_build_x.Api.Cookies.{
  trim_start, trim_end, is_blank, trim, split_pair, after_prefix, Headers, build_cookie, entry_or,
  find_cookie, get_cookie, extract_access_token, extract_refresh_token,
}
use hippo_build_x.Api.Platform.{
  PlatformRow, api_key, jwt, load_platform_user, platform_claims, platform_payload, platform_token,
  resolve_platform_auth,
}
use hippo_build_x.Api.Pipeline.{
  Request, AuditRow, World, success, failure, Keys, Audit, Options, Handler, fixed, error_response,
  guard_permission, guard_auditor, admit, before_of, run_request, with_api_handler,
}
use hippo_build_x.Api.Pipeline.Guarded.{IsEntitled, ctx_of, route, with_api_handler-IsEntitled}
use hippo_build_x.Api.Pipeline.Audited.{Logged, with_api_handler-Logged}
use hippo_build_x.Tests.Auth.{tenant, store}
use hippo_build_x.Tests.Auth.Request.{payload, verify, ctx}

abbrev operator : PlatformRow
operator = record {
  id = "u1";
  email = "op@x.y";
  name = "Op";
  password_hash = "pw";
  role = "super_admin";
  status = "active";
  deleted = false;
}

platform_runs :
    (resolve_platform_auth (some "key") verify (operator ∷ []) (some "key") none ≡ ok api_key)
    × (resolve_platform_auth none
          (λ t. some (record payload { scope = some "platform" }))
          (operator ∷ [])
          none
          (some "t")
        ≡ ok (jwt operator))
unfolding resolve_platform_auth platform_token platform_payload platform_claims load_platform_user
platform_runs = (refl, refl)

abbrev headers : String → Headers
headers cookie = record {
  cookie = some cookie;
  authorization = some "Basic x";
  x_refresh_token = some "";
  x_request_id = none;
  x_tenant_id = none;
  x_user_id = none;
  x_platform_api_key = none;
}

cookie_runs :
    (get_cookie (λ s. s) (λ s. s) (headers "a=1;  b =x=y ; c") "b" ≡ some "x=y ")
    × (extract_access_token (λ s. s) (λ s. s) (headers "c; access_token=t; access_token=u")
        ≡ some "t")
    × (extract_refresh_token (λ s. s) (λ s. s) (headers "refresh_token=r") ≡ some "r")
    × (build_cookie (λ s. s) (λ s. s) true "a" "1" (some "60")
        ≡ "a=1; Path=/; HttpOnly; SameSite=Lax; Secure; Max-Age=60")
unfolding extract_access_token extract_refresh_token get_cookie find_cookie split_pair trim
    build_cookie entry_or after_prefix split_on trim_start trim_end is_blank
cookie_runs = (refl, refl, refl, refl)

abbrev keys : Keys
keys = record { verify = verify; platform_key = none }

abbrev accepts : AuditRow String → Option Thrown
accepts row = none

abbrev world : World String ℕ
world = record {
  tenants = tenant ∷ [];
  platform_users = operator ∷ [];
  identities = store;
  audit_log = [];
  rest = 0;
}

abbrev audit : Audit String ℕ
audit = record {
  action = "lead.create";
  entity_type = "lead";
  entity_id = fixed "l1";
  get_before = λ c w. ok none;
  get_after = λ c r w. ok (some "new");
}

abbrev create : Handler String ℕ
create c w = (ok (record { status = 201; body = success "l1" }), record w { rest = 1 })

abbrev request : String → Request
request token = record {
  method = "POST";
  token = some token;
  x_request_id = some "r1";
  x_tenant_id = none;
  x_user_id = none;
  x_platform_api_key = none;
}

abbrev lead_route : Options String ℕ
lead_route = route keys accepts "lead.read" (some audit)

named : ◌≢◌ {A = String} "lead.read" ""
named h = absurd (false≢true ((eq_iff "lead.read" "").1 h))

with_api_handler-IsEntitled_example :
    ((e : Thrown) × (with_api_handler keys accepts lead_route (request "good") create "fresh" world
        ≡ (error_response e, world)))
    ⊎ IsEntitled keys accepts "lead.read" (request "good") "r1" world
with_api_handler-IsEntitled_example =
    with_api_handler-IsEntitled keys accepts "lead.read" (some audit) (request "good") create
      "fresh" world named

admitted : admit keys accepts lead_route (request "good") "r1" world ≡ ok (ctx_of "r1" ctx)
unfolding admit guard_permission guard_auditor enforce_permission enforce_not_auditor_write lower_is
    resolve_auth_from_request resolve_payload resolve_claims resolve_user resolve_tenant_record
    resolved load_user_authz authorise tenant_sql is_safe_schema_name is_tenant_id
    flatten_permissions
admitted = refl

not_asked : before_of keys accepts (some audit) (ctx_of "r1" ctx) world ≡ ok none
unfolding before_of
not_asked = refl

with_api_handler-Logged_example :
    let (r, w') = with_api_handler keys accepts lead_route (request "good") create "fresh" world in
    (r ≡ record { status = 201; body = success "l1" })
    × Logged keys accepts (some audit) (ctx_of "r1" ctx) (record world { rest = 1 }) w'
with_api_handler-Logged_example =
    with_api_handler-Logged keys accepts lead_route (request "good") create "fresh" world
      (record world { rest = 1 }) (ctx_of "r1" ctx) none
      (record { status = 201; body = success "l1" }) admitted not_asked refl

pipeline_runs :
    ((with_api_handler keys accepts lead_route (request "bad") create "fresh" world).0
      ≡ record { status = 401; body = failure ErrorCode.unauthorized "Invalid access token" })
    × ((with_api_handler keys accepts
          (record lead_route { permission = some "lead.create" })
          (request "good")
          create
          "fresh"
          world)
        ≡ (
          record {
            status = 403;
            body = failure ErrorCode.insufficient_permission "Missing permission: lead.create";
          },
          world,
        ))
unfolding with_api_handler run_request admit guard_permission enforce_permission
    resolve_auth_from_request resolve_payload resolve_claims error_response resolve_user
    resolve_tenant_record resolved load_user_authz authorise tenant_sql is_safe_schema_name
    is_tenant_id flatten_permissions
pipeline_runs = (refl, refl)
