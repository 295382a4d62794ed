-- ===== src/Api/Context.antt =====
-- apps/web/src/lib/tenant-context.js, and the tenant of a request in apps/web/src/lib/api-utils.js.
-- The store of AsyncLocalStorage is an argument.
use hippo_build_x.Prelude.{
  String, Bool, ◌||◌, Option, none, some, List, [], truthy, or_null, if◌then◌else◌, ◌==◌,
}
use hippo_build_x.Prelude.Effect.{Result, ok, err, app}
use hippo_build_x.Shared.Errors.{unauthorized}
use hippo_build_x.Shared.Errors.ErrorCode
use hippo_build_x.Rbac.Context as Rbac
use hippo_build_x.Auth.Tables.{TenantRow, Store}
use hippo_build_x.Auth.Sessions.{Authz, and_then, tenant_sql, load_user_authz}
use hippo_build_x.Auth.Request.{
  Payload, RequestContext, resolve_tenant_record, resolve_auth_from_request,
}

-- What `resolveAuthFromRequest` and `resolveTenantFromRequest` add to the context.
pub record TenantCtx : Type 0 where
  pub tenant_id : String
  pub schema_name : String
  pub isolation_mode : String
  pub slug : String
  pub session_id : Option String
  pub authz : Option Authz

-- A platform user, or the holder of the API key, which has no id.
pub record PlatformUser : Type 0 where
  pub id : Option String
  pub email : String
  pub name : String
  pub role : String

pub record Ctx : Type 0 where
  pub request_id : String
  pub is_platform : Bool
  pub tenant : Option TenantCtx
  pub platform_user : Option PlatformUser

abbrev pub authz_of_ctx : Option TenantCtx → Option Authz
authz_of_ctx none = none
authz_of_ctx (some t) = t.authz

abbrev pub user_id_of : Option Authz → Option String
user_id_of none = none
user_id_of (some a) = some a.user_id

abbrev pub user_id : Ctx → Option String
user_id c = user_id_of (authz_of_ctx c.tenant)

abbrev pub js_string : Option String → Rbac.JsString
js_string none = Rbac.undefined
js_string (some s) = Rbac.str s

-- The context as the guards of packages/rbac read it.
abbrev pub rbac_of : Option Authz → Rbac.Ctx
rbac_of none = record {
  user_id = Rbac.undefined;
  roles = [];
  permissions = [];
  project_ids = [];
  location_ids = [];
}
rbac_of (some a) = record {
  user_id = Rbac.str a.user_id;
  roles = a.roles;
  permissions = a.permissions;
  project_ids = a.project_ids;
  location_ids = a.location_ids;
}

abbrev pub rbac_ctx : Ctx → Rbac.Ctx
rbac_ctx c = rbac_of (authz_of_ctx c.tenant)

-- `getRequestContext`
unfoldable pub get_request_context : Option Ctx → Result Ctx
get_request_context none =
    err (app ErrorCode.tenant_context_required "No request context available" 500)
get_request_context (some c) = ok c

unfoldable pub tenant_of : Option TenantCtx → Result TenantCtx
tenant_of none =
    err (app ErrorCode.tenant_context_required "Tenant context is required for this operation" 400)
tenant_of (some t) =
    if t.tenant_id == "" || t.schema_name == ""
    then err
        (app ErrorCode.tenant_context_required "Tenant context is required for this operation" 400)
    else ok t

-- `requireTenantContext`, with the tenant that it finds.
unfoldable pub require_tenant_context : Option Ctx → Result TenantCtx
unfolding get_request_context tenant_of
require_tenant_context store = and_then (get_request_context store) (λ c. tenant_of c.tenant)

unfoldable pub user_of : TenantCtx → Option Authz → Result (TenantCtx × Authz)
user_of t none = err (unauthorized "Authentication required")
user_of t (some a) =
    if a.user_id == "" then err (unauthorized "Authentication required") else ok (t, a)

-- `requireAuthContext`, with the tenant and the user that it finds.
unfoldable pub require_auth_context : Option Ctx → Result (TenantCtx × Authz)
unfolding require_tenant_context user_of
require_auth_context store = and_then (require_tenant_context store) (λ t. user_of t t.authz)

-- `tenantSql`: the tenant that the statements are bound to.
unfoldable pub bound_tenant : Option Ctx → Result TenantCtx
unfolding require_tenant_context
bound_tenant store =
    and_then (require_tenant_context store)
      (λ t. and_then (tenant_sql t.schema_name t.tenant_id) (λ _. ok t))

-- `requirePlatformUser`
unfoldable pub require_platform_user : Option Ctx → Result PlatformUser
require_platform_user none = err (unauthorized "Platform authentication required")
require_platform_user (some c) =
    if c.is_platform
    then elim c.platform_user [
      | none ↦ err (unauthorized "Platform authentication required")
      | some u ↦ ok u
    ]
    else err (unauthorized "Platform authentication required")

abbrev pub of_request : RequestContext → Result TenantCtx
of_request r = ok (record {
  tenant_id = r.tenant_id;
  schema_name = r.schema_name;
  isolation_mode = r.isolation_mode;
  slug = r.slug;
  session_id = r.session_id;
  authz = some r.authz;
})

abbrev pub anonymous : TenantRow → Option Authz → Result TenantCtx
anonymous t a = ok (record {
  tenant_id = t.id;
  schema_name = t.schema_name;
  isolation_mode = t.isolation_mode;
  slug = t.slug;
  session_id = none;
  authz = a;
})

-- The user that the header `x-user-id` names.
unfoldable pub header_authz : TenantRow → Option String → Store → Result (Option Authz)
header_authz t none s = ok none
header_authz t (some id) s = load_user_authz t.schema_name id t.id s

unfoldable pub header_tenant : Option TenantRow → Option String → Store → Result TenantCtx
header_tenant none user_id s = err (app ErrorCode.tenant_not_found "Tenant not found" 404)
header_tenant (some t) user_id s =
    if t.status == "active"
    then and_then (header_authz t user_id s) (anonymous t)
    else err (app ErrorCode.tenant_provisioning_failed "Tenant is not active" 409)

unfoldable pub header_request :
    List TenantRow → Option String → Option String → Store → Result TenantCtx
header_request tenants none user_id s =
    err (app ErrorCode.tenant_context_required "Authentication required" 401)
header_request tenants (some id) user_id s =
    header_tenant (resolve_tenant_record tenants id) user_id s

-- `resolveTenantFromRequest`: of the token, `x-tenant-id` and `x-user-id`.
unfoldable pub resolve_tenant_from_request :
    (String → Option Payload)
    → List TenantRow
    → Option String
    → Option String
    → Option String
    → Store
    → Result TenantCtx
resolve_tenant_from_request verify tenants token tenant_id user_id s =
    if truthy token
    then and_then (resolve_auth_from_request verify tenants token s) of_request
    else header_request tenants (or_null tenant_id) (or_null user_id) s
