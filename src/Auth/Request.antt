-- ===== src/Auth/Request.antt =====
-- apps/web/src/lib/api-utils.js, `resolveAuthFromRequest`: the tenant and the user of a request, from
-- its access token. `verify` stands for `verifyAccessToken` with the signing key.
pub mod Trust
use hippo_build_x.Prelude.{
  String, Bool, true, false, not, ◌&&◌, ◌||◌, Option, none, some, List, [], ◌∷◌, find, truthy,
  if◌then◌else◌, ◌==◌,
}
use hippo_build_x.Prelude.Effect.{Result, ok, err, app}
use hippo_build_x.Shared.Errors.{unauthorized}
use hippo_build_x.Shared.Errors.ErrorCode
use hippo_build_x.Auth.Tables.{TenantRow, Store}
use hippo_build_x.Auth.Sessions.{Authz, and_then, load_user_authz}

-- The payload of a token whose signature is good.
pub record Payload : Type 0 where
  pub sub : Option String
  pub tenant_id : Option String
  pub sid : Option String
  pub scope : Option String

-- What a handler finds in its context.
pub record RequestContext : Type 0 where
  pub tenant_id : String
  pub schema_name : String
  pub isolation_mode : String
  pub slug : String
  pub session_id : Option String
  pub authz : Authz

abbrev pub is_platform : Option String → Bool
is_platform none = false
is_platform (some s) = s == "platform"

-- `resolveTenantRecord`
unfoldable pub resolve_tenant_record : List TenantRow → String → Option TenantRow
resolve_tenant_record tenants id = find (λ t. t.id == id && not t.deleted) tenants

-- From the user's authorisation on.
unfoldable pub resolved : Payload → TenantRow → Option Authz → Result RequestContext
resolved p t none = err (unauthorized "User not found")
resolved p t (some a) = ok (record {
  tenant_id = t.id;
  schema_name = t.schema_name;
  isolation_mode = t.isolation_mode;
  slug = t.slug;
  session_id = p.sid;
  authz = a;
})

-- From the tenant's row on.
unfoldable pub resolve_user : Payload → String → Option TenantRow → Store → Result RequestContext
resolve_user p sub none s = err (app ErrorCode.tenant_suspended "Tenant is suspended" 403)
resolve_user p sub (some t) s =
    if t.status == "suspended"
    then err (app ErrorCode.tenant_suspended "Tenant is suspended" 403)
    else if not (t.status == "active")
    then err (unauthorized "Tenant is not active")
    else if t.isolation_mode == "dedicated_database" && not (truthy t.database_secret_ref)
    then err (app ErrorCode.service_unavailable "Tenant data source is not ready" 503)
    else and_then (load_user_authz t.schema_name sub t.id s) (resolved p t)

-- From the claims of the payload on.
unfoldable pub resolve_claims :
    List TenantRow → Payload → Option String → Option String → Store → Result RequestContext
resolve_claims tenants p (some sub) (some id) s =
    if sub == "" || (id == "" || is_platform p.scope)
    then err (unauthorized "Invalid access token")
    else resolve_user p sub (resolve_tenant_record tenants id) s
resolve_claims tenants p none id s = err (unauthorized "Invalid access token")
resolve_claims tenants p (some sub) none s = err (unauthorized "Invalid access token")

-- From the payload on.
unfoldable pub resolve_payload : List TenantRow → Option Payload → Store → Result RequestContext
resolve_payload tenants none s = err (unauthorized "Invalid access token")
resolve_payload tenants (some p) s = resolve_claims tenants p p.sub p.tenant_id s

unfoldable pub resolve_auth_from_request :
    (String → Option Payload) → List TenantRow → Option String → Store → Result RequestContext
resolve_auth_from_request verify tenants none s = err (unauthorized "Authentication required")
resolve_auth_from_request verify tenants (some token) s =
    if token == ""
    then err (unauthorized "Authentication required")
    else resolve_payload tenants (verify token) s
