-- ===== src/Tests/Auth/Request.antt =====
-- The context of a request on a concrete store.
mod Api
use hippo_build_x.Prelude.{String, ◌≡◌, refl, Option, none, some, [], ◌∷◌, if◌then◌else◌, ◌==◌}
use hippo_build_x.Prelude.Effect.{ok, err, app}
use hippo_build_x.Shared.Errors.{unauthorized}
use hippo_build_x.Shared.Errors.ErrorCode
use hippo_build_x.Db.Names.{is_safe_schema_name, is_tenant_id}
use hippo_build_x.Auth.Sessions.{tenant_sql, authorise, load_user_authz, flatten_permissions}
use hippo_build_x.Auth.Request.{
  Payload, RequestContext, resolve_tenant_record, resolved, resolve_user, resolve_claims,
  resolve_payload, resolve_auth_from_request,
}
use hippo_build_x.Auth.Request.Trust.{Accepts, resolve_auth_from_request-Accepts}
use hippo_build_x.Tests.Auth.{tenant_id, tenant, store, authz}

abbrev payload : Payload
payload = record {
  sub = some "u1";
  tenant_id = some tenant_id;
  sid = some "s1";
  scope = some "tenant";
}

abbrev verify : String → Option Payload
verify token = if token == "good" then some payload else none

abbrev ctx : RequestContext
ctx = record {
  tenant_id = tenant_id;
  schema_name = "tenant_acme";
  isolation_mode = "shared_schema";
  slug = "acme";
  session_id = some "s1";
  authz = authz;
}

passes : resolve_auth_from_request verify (tenant ∷ []) (some "good") store ≡ ok ctx
unfolding resolve_auth_from_request resolve_payload resolve_claims resolve_user
    resolve_tenant_record resolved load_user_authz authorise tenant_sql is_safe_schema_name
    is_tenant_id flatten_permissions
passes = refl

request_runs :
    (resolve_auth_from_request verify (tenant ∷ []) (some "bad") store
      ≡ err (unauthorized "Invalid access token"))
    × (resolve_auth_from_request verify
          (record tenant { status = "suspended" } ∷ [])
          (some "good")
          store
        ≡ err (app ErrorCode.tenant_suspended "Tenant is suspended" 403))
unfolding resolve_auth_from_request resolve_payload resolve_claims resolve_user
    resolve_tenant_record
request_runs = (refl, refl)

resolve_auth_from_request-Accepts_example : Accepts verify (tenant ∷ []) (some "good") store ctx
resolve_auth_from_request-Accepts_example =
    resolve_auth_from_request-Accepts verify (tenant ∷ []) (some "good") store ctx passes
