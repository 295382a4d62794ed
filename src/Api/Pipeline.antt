-- ===== src/Api/Pipeline.antt =====
-- `withApiHandler` and `errorResponse` of apps/web/src/lib/api-utils.js, with `writeAuditLog` of
-- apps/web/src/modules/audit/audit-service.js. A handler is a function on the state, which holds the
-- tables of identities, the audit log and the rest, `R`; `D` is JSON data. The ids of a response are
-- left out, and so are log lines.
pub mod Guarded
pub mod Audited
use hippo_build_x.Prelude.{
  ℕ, String, Bool, true, false, not, ◌&&◌, ◌||◌, Option, none, some, List, [], ◌∷◌, ◌++◌, includes,
  or_null, if◌then◌else◌, ◌==◌,
}
use hippo_build_x.Prelude.Effect.{Result, ok, err, app, other, Thrown, bind_result}
use hippo_build_x.Shared.Errors.ErrorCode
use hippo_build_x.Rbac.Guards.{enforce_permission, enforce_not_auditor_write, write_methods}
use hippo_build_x.Auth.Tables.{TenantRow, Store}
use hippo_build_x.Auth.Sessions.{and_then}
use hippo_build_x.Auth.Request.{Payload, resolve_auth_from_request}
use hippo_build_x.Api.Context.{
  TenantCtx, Ctx, user_id, rbac_ctx, bound_tenant, of_request, resolve_tenant_from_request,
}
use hippo_build_x.Api.Platform.{PlatformRow, PlatformAuth, user_of_auth, resolve_platform_auth}

-- What the pipeline reads of a request; `token` is the access token of the cookie or the header.
pub record Request : Type 0 where
  pub method : String
  pub token : Option String
  pub x_request_id : Option String
  pub x_tenant_id : Option String
  pub x_user_id : Option String
  pub x_platform_api_key : Option String

-- A row of `audit_log`.
pub record AuditRow (D : Type 0) : Type 0 where
  pub tenant_id : String
  pub action : String
  pub entity_type : String
  pub entity_id : Option String
  pub actor_id : Option String
  pub before : Option D
  pub after : Option D
  pub correlation_id : Option String

pub record World (D R : Type 0) : Type 0 where
  pub tenants : List TenantRow
  pub platform_users : List PlatformRow
  pub identities : Store
  pub audit_log : List (AuditRow D)
  pub rest : R

pub data Body (D : Type 0) : Type 0 where
  success : D → Body D
  failure : (code message : String) → Body D

pub record Response (D : Type 0) : Type 0 where
  pub status : ℕ
  pub body : Body D

-- `errorResponse(error)`
unfoldable pub error_response : {D : Type 0} → Thrown → Response D
error_response (app code message status) = record { status = status; body = failure code message }
error_response (other message) = record {
  status = 500;
  body = failure ErrorCode.internal_error (if message == "" then "Internal error" else message);
}

-- `incomingId?.length ? incomingId : crypto.randomUUID()`
abbrev pub request_id_of : Option String → String → String
request_id_of none fresh = fresh
request_id_of (some id) fresh = if id == "" then fresh else id

-- The key of the platform and the secret with which tokens are verified.
pub record Keys : Type 0 where
  pub verify : String → Option Payload
  pub platform_key : Option String

module _ (D R : Type 0) where
  -- `audit.entityId`
  pub data EntityId : Type 0 where
    absent : EntityId
    fixed : String → EntityId
    computed : (Ctx → Response D → World D R → Result (Option String)) → EntityId

  -- `getBefore` and `getAfter` give `none` where they are left out.
  pub record Audit : Type 0 where
    pub action : String
    pub entity_type : String
    pub entity_id : EntityId
    pub get_before : Ctx → World D R → Result (Option D)
    pub get_after : Ctx → Response D → World D R → Result (Option D)

  -- The options after their defaults.
  pub record Options : Type 0 where
    pub platform : Bool
    pub auth : Bool
    pub platform_auth : Bool
    pub permission : Option String
    pub audit : Option Audit

  abbrev pub Handler : Type 0
  Handler = Ctx → World D R → Result (Response D) × World D R

abbrev pub or_user : Option String → Option String → Option String
or_user none user = user
or_user (some id) user = if id == "" then user else some id

abbrev pub is_write : String → Bool
is_write method = includes write_methods method

-- The guards before the handler of a tenant's route.
unfoldable pub guard_permission : Option String → Ctx → Result (Unit {0})
guard_permission none c = ok tt
guard_permission (some p) c = if p == "" then ok tt else enforce_permission (rbac_ctx c) p

unfoldable pub guard_auditor : String → Ctx → Result (Unit {0})
guard_auditor method c =
    if is_write method then enforce_not_auditor_write (rbac_ctx c) method else ok tt

abbrev pub tenant_ctx : String → TenantCtx → Ctx
tenant_ctx id t = record {
  request_id = id;
  is_platform = false;
  tenant = some t;
  platform_user = none;
}

abbrev pub platform_ctx : String → PlatformAuth → Ctx
platform_ctx id a = record {
  request_id = id;
  is_platform = true;
  tenant = none;
  platform_user = some (user_of_auth a);
}

abbrev pub public_ctx : String → Ctx
public_ctx id = record { request_id = id; is_platform = true; tenant = none; platform_user = none }

module _ {D R : Type 0} (keys : Keys) (fails : AuditRow D → Option Thrown) where
  -- The INSERT into `audit_log`; `fails` says whether the database refuses a row.
  unfoldable pub insert_audit :
      Option Thrown → AuditRow D → World D R → Result (Unit {0}) × World D R
  insert_audit none row w = (ok tt, record w { audit_log = w.audit_log ++ row ∷ [] })
  insert_audit (some e) row w = (err e, w)

  -- The values of the INSERT.
  abbrev pub audit_row :
      Ctx → TenantCtx → Audit D R → Option String → Option D → Option D → AuditRow D
  audit_row c t a entity_id before after = record {
    tenant_id = t.tenant_id;
    action = a.action;
    entity_type = a.entity_type;
    entity_id = entity_id;
    actor_id = user_id c;
    before = before;
    after = after;
    correlation_id = or_null (some c.request_id);
  }

  -- `writeAuditLog`
  unfoldable pub write_audit_log :
      Ctx
      → Audit D R
      → Option String
      → Option D
      → Option D
      → World D R
      → Result (Unit {0}) × World D R
  write_audit_log c a entity_id before after w =
      bind_result (bound_tenant (some c), w)
        (λ t. let row = audit_row c t a entity_id before after in insert_audit (fails row) row)

  unfoldable pub entity_id_of : EntityId D R → Ctx → Response D → World D R → Result (Option String)
  entity_id_of absent c r w = ok (user_id c)
  entity_id_of (fixed id) c r w = ok (or_user (some id) (user_id c))
  entity_id_of (computed f) c r w = f c r w

  -- The block after the handler: what it throws is caught.
  unfoldable pub audited :
      Option (Audit D R) → Ctx → String → Option D → Response D → World D R → World D R
  audited none c method before r w = w
  audited (some a) c method before r w =
      if is_write method
      then (bind_result (a.get_after c r w, w)
          (λ after w.
            bind_result (entity_id_of a.entity_id c r w, w)
              (λ entity_id. write_audit_log c a entity_id before after))).1
      else w

  unfoldable pub before_of : Option (Audit D R) → Ctx → World D R → Result (Option D)
  before_of none c w = ok none
  before_of (some a) c w = a.get_before c w

  abbrev pub resolve : Bool → Request → World D R → Result TenantCtx
  resolve auth q w =
      if auth
      then and_then (resolve_auth_from_request keys.verify w.tenants q.token w.identities)
          of_request
      else resolve_tenant_from_request keys.verify w.tenants q.token q.x_tenant_id q.x_user_id
          w.identities

  -- The context with which a tenant's handler may run.
  unfoldable pub admit : Options D R → Request → String → World D R → Result Ctx
  admit o q id w = and_then (resolve o.auth q w) (λ t.
      let c = tenant_ctx id t in
      and_then (guard_permission o.permission c)
        (λ _. and_then (guard_auditor q.method c) (λ _. ok c)))

  unfoldable pub run_handler :
      Options D R → Request → Handler D R → Ctx → World D R → Result (Response D) × World D R
  run_handler o q handler c w =
      bind_result (before_of o.audit c w, w)
        (λ before w.
          bind_result (handler c w) (λ r w'. (ok r, audited o.audit c q.method before r w')))

  unfoldable pub run_platform :
      Bool → Request → Handler D R → String → World D R → Result (Response D) × World D R
  run_platform platform_auth q handler id w =
      if platform_auth
      then bind_result
          (
            resolve_platform_auth keys.platform_key keys.verify w.platform_users
                q.x_platform_api_key q.token,
            w,
          )
          (λ a. handler (platform_ctx id a))
      else handler (public_ctx id) w

  -- What the `try` block gives.
  unfoldable pub run_request :
      Options D R → Request → Handler D R → String → World D R → Result (Response D) × World D R
  run_request o q handler id w =
      if o.platform
      then run_platform o.platform_auth q handler id w
      else bind_result (admit o q id w, w) (run_handler o q handler)

  abbrev pub respond : Result (Response D) × World D R → Response D × World D R
  respond (ok r, w) = (r, w)
  respond (err e, w) = (error_response e, w)

  -- `withApiHandler(options, handler)(request)`; `fresh` is a new random id.
  unfoldable pub with_api_handler :
      Options D R → Request → Handler D R → String → World D R → Response D × World D R
  with_api_handler o q handler fresh w =
      respond (run_request o q handler (request_id_of q.x_request_id fresh) w)
