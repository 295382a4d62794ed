-- ===== src/Api/Pipeline/Guarded.antt =====
-- Whose request reaches the handler of a tenant's route.
use hippo_build_x.Prelude.{
  String, ◌≡◌, ◌≢◌, ◌⊎◌, inl, inr, true, false, Option, some, [], Bool-cases, ◌==◌, eq_iff,
}
use hippo_build_x.Prelude.Effect.{ok, err, Thrown, Result-cases}
use hippo_build_x.Rbac.Guards.{enforce_not_auditor_write}
use hippo_build_x.Rbac.Guards.Laws.{Grants, checks_iff}
use hippo_build_x.Auth.Request.{RequestContext, resolve_auth_from_request}
use hippo_build_x.Auth.Request.Trust.{Accepts, resolve_auth_from_request-Accepts}
use hippo_build_x.Api.Context.{Ctx, rbac_ctx}
use hippo_build_x.Api.Pipeline.{
  Request, World, AuditRow, Keys, Options, Handler, Audit, request_id_of, is_write, error_response,
  tenant_ctx, guard_permission, guard_auditor, admit, run_request, with_api_handler,
}

abbrev pub ctx_of : String → RequestContext → Ctx
ctx_of id t = tenant_ctx id (record {
  tenant_id = t.tenant_id;
  schema_name = t.schema_name;
  isolation_mode = t.isolation_mode;
  slug = t.slug;
  session_id = t.session_id;
  authz = some t.authz;
})

permission_granted :
    (p : String) (c : Ctx) → p ≢ "" → guard_permission (some p) c ≡ ok tt → Grants (rbac_ctx c) p
unfolding guard_permission
permission_granted p c ne h = elim (Bool-cases (p == "")) [
  | inl blank ↦ absurd (ne ((eq_iff p "").0 blank))
  | inr given ↦ (checks_iff (rbac_ctx c) p []).2.0 (rw given at h)
]

no_auditor_guard :
    (method : String) (c : Ctx)
    → guard_auditor method c ≡ ok tt
    → (is_write method ≡ false) ⊎ (enforce_not_auditor_write (rbac_ctx c) method ≡ ok tt)
unfolding guard_auditor
no_auditor_guard method c h = elim (Bool-cases (is_write method)) [
  | inl writes ↦ inr (rw writes at h)
  | inr reads ↦ inl reads
]

module _ {D R : Type 0} (keys : Keys) (fails : AuditRow D → Option Thrown) where
  -- A route of a tenant that asks for a permission.
  abbrev pub route : String → Option (Audit D R) → Options D R
  route permission audit = record {
    platform = false;
    auth = true;
    platform_auth = false;
    permission = some permission;
    audit = audit;
  }

  -- The request has a token of the tenant's user, who has the permission and, for a method that
  -- writes, is no auditor only.
  pub record IsEntitled (permission : String) (q : Request) (id : String) (w : World D R)
      : Type 0 where
    pub ctx : RequestContext
    pub accepted : Accepts keys.verify w.tenants q.token w.identities ctx
    pub granted : Grants (rbac_ctx (ctx_of id ctx)) permission
    pub no_auditor :
        (is_write q.method ≡ false)
        ⊎ (enforce_not_auditor_write (rbac_ctx (ctx_of id ctx)) q.method ≡ ok tt)

  -- Either the guards refuse the request, or it is entitled.
  admit-cases :
      (permission : String) (audit : Option (Audit D R)) (q : Request) (id : String) (w : World D R)
      → permission ≢ ""
      → ((e : Thrown) × (admit keys fails (route permission audit) q id w ≡ err e))
        ⊎ IsEntitled permission q id w
  unfolding admit
  admit-cases permission audit q id w ne =
      elim (Result-cases (resolve_auth_from_request keys.verify w.tenants q.token w.identities)) [
        | inr (e, refused) ↦ inl (e, rw refused)
        | inl (t, resolved) ↦
            elim (Result-cases (guard_permission (some permission) (ctx_of id t))) [
              | inr (e, refused) ↦ inl (e, rw resolved (rw refused))
              | inl (_, granted) ↦ elim (Result-cases (guard_auditor q.method (ctx_of id t))) [
                | inr (e, refused) ↦ inl (e, rw resolved (rw granted (rw refused)))
                | inl (_, passed) ↦ inr (record {
                  ctx = t;
                  accepted =
                      resolve_auth_from_request-Accepts keys.verify w.tenants q.token w.identities t
                        resolved;
                  granted = permission_granted permission (ctx_of id t) ne granted;
                  no_auditor = no_auditor_guard q.method (ctx_of id t) passed;
                })
              ]
            ]
      ]

  -- A route of a tenant that asks for a permission either answers with an error and changes nothing,
  -- whatever its handler would do; or the request has a token that names an active tenant and an
  -- active user of it, the user has the permission, and the method does not write or the user is no
  -- auditor only.
  pub with_api_handler-IsEntitled :
      (permission : String) (audit : Option (Audit D R)) (q : Request) (handler : Handler D R)
      (fresh : String) (w : World D R)
      → permission ≢ ""
      → ((e : Thrown) × (with_api_handler keys fails (route permission audit) q handler fresh w
            ≡ (error_response e, w)))
        ⊎ IsEntitled permission q (request_id_of q.x_request_id fresh) w
  unfolding with_api_handler run_request
  with_api_handler-IsEntitled permission audit q handler fresh w ne =
      elim (admit-cases permission audit q (request_id_of q.x_request_id fresh) w ne) [
        | inl (e, refused) ↦ inl (e, rw refused)
        | inr entitled ↦ inr entitled
      ]
