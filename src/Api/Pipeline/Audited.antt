-- ===== src/Api/Pipeline/Audited.antt =====
-- What the audit of a route adds to what its handler did.
use hippo_build_x.Prelude.{
  String, ◌≡◌, refl, ◌⊎◌, inl, inr, false, Option, none, some, [], ◌∷◌, ◌++◌, Bool-cases,
  Option-cases,
}
use hippo_build_x.Prelude.Effect.{ok, Thrown, Result-cases}
use hippo_build_x.Api.Context.{TenantCtx, Ctx, user_id, bound_tenant}
use hippo_build_x.Api.Pipeline.{
  Request, World, Response, AuditRow, Keys, Options, Handler, Audit, request_id_of, is_write,
  insert_audit, audit_row, write_audit_log, entity_id_of, audited, before_of, admit, run_handler,
  run_request, with_api_handler,
}

module _ {D R : Type 0} (keys : Keys) (fails : AuditRow D → Option Thrown) where
  -- Either nothing is added, or one row of the audit log, which names the action, the tenant of the
  -- context and its user.
  abbrev pub Logged : Option (Audit D R) → Ctx → World D R → World D R → Type 0
  Logged audit c w w' =
      (w' ≡ w)
      ⊎ ((a : Audit D R) × (t : TenantCtx) × (row : AuditRow D) × (audit ≡ some a)
          × (bound_tenant (some c) ≡ ok t)
          × (w' ≡ record w { audit_log = w.audit_log ++ row ∷ [] })
          × (row.tenant_id ≡ t.tenant_id)
          × (row.actor_id ≡ user_id c)
          × (row.action ≡ a.action))

  write-Logged :
      (c : Ctx) (a : Audit D R) (entity_id : Option String) (before after : Option D)
      (w : World D R)
      → Logged (some a) c w (write_audit_log keys fails c a entity_id before after w).1
  unfolding write_audit_log insert_audit
  write-Logged c a entity_id before after w = elim (Result-cases (bound_tenant (some c))) [
    | inr (e, refused) ↦ rw refused (inl refl)
    | inl (t, bound) ↦
        let row = audit_row keys fails c t a entity_id before after in
        elim (Option-cases (fails row)) [
          | inr (e, down) ↦ rw bound (rw down (inl refl))
          | inl up ↦ rw bound (rw up (inr (a, t, row, refl, refl, refl, refl, refl, refl)))
        ]
  ]

  -- What is added after the handler, whatever the audit's functions throw.
  audited-Logged :
      (audit : Option (Audit D R)) (c : Ctx) (method : String) (before : Option D) (r : Response D)
      (w : World D R)
      → Logged audit c w (audited keys fails audit c method before r w)
  unfolding audited
  audited-Logged none c method before r w = inl refl
  audited-Logged (some a) c method before r w = elim (Bool-cases (is_write method)) [
    | inr reads ↦ rw reads (inl refl)
    | inl writes ↦ elim (Result-cases (a.get_after c r w)) [
      | inr (e, failed) ↦ rw (writes, failed) (inl refl)
      | inl (after, got) ↦ elim (Result-cases (entity_id_of keys fails a.entity_id c r w)) [
        | inr (e, failed) ↦ rw (writes, got) (rw failed (inl refl))
        | inl (id, named) ↦ rw (writes, got) (rw named (write-Logged c a id before after w))
      ]
    ]
  ]

  -- On a route of a tenant: when the guards pass and the handler answers, the answer is the handler's, whatever the audit
  -- does; the state is what the handler left, with at most one more row of the audit log, which names
  -- the route's action, the tenant of the context and its user.
  pub with_api_handler-Logged :
      (o : Options D R) (q : Request) (handler : Handler D R) (fresh : String) (w w1 : World D R)
      (c : Ctx) (before : Option D) (r : Response D)
      → admit keys fails (record o { platform = false }) q (request_id_of q.x_request_id fresh) w
        ≡ ok c
      → before_of keys fails o.audit c w ≡ ok before
      → handler c w ≡ (ok r, w1)
      → let (r', w') =
          with_api_handler keys fails (record o { platform = false }) q handler fresh w in
        (r' ≡ r) × Logged o.audit c w1 w'
  unfolding with_api_handler run_request run_handler
  with_api_handler-Logged o q handler fresh w w1 c before r admitted got done =
      rw admitted (rw got (rw done (refl, audited-Logged o.audit c q.method before r w1)))
