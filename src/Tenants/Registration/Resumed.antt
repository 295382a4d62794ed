-- ===== src/Tenants/Registration/Resumed.antt =====
-- A registration that could not be queued is completed by the same request, sent again.
use Prim.Native.String.{◌++◌}
use text.Mathlib.TextLemmas.{append-eq-nil_iff}
use mathlib.Core.Bool.{false≢true}
use hippo_build_x.Prelude.{
  ℕ, String, ◌≡◌, ◌≢◌, refl, sym, ap, subst, ◌∙◌, ◌⊎◌, inl, inr, true, false, Option, none, some,
  [], All, All-update, any, update, Bool-cases, or_null, ◌==◌, eq_iff, eq_refl,
}
use hippo_build_x.Prelude.Effect.{Result, ok, err, Thrown}
use hippo_build_x.Provisioning.ControlPlane.{
  Tenant, Job, ControlPlane, Action, no_values, reliable, update_job,
}
use hippo_build_x.Provisioning.Schema.{Stage}
use hippo_build_x.Provisioning.Queue.{
  Payload, queued, Queues, transient, set_job_row, update_queue_job, update_job_best_effort,
  failure_of, bullmq_id, after_add, handle_failure_kind, classify_queue_failure,
  enqueue_tenant_provision,
}
use hippo_build_x.Provisioning.Queue.Refused.{never_sync, working, refused, retryable}
use hippo_build_x.Tenants.Registration.{
  Creation, Valid, Fresh, creation_key, find_replay, Registered, replay, created, register_from,
  register, enqueued, enqueue_registered, respond_registered, validate_creation, post_tenant,
}
use hippo_build_x.Tenants.Registration.Once.{Made, register-Made}
use hippo_build_x.Tenants.Registration.Touched.{touched, find_replay-update}

queue_id-given :
    (id : String) → or_null (some ("tenant-provision-" ++ id)) ≡ some ("tenant-provision-" ++ id)
queue_id-given id = elim (Bool-cases (("tenant-provision-" ++ id) == "")) [
  | inl blank ↦
      let prefix = (append-eq-nil_iff.0 ((eq_iff ("tenant-provision-" ++ id) "").0 blank)).0 in
      absurd (false≢true ((eq_iff "tenant-provision-" "").1 prefix))
  | inr given ↦ rw given refl
]

-- The row of a job that waits in the queue.
abbrev pub waiting : String → ℕ → Job → Job
waiting id now =
    set_job_row
      (record no_values {
        status = some "queued";
        current_step = some "queued";
        bullmq_job_id = some id;
      })
      now

-- The row of a job after a connection error.
abbrev unsent : Thrown → ℕ → Job → Job
unsent error now = set_job_row (failure_of error "queued" "registered" "QUEUE_RETRYABLE" false) now

module _ (add : String → Result (Unit {0})) (stage : Payload → Stage → Action (Unit {0})) where
  abbrev pub queue_id : Job → String
  queue_id j = bullmq_id never_sync add stage (some j.id)

  -- The queue takes a job that is still to be dispatched.
  pub enqueue_registered-accepted :
      (t : Tenant) (j : Job) (q : Queues)
      → j.status ≡ "queued"
      → j.current_step ≡ "registered"
      → j.id ≢ ""
      → add (queue_id j) ≡ ok tt
      → enqueue_registered never_sync add stage t j (working q) ≡ (
        ok (enqueued (queued (queue_id j))),
        record (working q) {
          plane = update_job j.id (waiting (queue_id j) q.plane.now) (reliable q.plane);
          open_queue = true;
        },
      )
  unfolding enqueue_registered enqueue_tenant_provision after_add update_job_best_effort
      update_queue_job
  enqueue_registered-accepted t j q h k named e = elim (Bool-cases (j.id == "")) [
    | inl blank ↦ absurd (named ((eq_iff j.id "").0 blank))
    | inr given ↦
        rw ((eq_iff j.status "queued").1 h)
          (rw ((eq_iff j.current_step "registered").1 k) (rw given (rw e (rw given refl))))
  ]

reliable-same : (s : ControlPlane) → s.faults ≡ [] → reliable s ≡ s
reliable-same s h = ap (λ fs. record s { faults = fs }) (sym h)

module _ (add : String → Result (Unit {0})) (stage : Payload → Stage → Action (Unit {0})) where
  -- The answer to a request whose job the queue could not take.
  respond-unsent :
      (t : Tenant) (j : Job) (error : Thrown) (q : Queues)
      → j.id ≢ ""
      → add (queue_id add stage j) ≡ err error
      → classify_queue_failure error ≡ transient
      → respond_registered never_sync add stage (created t j) (working q) ≡ (
        err error,
        record (working q) {
          plane = update_job j.id (unsent error q.plane.now) (reliable q.plane);
          open_queue = false;
        },
      )
  unfolding respond_registered handle_failure_kind
  respond-unsent t j error q named e k =
      rw (refused add stage t.id t.schema_name j.id error q named e)
        (rw k (rw (retryable t.id t.schema_name j.id error q.plane named) refl))

  respond-accepted :
      (t : Tenant) (j : Job) (q : Queues)
      → j.status ≡ "queued"
      → j.current_step ≡ "registered"
      → j.id ≢ ""
      → add (queue_id add stage j) ≡ ok tt
      → respond_registered never_sync add stage (replay t j) (working q) ≡ (
        ok (record {
          status = 200;
          tenant = some t;
          mode = enqueued (queued (queue_id add stage j));
          idempotent_replay = true;
        }),
        record (working q) {
          plane = update_job j.id (waiting (queue_id add stage j) q.plane.now) (reliable q.plane);
          open_queue = true;
        },
      )
  unfolding respond_registered
  respond-accepted t j q h k named e =
      rw (enqueue_registered-accepted add stage t j q h k named e) refl

  post_tenant-registered :
      (b : Creation) (key : Option String) (f : Fresh) (v : Valid) (r : Registered) (q : Queues)
      (s : ControlPlane)
      → validate_creation b ≡ ok v
      → register f v (creation_key key v.slug) q.plane ≡ (ok r, s)
      → post_tenant never_sync add stage b key f q
        ≡ respond_registered never_sync add stage r (record q { plane = s })
  unfolding post_tenant
  post_tenant-registered b key f v r q s valid h = rw valid (rw h refl)

-- The queues after a job could not be queued.
abbrev missed : Job → Thrown → Queues → ControlPlane → Queues
missed j error q s = record q { plane = update_job j.id (unsent error s.now) s; open_queue = false }

register-unsent :
    (f : Fresh) (v : Valid) (key : String) (t : Tenant) (j : Job) (q : Queues) (s : ControlPlane)
    (error : Thrown)
    → find_replay key s.tenants s.jobs ≡ some (t, j)
    → register f v key (working (missed j error q s)).plane
      ≡ (ok (replay t (unsent error s.now j)), (working (missed j error q s)).plane)
unfolding register register_from set_job_row
register-unsent f v key t j q s error found =
    rw
      (find_replay-update key j.id (unsent error s.now) s.tenants s.jobs (λ k. refl) (λ k. refl)
        ∙ ap (touched j.id (unsent error s.now)) found)
      (rw (eq_refl j.id) refl)

-- A request that registers a tenant while the queue has a connection error fails with that error; the
-- same request, sent again with the queue working, registers nothing more, puts the job of the first
-- one in the queue and answers with it. The process may not provision at once, no statement of the
-- database fails, the tenant's new id is not in use, and the job's is not empty.
pub post_tenant-resumed :
    (add add' : String → Result (Unit {0})) (stage : Payload → Stage → Action (Unit {0}))
    (b : Creation) (key : Option String) (f f' : Fresh) (v : Valid) (t : Tenant) (j : Job)
    (q : Queues) (s : ControlPlane) (error : Thrown)
    → validate_creation b ≡ ok v
    → any (λ u. u.id == f.tenant_id) q.plane.tenants ≡ false
    → register f v (creation_key key v.slug) (reliable q.plane) ≡ (ok (created t j), s)
    → j.id ≢ ""
    → add (queue_id add stage j) ≡ err error
    → classify_queue_failure error ≡ transient
    → add' (queue_id add' stage j) ≡ ok tt
    → let (out, q') = post_tenant never_sync add stage b key f (working q) in
      let (out', q'') = post_tenant never_sync add' stage b key f' q' in
      (out ≡ err error)
      × (out'
          ≡ ok (record {
            status = 200;
            tenant = some t;
            mode = enqueued (queued (queue_id add' stage j));
            idempotent_replay = true;
          }))
      × (q''.plane.tenants ≡ s.tenants)
      × All
          (λ k.
            (k.id ≢ j.id)
            ⊎ ((k.status ≡ "queued")
                × (k.current_step ≡ "queued")
                × (k.bullmq_job_id ≡ some (queue_id add' stage j))))
          q''.plane.jobs
unfolding set_job_row
post_tenant-resumed add add' stage b key f f' v t j q s error valid fresh h named refuses k
      accepts =
    let made =
      subst (Made (creation_key key v.slug) []) h
        (register-Made f v (creation_key key v.slug) (reliable q.plane) fresh) in
    let first =
      post_tenant-registered add stage b key f v (created t j) (working q) s valid h
      ∙ ap
          (λ p.
            respond_registered never_sync add stage (created t j)
              (record (working q) { plane = p }))
          (sym (reliable-same s (made.no_faults refl)))
      ∙ respond-unsent add stage t j error (record q { plane = s }) named refuses k in
    let again =
      post_tenant-registered add' stage b key f' v (replay t (unsent error s.now j))
        (working (missed j error q s)) (working (missed j error q s)).plane valid
        (register-unsent f' v (creation_key key v.slug) t j q s error made.found)
      ∙ respond-accepted add' stage t (unsent error s.now j) (missed j error q s) refl refl named
          accepts in
    rw first (rw again (refl, refl, refl, shows))
  where
    shows :
        All
          (λ x.
            (x.id ≢ j.id)
            ⊎ ((x.status ≡ "queued")
                × (x.current_step ≡ "queued")
                × (x.bullmq_job_id ≡ some (queue_id add' stage j))))
          (update
            (λ x. x.id == j.id)
            (waiting (queue_id add' stage j) s.now)
            (update (λ x. x.id == j.id) (unsent error s.now) s.jobs))
    shows =
        All-update (λ x. x.id) j.id (waiting (queue_id add' stage j) s.now)
          (λ x.
            (x.status ≡ "queued")
            × (x.current_step ≡ "queued")
            × (x.bullmq_job_id ≡ some (queue_id add' stage j)))
          (update (λ x. x.id == j.id) (unsent error s.now) s.jobs)
          (λ x. (
            refl,
            refl,
            ap (λ o. elim o [ none ↦ x.bullmq_job_id | some id ↦ some id ]) (queue_id-given j.id),
          ))
