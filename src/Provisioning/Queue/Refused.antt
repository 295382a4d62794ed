-- ===== src/Provisioning/Queue/Refused.antt =====
-- What a job that the queue refuses leaves in the control plane, when the tenant may not be
-- provisioned at once.
use hippo_build_x.Prelude.{
  ℕ, String, ◌≡◌, ◌≢◌, refl, sym, ◌∙◌, ◌⊎◌, inl, inr, Bool, true, false, none, some, List, [], ◌∷◌,
  All, All-update, filter, update, Bool-cases, or_null, ◌==◌, eq_iff, arith,
}
use mathlib.Core.Bool.{false≢true}
use hippo_build_x.Prelude.Effect.{Result, ok, err, Thrown}
use hippo_build_x.Provisioning.ControlPlane.{
  Tenant, Job, ControlPlane, Action, reliable, update_tenant, update_job,
}
use hippo_build_x.Provisioning.Schema.{Stage}
use hippo_build_x.Provisioning.Queue.{
  Payload, set_job_row, update_queue_job, is_provisioning, failed_tenant,
  mark_tenant_provisioning_failed, Enqueued, FailureKind, unsupported_version, transient, fatal,
  classify_queue_failure, failure_of, record_retryable_queue_failure, record_terminal_queue_failure,
  Queues, Switches, handle_failure_kind, handle_queue_add_failure, after_add, bullmq_id,
  enqueue_tenant_provision,
}

abbrev pub is_active : Tenant → Bool
is_active t = t.status == "active"

apart : ◌≢◌ {A = String} "active" "provisioning"
apart h = absurd (false≢true ((eq_iff "active" "provisioning").1 h))

failed_apart : ◌≢◌ {A = String} "failed" "provisioning"
failed_apart h = absurd (false≢true ((eq_iff "failed" "provisioning").1 h))

active_kept :
    (id : String) (now : ℕ) (ts : List Tenant)
    → filter is_active (update (is_provisioning id) (failed_tenant now) ts) ≡ filter is_active ts
active_kept id now [] = refl
active_kept id now (t ∷ ts) = elim (Bool-cases (is_provisioning id t)) [
  | inl waits ↦ rw waits (ground (arith, idle waits, active_kept id now ts))
  | inr rests ↦ rw rests (ground (arith, active_kept id now ts))
]
  where
    idle : is_provisioning id t ≡ true → (t.status == "active") ≡ false
    idle h = ground (arith, h, eq_iff t.status "active", eq_iff t.status "provisioning", apart)

none_waits :
    (id : String) (now : ℕ) (ts : List Tenant)
    → All
        (λ t. (t.id ≢ id) ⊎ (t.status ≢ "provisioning"))
        (update (is_provisioning id) (failed_tenant now) ts)
none_waits id now [] = tt
none_waits id now (t ∷ ts) = elim (Bool-cases (is_provisioning id t)) [
  | inl waits ↦ rw waits (inr failed_apart, none_waits id now ts)
  | inr rests ↦ rw rests (elsewhere rests, none_waits id now ts)
]
  where
    elsewhere : is_provisioning id t ≡ false → (t.id ≢ id) ⊎ (t.status ≢ "provisioning")
    elsewhere h = elim (Bool-cases (t.id == id)) [
      | inl same ↦
          inr (λ e. absurd (false≢true (sym h ∙ rw (same, (eq_iff t.status "provisioning").1 e))))
      | inr other ↦ inl (λ e. absurd (false≢true (sym other ∙ (eq_iff t.id id).1 e)))
    ]

abbrev pub never_sync : Switches
never_sync = record { provision_sync = false; has_migration_url = false }

-- The payload for the row `job_id` of `provisioning_jobs`.
abbrev pub payload : String → String → String → Payload
payload tenant_id schema_name job_id = record {
  tenant_id = tenant_id;
  schema_name = schema_name;
  provisioning_job_id = some job_id;
}

-- A process that has not met an unsupported Redis, with a database where no statement fails.
abbrev pub working : Queues → Queues
working q = record q { plane = reliable q.plane; unavailable = none }

terminal :
    (tenant_id schema_name job_id code : String) (error : Thrown) (s : ControlPlane)
    → tenant_id ≢ ""
    → job_id ≢ ""
    → record_terminal_queue_failure (payload tenant_id schema_name job_id) error code (reliable s)
      ≡ (
        ok tt,
        update_job job_id
            (set_job_row (failure_of error "failed" "queue_failed" code true) s.now)
            (update_tenant (is_provisioning tenant_id) (failed_tenant s.now) (reliable s)),
      )
unfolding record_terminal_queue_failure mark_tenant_provisioning_failed update_queue_job
terminal tenant_id schema_name job_id code error s ne ne' = elim (Bool-cases (tenant_id == "")) [
  | inl blank ↦ absurd (ne ((eq_iff tenant_id "").0 blank))
  | inr given ↦ elim (Bool-cases (job_id == "")) [
    | inl blank ↦ absurd (ne' ((eq_iff job_id "").0 blank))
    | inr named ↦ rw (given, named)
  ]
]

-- What the row of the job shows after a refusal.
abbrev pub JobShows : String → String → String → String → ControlPlane → Type 0
JobShows id status current_step code s =
    All
      (λ j.
        (j.id ≢ id)
        ⊎ ((j.status ≡ status) × (j.current_step ≡ current_step) × (j.error_code ≡ some code)))
      s.jobs

pub retryable :
    (tenant_id schema_name job_id : String) (error : Thrown) (s : ControlPlane)
    → job_id ≢ ""
    → record_retryable_queue_failure (payload tenant_id schema_name job_id) error (reliable s) ≡ (
      ok tt,
      update_job job_id
          (set_job_row (failure_of error "queued" "registered" "QUEUE_RETRYABLE" false) s.now)
          (reliable s),
    )
unfolding record_retryable_queue_failure update_queue_job
retryable tenant_id schema_name job_id error s ne = elim (Bool-cases (job_id == "")) [
  | inl blank ↦ absurd (ne ((eq_iff job_id "").0 blank))
  | inr named ↦ rw named
]

shows :
    (id status current_step code : String) (error : Thrown) (finished : Bool) (now : ℕ)
    (js : List Job)
    → or_null (some status) ≡ some status
    → or_null (some current_step) ≡ some current_step
    → or_null (some code) ≡ some code
    → All
        (λ j.
          (j.id ≢ id)
          ⊎ ((j.status ≡ status) × (j.current_step ≡ current_step) × (j.error_code ≡ some code)))
        (update
          (λ j. j.id == id)
          (set_job_row (failure_of error status current_step code finished) now)
          js)
unfolding set_job_row
shows id status current_step code error finished now js a b c =
    All-update (λ j. j.id) id (set_job_row (failure_of error status current_step code finished) now)
      (λ j. (j.status ≡ status) × (j.current_step ≡ current_step) × (j.error_code ≡ some code)) js
      (λ j. (rw a, rw b, c))

-- What is promised of the control plane after a terminal failure.
pub record Abandoned (tenant_id job_id : String) (before after : ControlPlane) : Type 0 where
  pub settled : All (λ t. (t.id ≢ tenant_id) ⊎ (t.status ≢ "provisioning")) after.tenants
  pub active : filter is_active after.tenants ≡ filter is_active before.tenants
  pub job :
      All
        (λ j. (j.id ≢ job_id) ⊎ ((j.status ≡ "failed") × (j.current_step ≡ "queue_failed")))
        after.jobs

module _ (add : String → Result (Unit {0})) (stage : Payload → Stage → Action (Unit {0})) where
  abbrev enqueue : Payload → Queues → Result Enqueued × Queues
  enqueue = enqueue_tenant_provision never_sync add stage

  pub refused :
      (tenant_id schema_name job_id : String) (error : Thrown) (q : Queues)
      → job_id ≢ ""
      → add (bullmq_id never_sync add stage (some job_id)) ≡ err error
      → enqueue (payload tenant_id schema_name job_id) (working q)
        ≡ handle_failure_kind never_sync add stage
            (classify_queue_failure error)
            (payload tenant_id schema_name job_id)
            error
            (record (working q) { open_queue = true })
  unfolding enqueue_tenant_provision after_add handle_queue_add_failure
  refused tenant_id schema_name job_id error q ne e = elim (Bool-cases (job_id == "")) [
    | inl blank ↦ absurd (ne ((eq_iff job_id "").0 blank))
    | inr named ↦ rw named (rw e)
  ]

  -- When `queue.add` fails with a connection error, the tenant may not be provisioned at once, the
  -- job's id is given and no statement of the database fails: the error is thrown, no tenant changes,
  -- the job waits for a retry, and the next call opens a new queue.
  pub enqueue_tenant_provision-transient :
      (tenant_id schema_name job_id : String) (error : Thrown) (q : Queues)
      → job_id ≢ ""
      → add (bullmq_id never_sync add stage (some job_id)) ≡ err error
      → classify_queue_failure error ≡ transient
      → let (out, q') = enqueue (payload tenant_id schema_name job_id) (working q) in
        (out ≡ err error)
        × (q'.plane.tenants ≡ q.plane.tenants)
        × JobShows job_id "queued" "registered" "QUEUE_RETRYABLE" q'.plane
        × (q'.open_queue ≡ false)
  unfolding handle_failure_kind
  enqueue_tenant_provision-transient tenant_id schema_name job_id error q ne e k =
      rw (refused tenant_id schema_name job_id error q ne e) (
        rw k (
          rw (retryable tenant_id schema_name job_id error q.plane ne) (
            refl,
            refl,
            shows job_id "queued" "registered" "QUEUE_RETRYABLE" error false q.plane.now
                q.plane.jobs refl refl refl,
            refl,
          )))

  abandoned :
      (tenant_id schema_name job_id code : String) (error : Thrown) (s : ControlPlane)
      → Abandoned tenant_id job_id s (
          update_job job_id
            (set_job_row (failure_of error "failed" "queue_failed" code true) s.now)
            (update_tenant (is_provisioning tenant_id) (failed_tenant s.now) (reliable s)))
  unfolding set_job_row
  abandoned tenant_id schema_name job_id code error s = record {
    settled = none_waits tenant_id s.now s.tenants;
    active = active_kept tenant_id s.now s.tenants;
    job =
        All-update (λ j. j.id) job_id
          (set_job_row (failure_of error "failed" "queue_failed" code true) s.now)
          (λ j. (j.status ≡ "failed") × (j.current_step ≡ "queue_failed")) s.jobs
          (λ j. (refl, refl));
  }

  given_up :
      (tenant_id schema_name job_id : String) (error : Thrown) (q : Queues)
      → tenant_id ≢ ""
      → job_id ≢ ""
      → (kind : FailureKind) → kind ≢ transient
      → let (out, q') =
          handle_failure_kind never_sync add stage kind
            (payload tenant_id schema_name job_id)
            error
            (record (working q) { open_queue = true }) in
        (out ≡ err error) × Abandoned tenant_id job_id q.plane q'.plane
  unfolding handle_failure_kind
  given_up tenant_id schema_name job_id error q ne ne' unsupported_version k =
      rw (terminal tenant_id schema_name job_id "QUEUE_REDIS_UNSUPPORTED" error q.plane ne ne')
        (refl, abandoned tenant_id schema_name job_id "QUEUE_REDIS_UNSUPPORTED" error q.plane)
  given_up tenant_id schema_name job_id error q ne ne' transient k = absurd (k refl)
  given_up tenant_id schema_name job_id error q ne ne' fatal k =
      rw (terminal tenant_id schema_name job_id "QUEUE_UNAVAILABLE" error q.plane ne ne')
        (refl, abandoned tenant_id schema_name job_id "QUEUE_UNAVAILABLE" error q.plane)

  -- When `queue.add` fails with an error that is no connection error, the tenant may not be
  -- provisioned at once, both ids are given and no statement of the database fails: the error is
  -- thrown, no row of the tenant is left waiting for its provisioning, the active rows of all tenants
  -- are the same as before, and the job has failed.
  pub enqueue_tenant_provision-terminal :
      (tenant_id schema_name job_id : String) (error : Thrown) (q : Queues)
      → tenant_id ≢ ""
      → job_id ≢ ""
      → add (bullmq_id never_sync add stage (some job_id)) ≡ err error
      → classify_queue_failure error ≢ transient
      → let (out, q') = enqueue (payload tenant_id schema_name job_id) (working q) in
        (out ≡ err error) × Abandoned tenant_id job_id q.plane q'.plane
  enqueue_tenant_provision-terminal tenant_id schema_name job_id error q ne ne' e k =
      rw (refused tenant_id schema_name job_id error q ne' e)
        (given_up tenant_id schema_name job_id error q ne ne' (classify_queue_failure error) k)
