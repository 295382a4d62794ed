-- ===== src/Provisioning/Queue/Outcome.antt =====
-- What `enqueueTenantProvision` leaves behind when it returns and when it throws.
use hippo_build_x.Prelude.{
  String, ◌≡◌, refl, subst, inl, inr, Bool, true, false, ◌||◌, Option, none, some, truthy,
  Bool-cases, ◌==◌,
}
use hippo_build_x.Prelude.Effect.{
  Result, ok, err, Thrown, try_catch, Ensures, Ensures->>, Ensures-of_ok, Ensures-catch, ◌>>◌, pure,
  throw,
}
use hippo_build_x.Provisioning.ControlPlane.{ControlPlane, Action, JobValues, no_values}
use hippo_build_x.Provisioning.Schema.{Stage, provision_tenant_schema}
use hippo_build_x.Provisioning.Schema.Ready.{
  IsReady, KeepsTenants, exec_on-update_job, then_pure-KeepsTenants, keeps_ready,
  provision_tenant_schema-IsReady,
}
use hippo_build_x.Provisioning.Queue.{
  Payload, set_job_row, update_queue_job, update_job_best_effort, Enqueued, sync, queued,
  FailureKind, unsupported_version, transient, fatal, Queues, on_plane, Switches,
  can_provision_synchronously, sync_step, sync_block, sync_failed, provision_synchronously,
  handle_failure_kind, handle_queue_add_failure, after_add, enqueue_tenant_provision,
  record_terminal_queue_failure, record_retryable_queue_failure, ignore,
  mark_tenant_provisioning_failed, failure_of, classify_queue_failure,
}

update_queue_job-KeepsTenants :
    (id : Option String) (values : JobValues) → KeepsTenants (update_queue_job id values)
unfolding update_queue_job
update_queue_job-KeepsTenants none values s = refl
update_queue_job-KeepsTenants (some id) values s = elim (Bool-cases (id == "")) [
  | inl blank ↦ rw blank
  | inr given ↦ rw given (exec_on-update_job s.faults id (set_job_row values s.now) s)
]

best_effort-KeepsTenants :
    (id : Option String) (values : JobValues) → KeepsTenants (update_job_best_effort id values)
unfolding update_job_best_effort
best_effort-KeepsTenants id values s = update_queue_job-KeepsTenants id values s

-- What holds of the control plane when the call has provisioned at once.
abbrev WhenSync : (ControlPlane → Type 0) → Result Enqueued × Queues → Type 0
WhenSync P (ok sync, q) = P q.plane
WhenSync P (ok (queued _), q) = Unit
WhenSync P (err _, q) = Unit

WhenSync-on_plane :
    (P : ControlPlane → Type 0) (m : Action Enqueued) (q : Queues)
    → Ensures P (m q.plane)
    → WhenSync P (on_plane m q)
WhenSync-on_plane P m q h = same_state (m q.plane) h
  where
    same_state :
        (r : Result Enqueued × ControlPlane)
        → Ensures P r
        → WhenSync P (r.0, record q { plane = r.1 })
    same_state (ok sync, s) h = h
    same_state (ok (queued id), s) h = tt
    same_state (err e, s) h = tt

module _ (env : Switches) (add : String → Result (Unit {0}))
    (stage : Payload → Stage → Action (Unit {0})) where
  completed : Payload → Action Bool
  completed p = update_job_best_effort p.provisioning_job_id (record no_values {
    status = some "completed";
    current_step = some "active";
    finished = true;
  })

  sync_block-IsReady :
      (p : Payload) (s : ControlPlane)
      → Ensures (IsReady p.tenant_id) (sync_block env add stage p s)
  unfolding sync_block completed
  sync_block-IsReady p s = Ensures->> P block (completed p >> pure sync) s (λ a s' e.
      Ensures->> P (completed p) (pure sync) s' (λ b s2 e2.
        Ensures-of_ok P _ b s2
          (keeps_ready p.tenant_id (completed p) s'
            (best_effort-KeepsTenants p.provisioning_job_id _) (Ensures-of_ok P _ a s' (ready s) e))
          e2))
    where
      P : ControlPlane → Type 0
      P = IsReady p.tenant_id

      block : Action (Unit {0})
      block =
          provision_tenant_schema (stage p) (sync_step env add stage p) p.tenant_id p.schema_name

      ready : (s : ControlPlane) → Ensures P (block s)
      ready s =
          provision_tenant_schema-IsReady (stage p) (sync_step env add stage p)
            (λ step.
              then_pure-KeepsTenants
                (update_job_best_effort p.provisioning_job_id
                  (record no_values { status = some "running"; current_step = some step }))
                (best_effort-KeepsTenants p.provisioning_job_id _))
            p.tenant_id p.schema_name s

  provision_synchronously-IsReady :
      (p : Payload) (s : ControlPlane)
      → Ensures (IsReady p.tenant_id) (provision_synchronously env add stage p s)
  unfolding provision_synchronously sync_failed
  provision_synchronously-IsReady p s =
      Ensures->> P started (try_catch (sync_block env add stage p) (sync_failed env add stage p)) s
        (λ _ s1 _.
          Ensures-catch P (sync_failed env add stage p) (sync_block env add stage p s1)
            (sync_block-IsReady p s1)
            (λ e s2. Ensures->> P (reported e) (throw {A = Enqueued} e) s2 (λ _ _ _. tt)))
    where
      P : ControlPlane → Type 0
      P = IsReady p.tenant_id

      started : Action Bool
      started = update_job_best_effort p.provisioning_job_id (record no_values {
        status = some "running";
        current_step = some "starting";
        started = true;
        increment_attempt = true;
      })

      reported : Thrown → Action Bool
      reported e =
          ignore (mark_tenant_provisioning_failed p.tenant_id)
          >> update_job_best_effort p.provisioning_job_id
              (failure_of e "failed" "failed" "PROVISIONING_FAILED" true)

  synchronously-WhenSync :
      (p : Payload) (q : Queues)
      → WhenSync (IsReady p.tenant_id) (on_plane (provision_synchronously env add stage p) q)
  synchronously-WhenSync p q =
      WhenSync-on_plane (IsReady p.tenant_id) (provision_synchronously env add stage p) q
        (provision_synchronously-IsReady p q.plane)

  thrown-WhenSync :
      (P : ControlPlane → Type 0) (m : Action (Unit {0})) (error : Thrown) (q : Queues)
      → WhenSync P (on_plane (m >> throw error) q)
  thrown-WhenSync P m error q =
      WhenSync-on_plane P (m >> throw error) q (Ensures->> P m (throw error) q.plane (λ _ _ _. tt))

  handle_failure_kind-WhenSync :
      (kind : FailureKind) (p : Payload) (error : Thrown) (q : Queues)
      → WhenSync (IsReady p.tenant_id) (handle_failure_kind env add stage kind p error q)
  unfolding handle_failure_kind
  handle_failure_kind-WhenSync unsupported_version p error q =
      elim (Bool-cases (can_provision_synchronously env)) [
        | inl can ↦ rw can (synchronously-WhenSync p _)
        | inr cannot ↦ rw cannot (
            thrown-WhenSync (IsReady p.tenant_id)
              (record_terminal_queue_failure p error "QUEUE_REDIS_UNSUPPORTED") error q)
      ]
  handle_failure_kind-WhenSync transient p error q =
      elim (Bool-cases (can_provision_synchronously env)) [
        | inl can ↦ rw can (synchronously-WhenSync p _)
        | inr cannot ↦ rw cannot (
            thrown-WhenSync (IsReady p.tenant_id) (record_retryable_queue_failure p error) error
              (record q { open_queue = false }))
      ]
  handle_failure_kind-WhenSync fatal p error q =
      thrown-WhenSync (IsReady p.tenant_id)
        (record_terminal_queue_failure p error "QUEUE_UNAVAILABLE") error q

  after_add-WhenSync :
      (p : Payload) (id : String) (added : Result (Unit {0})) (q : Queues)
      → WhenSync (IsReady p.tenant_id) (after_add env add stage p id added q)
  unfolding after_add handle_queue_add_failure update_job_best_effort
  after_add-WhenSync p id (ok _) q = tt
  after_add-WhenSync p id (err error) q =
      handle_failure_kind-WhenSync (classify_queue_failure error) p error q

  enqueue-WhenSync :
      (p : Payload) (q : Queues)
      → WhenSync (IsReady p.tenant_id) (enqueue_tenant_provision env add stage p q)
  unfolding enqueue_tenant_provision
  enqueue-WhenSync p q = elim (Bool-cases (truthy p.provisioning_job_id)) [
    | inr missing ↦ rw missing tt
    | inl given ↦ elim (Bool-cases (env.provision_sync || truthy q.unavailable)) [
      | inl now ↦ rw (given, now) (synchronously-WhenSync p q)
      | inr later ↦ rw (given, later) (after_add-WhenSync p _ _ _)
    ]
  ]

  -- When `enqueueTenantProvision` says that it has provisioned at once, by the setting or as a way
  -- out of a failed queue, the tenant is active and its data location ready.
  pub enqueue_tenant_provision-IsReady :
      (p : Payload) (q q' : Queues)
      → enqueue_tenant_provision env add stage p q ≡ (ok sync, q')
      → IsReady p.tenant_id q'.plane
  enqueue_tenant_provision-IsReady p q q' h =
      subst (WhenSync (IsReady p.tenant_id)) h (enqueue-WhenSync p q)
