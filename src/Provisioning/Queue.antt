-- ===== src/Provisioning/Queue.antt =====
-- apps/web/src/lib/queues.js: a provisioning job is put in the queue, or its failure is recorded, or
-- the tenant is provisioned at once. Parameters are the environment's two switches, what this call of
-- `queue.add` gives for a job id, and the work of the stages. Log lines are left out.
pub mod Outcome
pub mod Refused
use Prim.Native.String.{◌++◌}
use hippo_build_x.Prelude.{
  ℕ, suc, ◌+◌, String, Bool, true, false, not, ◌&&◌, ◌||◌, Option, none, some, List, [], ◌∷◌, map,
  codes, eqb, truthy, or_null, if◌then◌else◌, ◌==◌,
}
use hippo_build_x.Prelude.Effect.{
  Result, ok, err, Thrown, other, ◌>>=◌, ◌>>◌, pure, throw, try_catch,
}
use hippo_build_x.Db.Names.{is_upper}
use hippo_build_x.Provisioning.ControlPlane.{
  Tenant, Job, ControlPlane, Action, exec, update_tenant, update_job, coalesce, JobValues,
  no_values, message_of, slice_to,
}
use hippo_build_x.Provisioning.Schema.{Stage, provision_tenant_schema}

pub record Payload : Type 0 where
  pub tenant_id : String
  pub schema_name : String
  pub provisioning_job_id : Option String

-- The row that `updateJob` writes.
unfoldable pub set_job_row : JobValues → ℕ → Job → Job
set_job_row v now j = record j {
  status = coalesce (or_null v.status) j.status;
  current_step = coalesce (or_null v.current_step) j.current_step;
  bullmq_job_id = elim (or_null v.bullmq_job_id) [ none ↦ j.bullmq_job_id | some id ↦ some id ];
  error_code = or_null v.error_code;
  error_message = or_null v.error_message;
  started_at =
      if v.started then elim j.started_at [ none ↦ some now | some t ↦ some t ] else j.started_at;
  finished_at = if v.finished then some now else j.finished_at;
  attempt_count = j.attempt_count + (if v.increment_attempt then 1 else 0);
  updated_at = now;
}

-- `updateJob`
unfoldable pub update_queue_job : Option String → JobValues → Action (Unit {0})
update_queue_job none values s = (ok tt, s)
update_queue_job (some id) values s =
    if id == "" then (ok tt, s) else exec (update_job id (set_job_row values s.now)) s

abbrev pub succeeded : Result (Unit {0}) → Bool
succeeded (ok _) = true
succeeded (err _) = false

unfoldable pub update_job_best_effort : Option String → JobValues → Action Bool
update_job_best_effort id values s =
    let (r, s') = update_queue_job id values s in (ok (succeeded r), s')

abbrev pub is_provisioning : String → Tenant → Bool
is_provisioning id t = t.id == id && t.status == "provisioning"

abbrev pub failed_tenant : ℕ → Tenant → Tenant
failed_tenant now t = record t {
  status = "failed";
  data_location_status = "attention_required";
  updated_at = now;
}

-- `markTenantProvisioningFailed`
unfoldable pub mark_tenant_provisioning_failed : String → Action (Unit {0})
mark_tenant_provisioning_failed id s =
    if id == ""
    then (ok tt, s)
    else exec (update_tenant (is_provisioning id) (failed_tenant s.now)) s

-- What `enqueueTenantProvision` returns.
pub data Enqueued : Type 0 where
  sync : Enqueued
  queued : (bullmq_job_id : String) → Enqueued

pub data FailureKind : Type 0 where
  unsupported_version transient fatal : FailureKind

abbrev pub fold_case : ℕ → ℕ
fold_case c = if is_upper c then c + 32 else c

abbrev pub starts_with : List ℕ → List ℕ → Bool
starts_with [] cs = true
starts_with (p ∷ ps) [] = false
starts_with (p ∷ ps) (c ∷ cs) = eqb (fold_case p) (fold_case c) && starts_with ps cs

-- `/text/i.test(message)`, of a text without special characters.
unfoldable pub contains : List ℕ → List ℕ → Bool
contains text [] = starts_with text []
contains text (c ∷ cs) = starts_with text (c ∷ cs) || contains text cs

abbrev pub mentions : String → String → Bool
mentions text message = contains (codes text) (codes message)

unfoldable pub classify_queue_failure : Thrown → FailureKind
classify_queue_failure error =
    let message = message_of error in
    if mentions "Redis version needs" message
    then unsupported_version
    else if mentions "ECONNREFUSED" message
        || (mentions "ETIMEDOUT" message || mentions "Connection is closed" message)
    then transient
    else fatal

-- The values of the UPDATE after a failure.
abbrev pub failure_of : Thrown → String → String → String → Bool → JobValues
failure_of error status current_step error_code finished = record no_values {
  status = some status;
  current_step = some current_step;
  error_code = some error_code;
  error_message = some (slice_to 2000 (message_of error));
  finished = finished;
}

unfoldable pub record_retryable_queue_failure : Payload → Thrown → Action (Unit {0})
record_retryable_queue_failure p error =
    update_queue_job p.provisioning_job_id
      (failure_of error "queued" "registered" "QUEUE_RETRYABLE" false)

unfoldable pub record_terminal_queue_failure : Payload → Thrown → String → Action (Unit {0})
record_terminal_queue_failure p error error_code = do
  mark_tenant_provisioning_failed p.tenant_id
  update_queue_job p.provisioning_job_id (failure_of error "failed" "queue_failed" error_code true)

-- A call whose exception is dropped.
abbrev pub ignore : Action (Unit {0}) → Action (Unit {0})
ignore m s = (ok tt, (m s).1)

-- The module's variables: `_queueUnavailable`, and whether `_queue` is set.
pub record Queues : Type 0 where
  pub plane : ControlPlane
  pub unavailable : Option String
  pub open_queue : Bool

abbrev pub QueueAction : Type 0 → Type 0
QueueAction A = Queues → Result A × Queues

abbrev pub on_plane : {A : Type 0} → Action A → QueueAction A
on_plane m q = let (r, s) = m q.plane in (r, record q { plane = s })

pub record Switches : Type 0 where
  pub provision_sync : Bool
  pub has_migration_url : Bool

abbrev pub can_provision_synchronously : Switches → Bool
can_provision_synchronously env = env.provision_sync || env.has_migration_url

module _ (env : Switches) (add : String → Result (Unit {0}))
    (stage : Payload → Stage → Action (Unit {0})) where
  -- `onStep` of the synchronous run.
  abbrev pub sync_step : Payload → String → Action (Unit {0})
  sync_step p current_step = do
    update_job_best_effort p.provisioning_job_id
        (record no_values { status = some "running"; current_step = some current_step })
    pure tt

  -- The `try` block.
  unfoldable pub sync_block : Payload → Action Enqueued
  sync_block p = do
    provision_tenant_schema (stage p) (sync_step p) p.tenant_id p.schema_name
    update_job_best_effort p.provisioning_job_id (record no_values {
      status = some "completed";
      current_step = some "active";
      finished = true;
    })
    pure sync

  -- The `catch` block.
  unfoldable pub sync_failed : Payload → Thrown → Action Enqueued
  sync_failed p error = do
    ignore (mark_tenant_provisioning_failed p.tenant_id)
    update_job_best_effort p.provisioning_job_id
        (failure_of error "failed" "failed" "PROVISIONING_FAILED" true)
    throw error

  unfoldable pub provision_synchronously : Payload → Action Enqueued
  provision_synchronously p = do
    update_job_best_effort p.provisioning_job_id (record no_values {
      status = some "running";
      current_step = some "starting";
      started = true;
      increment_attempt = true;
    })
    try_catch (sync_block p) (sync_failed p)

  unfoldable pub handle_failure_kind : FailureKind → Payload → Thrown → QueueAction Enqueued
  handle_failure_kind unsupported_version p error q =
      if can_provision_synchronously env
      then on_plane (provision_synchronously p) (record q { unavailable = some (message_of error) })
      else on_plane
          (do record_terminal_queue_failure p error "QUEUE_REDIS_UNSUPPORTED"; throw error) q
  handle_failure_kind transient p error q =
      let reset = record q { open_queue = false } in
      if can_provision_synchronously env
      then on_plane (provision_synchronously p) reset
      else on_plane (do record_retryable_queue_failure p error; throw error) reset
  handle_failure_kind fatal p error q =
      on_plane (do record_terminal_queue_failure p error "QUEUE_UNAVAILABLE"; throw error) q

  unfoldable pub handle_queue_add_failure : Payload → Thrown → QueueAction Enqueued
  handle_queue_add_failure p error q = handle_failure_kind (classify_queue_failure error) p error q

  -- From the outcome of `queue.add` on.
  unfoldable pub after_add : Payload → String → Result (Unit {0}) → QueueAction Enqueued
  after_add p id (ok _) = on_plane (do
    update_job_best_effort p.provisioning_job_id (record no_values {
      status = some "queued";
      current_step = some "queued";
      bullmq_job_id = some id;
    })
    pure (queued id))
  after_add p id (err error) = handle_queue_add_failure p error

  -- `tenant-provision-${payload.provisioningJobId}`
  abbrev pub bullmq_id : Option String → String
  bullmq_id none = "tenant-provision-undefined"
  bullmq_id (some id) = "tenant-provision-" ++ id

  unfoldable pub enqueue_tenant_provision : Payload → QueueAction Enqueued
  enqueue_tenant_provision p q =
      if not (truthy p.provisioning_job_id)
      then (err (other "provisioningJobId is required"), q)
      else if env.provision_sync || truthy q.unavailable
      then on_plane (provision_synchronously p) q
      else let id = bullmq_id p.provisioning_job_id in
        after_add p id (add id) (record q { open_queue = true })
