-- ===== src/Provisioning/Worker.antt =====
-- apps/worker/src/main.js, the handler of the queue `tenant.provision`, with
-- apps/worker/src/provisioning-progress.js. The work of the stages before the activation is a
-- parameter, `stage`; `progress` is `job.updateProgress`. Log lines are left out.
pub mod Outcome
pub mod Failure
use hippo_build_x.Prelude.{
  ℕ, suc, ◌+◌, String, Bool, true, false, not, ◌&&◌, Option, none, some, List, [], ◌∷◌, ltb, truthy,
  or_null, if◌then◌else◌, ◌==◌,
}
use hippo_build_x.Prelude.Effect.{Result, ok, err, Thrown, ◌>>=◌, ◌>>◌, pure, throw, try_catch}
use hippo_build_x.Provisioning.ControlPlane.{
  Tenant, Job, ControlPlane, Action, exec, update_tenant, update_job, coalesce, JobValues,
  no_values, message_of, slice_to,
}
use hippo_build_x.Provisioning.Schema.{Stage, provision_tenant_schema}
use hippo_build_x.Provisioning.Attempt.{
  BullJob, AttemptState, FailureTransition, get_provisioning_attempt_state,
  get_provisioning_failure_transition,
}

-- `job.data` and the counters of the job.
pub record ProvisionJob : Type 0 where
  pub tenant_id : String
  pub schema_name : String
  pub provisioning_job_id : Option String
  pub bull : BullJob

-- The row that `updateProvisioningJob` writes.
unfoldable pub set_job : JobValues → ℕ → Job → Job
set_job v now j = record j {
  status = coalesce (or_null v.status) j.status;
  current_step = coalesce (or_null v.current_step) j.current_step;
  error_code = or_null v.error_code;
  error_message = or_null v.error_message;
  started_at =
      if v.started then elim j.started_at [ none ↦ some now | some t ↦ some t ] else j.started_at;
  finished_at = if v.finished then some now else if v.clear_finished then none else j.finished_at;
  attempt_count = j.attempt_count + (if v.increment_attempt then 1 else 0);
  updated_at = now;
}

-- `if (!jobId) return;` and the UPDATE.
unfoldable pub update_provisioning_job : Option String → JobValues → Action (Unit {0})
unfolding set_job
update_provisioning_job none values s = (ok tt, s)
update_provisioning_job (some id) values s =
    if id == "" then (ok tt, s) else exec (update_job id (set_job values s.now)) s

abbrev pub starting_values : JobValues
starting_values = record no_values {
  status = some "running";
  current_step = some "starting";
  started = true;
  clear_finished = true;
  increment_attempt = true;
}

abbrev pub completed_values : JobValues
completed_values = record no_values {
  status = some "completed";
  current_step = some "active";
  finished = true;
}

-- `{ durableRecorded, progressRecorded }`
pub record Reported : Type 0 where
  pub durable_recorded : Bool
  pub progress_recorded : Bool

abbrev pub caught : Result (Unit {0}) → Bool
caught (ok _) = true
caught (err _) = false

-- `reportProvisioningStep`: both updates are tried, and what they throw is caught.
unfoldable pub report_provisioning_step : Action (Unit {0}) → Action (Unit {0}) → Action Reported
report_provisioning_step update_durable_state update_progress s =
    let (durable, s1) = update_durable_state s in
    let (progress, s2) = update_progress s1 in
    (ok (record { durable_recorded = caught durable; progress_recorded = caught progress }), s2)

module _ (progress : String → Action (Unit {0}))
    (stage : Stage → ProvisionJob → Action (Unit {0})) where
  unfoldable pub report_job_state : ProvisionJob → String → JobValues → Bool → Action Reported
  unfolding report_provisioning_step update_provisioning_job
  report_job_state job current_step values include_bullmq_progress =
      report_provisioning_step (update_provisioning_job job.provisioning_job_id values)
        (if include_bullmq_progress then progress current_step else pure tt)

  -- The `onStep` that the handler passes.
  unfoldable pub on_step : ProvisionJob → String → Action Reported
  unfolding report_job_state
  on_step job current_step =
      report_job_state job current_step
        (record no_values { status = some "running"; current_step = some current_step }) true

  -- `onStep` of the handler, whose result is not used.
  abbrev pub step : ProvisionJob → String → Action (Unit {0})
  step job current_step = do on_step job current_step; pure tt

  -- The `try` block.
  unfoldable pub attempt_block : ProvisionJob → Action (Unit {0})
  unfolding report_job_state
  attempt_block job = do
    provision_tenant_schema (λ which. stage which job) (step job) job.tenant_id job.schema_name
    report_job_state job "active" completed_values false
    pure tt

  -- The row that the `catch` block writes into `tenants`.
  abbrev pub fail_tenant : FailureTransition → ProvisionJob → Action (Unit {0})
  fail_tenant failure job s =
      exec
        (update_tenant (λ t. t.id == job.tenant_id)
          (λ t. record t {
            status = failure.tenant_status;
            data_location_status = failure.data_location_status;
            updated_at = s.now;
          }))
        s

  abbrev pub failure_values : FailureTransition → JobValues
  failure_values failure = record no_values {
    status = some failure.job_status;
    current_step = some failure.current_step;
    error_code = some failure.error_code;
    error_message = some failure.error_message;
    finished = failure.finished;
    clear_finished = failure.clear_finished;
  }

  -- The two updates of the `catch` block: what they throw is caught.
  unfoldable pub record_failure : FailureTransition → ProvisionJob → ControlPlane → ControlPlane
  unfolding update_provisioning_job
  record_failure failure job s =
      let (_, s1) = fail_tenant failure job s in
      let (_, s2) = update_provisioning_job job.provisioning_job_id (failure_values failure) s1 in
      s2

  -- The `catch` block, which throws the error again.
  unfoldable pub handle_failure : ProvisionJob → Thrown → Action (Unit {0})
  handle_failure job error s =
      let message = slice_to 2000 (message_of error) in
      (err error, record_failure (get_provisioning_failure_transition job.bull message) job s)

  -- `try { … } catch (error) { … }`
  unfoldable pub try_attempt : ProvisionJob → Action (Unit {0})
  try_attempt job = try_catch (attempt_block job) (handle_failure job)

  -- The UPDATE that opens the handler.
  abbrev pub begin_tenant : ProvisionJob → Action (Unit {0})
  begin_tenant job s =
      let attempt = get_provisioning_attempt_state job.bull in
      exec
        (update_tenant (λ t. t.id == job.tenant_id && not (t.status == "active"))
          (λ t. record t {
            status = "provisioning";
            data_location_status =
                if ltb 1 attempt.attempt_number then "retrying" else "provisioning";
            updated_at = s.now;
          }))
        s

  unfoldable pub handle_provision_job : ProvisionJob → Action (Unit {0})
  unfolding report_job_state try_attempt get_provisioning_attempt_state
  handle_provision_job job = do
    begin_tenant job
    report_job_state job "starting" starting_values false
    try_attempt job
