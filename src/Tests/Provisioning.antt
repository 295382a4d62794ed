-- ===== src/Tests/Provisioning.antt =====
-- The provisioning worker on concrete jobs.
mod Queue
mod Migrations
use hippo_build_x.Prelude.{
  codes, ◌-◌, ◌≤◌, ◌<◌, String, ◌≡◌, ◌≢◌, refl, ◌↔◌, inr, true, false, none, some, [], ◌∷◌, arith,
  eq_iff,
}
use mathlib.Core.Bool.{false≢true}
use hippo_build_x.Prelude.Effect.{Result, ok, err, other, Ensures, pure}
use hippo_build_x.Provisioning.ControlPlane.{reliable, ControlPlane, Tenant, Job, Action}
use hippo_build_x.Provisioning.Attempt.{
  get_provisioning_attempt_state, get_provisioning_failure_transition,
}
use hippo_build_x.Provisioning.Attempt.Laws.{
  in_attempt, attempt_state_bounds, failure_transition-in_attempt,
}
use hippo_build_x.Db.Names.{is_safe_schema_name}
use hippo_build_x.Provisioning.Schema.{Stage, provision_tenant_schema, assert_safe_schema_name}
use hippo_build_x.Provisioning.Worker.{
  ProvisionJob, handle_failure, handle_provision_job, attempt_block, try_attempt,
}
use hippo_build_x.Provisioning.Schema.Ready.{IsReady}
use hippo_build_x.Provisioning.Worker.Outcome.{handle_provision_job-IsReady}
use hippo_build_x.Provisioning.Worker.Failure.{
  TenantIs, JobIs, retried, handle_failure-last, handle_failure-retried,
  handle_provision_job-demotes,
}

abbrev tenant : String → Tenant
tenant status = record {
  id = "t1";
  name = "Green";
  slug = "green";
  schema_name = "tenant_1";
  status = status;
  data_location_status = "ready";
  updated_at = 0;
  deleted = false;
}

abbrev job_row : Job
job_row = record {
  id = "j1";
  tenant_id = "t1";
  idempotency_key = "tenant-create:green";
  requested_by = none;
  status = "queued";
  current_step = "queued";
  bullmq_job_id = none;
  error_code = none;
  error_message = none;
  started_at = none;
  finished_at = none;
  attempt_count = 0;
  updated_at = 0;
}

-- The second statement, the report of the start, fails.
abbrev plane : String → ControlPlane
plane status = record {
  tenants = tenant status ∷ [];
  jobs = job_row ∷ [];
  now = 7;
  faults = none ∷ some "connection lost" ∷ [];
}

abbrev queued_job : ProvisionJob
queued_job = record {
  tenant_id = "t1";
  schema_name = "tenant_1";
  provisioning_job_id = some "j1";
  bull = in_attempt 3 1;
}

abbrev no_progress : String → Action (Unit {0})
no_progress step = pure tt

abbrev all_stages : Stage → ProvisionJob → Action (Unit {0})
all_stages which job = pure tt

abbrev no_stage : Stage → ProvisionJob → Action (Unit {0})
no_stage which job s = (err (other "disk full"), s)

abbrev whole_run : Result (Unit {0}) × ControlPlane
whole_run = handle_provision_job no_progress all_stages queued_job (plane "provisioning")

run : (whole_run.0 ≡ ok tt) × IsReady "t1" whole_run.1
unfolding handle_provision_job try_attempt attempt_block provision_tenant_schema
    assert_safe_schema_name is_safe_schema_name hippo_build_x.Provisioning.Worker.on_step
run = (refl, (inr (refl, refl), tt))

handle_provision_job-IsReady_example :
    Ensures
      (IsReady "t1")
      (handle_provision_job no_progress all_stages queued_job (plane "provisioning"))
handle_provision_job-IsReady_example =
    handle_provision_job-IsReady no_progress all_stages (λ step s. refl) queued_job
      (plane "provisioning")

named : ◌≢◌ {A = String} "j1" ""
named h = absurd (false≢true ((eq_iff "j1" "").1 h))

safe : is_safe_schema_name (codes "tenant_1") ≡ true
unfolding is_safe_schema_name
safe = refl

handle_provision_job-demotes_example :
    TenantIs "t1" "failed" "attention_required"
      (handle_provision_job no_progress no_stage
        (retried queued_job "j1" 3 3)
        (reliable (plane "active"))).1
handle_provision_job-demotes_example =
    handle_provision_job-demotes no_progress no_stage queued_job "j1" 3 3 (other "disk full") safe
      (λ s. refl) (plane "active") named (omega arith) (omega arith)
