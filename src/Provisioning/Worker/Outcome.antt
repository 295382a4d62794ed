-- ===== src/Provisioning/Worker/Outcome.antt =====
-- What a run of the provisioning handler leaves in the control plane.
use hippo_build_x.Prelude.{
  String, refl, ◌∙◌, inl, inr, Bool, true, false, Option, none, some, Bool-cases, ◌==◌,
}
use hippo_build_x.Prelude.Effect.{Ensures, Ensures->>, Ensures-of_ok, Ensures-catch, ◌>>◌, pure}
use hippo_build_x.Provisioning.ControlPlane.{ControlPlane, Action, JobValues}
use hippo_build_x.Provisioning.Schema.{Stage, provision_tenant_schema}
use hippo_build_x.Provisioning.Schema.Ready.{
  IsReady, KeepsTenants, exec_on-update_job, then_pure-KeepsTenants, keeps_ready,
  provision_tenant_schema-IsReady,
}
use hippo_build_x.Provisioning.Worker.{
  ProvisionJob, step, set_job, update_provisioning_job, Reported, report_provisioning_step,
  report_job_state, on_step, attempt_block, handle_failure, try_attempt, begin_tenant,
  handle_provision_job, starting_values, completed_values,
}

update_provisioning_job-KeepsTenants :
    (id : Option String) (values : JobValues) → KeepsTenants (update_provisioning_job id values)
unfolding update_provisioning_job
update_provisioning_job-KeepsTenants none values s = refl
update_provisioning_job-KeepsTenants (some id) values s = elim (Bool-cases (id == "")) [
  | inl blank ↦ rw blank
  | inr given ↦ rw given (exec_on-update_job s.faults id (set_job values s.now) s)
]

module _ (progress : String → Action (Unit {0})) (stage : Stage → ProvisionJob → Action (Unit {0}))
    (progress_keeps : (step : String) → KeepsTenants (progress step)) where
  report_job_state-KeepsTenants :
      (job : ProvisionJob) (step : String) (values : JobValues) (bull : Bool)
      → KeepsTenants (report_job_state progress stage job step values bull)
  unfolding report_job_state report_provisioning_step
  report_job_state-KeepsTenants job step values true s =
      progress_keeps step (update_provisioning_job job.provisioning_job_id values s).1
      ∙ update_provisioning_job-KeepsTenants job.provisioning_job_id values s
  report_job_state-KeepsTenants job step values false s =
      update_provisioning_job-KeepsTenants job.provisioning_job_id values s

  on_step-KeepsTenants :
      (job : ProvisionJob) (step : String) → KeepsTenants (on_step progress stage job step)
  unfolding on_step
  on_step-KeepsTenants job step s = report_job_state-KeepsTenants job step _ true s

  try_attempt-IsReady :
      (job : ProvisionJob) (s : ControlPlane)
      → Ensures (IsReady job.tenant_id) (try_attempt progress stage job s)
  unfolding try_attempt handle_failure attempt_block
  try_attempt-IsReady job s =
      Ensures-catch P (handle_failure progress stage job) (attempt_block progress stage job s)
        (Ensures->> P block (report >> pure tt) s (λ a s' e.
          keeps_ready job.tenant_id (report >> pure tt) s'
            (then_pure-KeepsTenants report
              (report_job_state-KeepsTenants job "active" completed_values false))
            (Ensures-of_ok P _ a s'
              (provision_tenant_schema-IsReady (λ which. stage which job) (step progress stage job)
                (λ current_step.
                  then_pure-KeepsTenants (on_step progress stage job current_step)
                    (on_step-KeepsTenants job current_step))
                job.tenant_id job.schema_name s)
              e)))
        (λ e s'. tt)
    where
      P : ControlPlane → Type 0
      P = IsReady job.tenant_id

      block : Action (Unit {0})
      block =
          provision_tenant_schema (λ which. stage which job) (step progress stage job) job.tenant_id
            job.schema_name

      report : Action Reported
      report = report_job_state progress stage job "active" completed_values false

  -- If the handler returns, the tenant is active and its data location ready, whatever statements
  -- failed on the way in the reports of the steps.
  pub handle_provision_job-IsReady :
      (job : ProvisionJob) (s : ControlPlane)
      → Ensures (IsReady job.tenant_id) (handle_provision_job progress stage job s)
  unfolding handle_provision_job
  handle_provision_job-IsReady job s =
      Ensures->> (IsReady job.tenant_id) (begin_tenant progress stage job)
        (report >> try_attempt progress stage job) s
        (λ _ s1 _.
          Ensures->> (IsReady job.tenant_id) report (try_attempt progress stage job) s1
            (λ _ s2 _. try_attempt-IsReady job s2))
    where
      report : Action Reported
      report = report_job_state progress stage job "starting" starting_values false
