-- ===== src/Provisioning/Worker/Failure.antt =====
-- What a failed attempt leaves in the control plane, and a tenant that was active before.
use hippo_build_x.Prelude.{
  codes, ℕ, ◌≤◌, ◌<◌, String, ◌≡◌, ◌≢◌, refl, ◌⊎◌, inl, inr, Bool, true, false, Option, none, some,
  update, All, All-update, arith, leb, Bool-cases, if◌then◌else◌, ◌==◌, eq_iff,
}
use mathlib.Core.Path.{subst₂}
use hippo_build_x.Prelude.Effect.{err, Thrown}
use hippo_build_x.Provisioning.ControlPlane.{
  reliable, Job, ControlPlane, Action, update_job, message_of, slice_to,
}
use hippo_build_x.Provisioning.Attempt.{FailureTransition, get_provisioning_failure_transition}
use hippo_build_x.Provisioning.Attempt.Laws.{in_attempt, is_final-in_attempt}
use hippo_build_x.Db.Names.{is_safe_schema_name}
use hippo_build_x.Provisioning.Schema.{
  Stage, create_schema, assert_safe_schema_name, provision_tenant_schema,
}
use hippo_build_x.Provisioning.Worker.{
  ProvisionJob, set_job, update_provisioning_job, report_provisioning_step, report_job_state,
  attempt_block, failure_values, record_failure, handle_failure, try_attempt, begin_tenant,
  handle_provision_job, starting_values,
}

-- Every row of the tenant has the status and the data location.
abbrev pub TenantIs : String → String → String → ControlPlane → Type 0
TenantIs id status location s =
    All (λ t. (t.id ≢ id) ⊎ ((t.status ≡ status) × (t.data_location_status ≡ location))) s.tenants

-- Every row of the job has the status, the error code and the time of its end.
abbrev pub JobIs : String → String → String → Option ℕ → ControlPlane → Type 0
JobIs id status code finished_at s =
    All
      (λ j.
        (j.id ≢ id)
        ⊎ ((j.status ≡ status) × (j.error_code ≡ some code) × (j.finished_at ≡ finished_at)))
      s.jobs

-- A queue job for the row `id` of `provisioning_jobs`, in attempt `k` of `n`.
abbrev pub retried : ProvisionJob → String → ℕ → ℕ → ProvisionJob
retried job id n k = record job { provisioning_job_id = some id; bull = in_attempt n k }

module _ (progress : String → Action (Unit {0}))
    (stage : Stage → ProvisionJob → Action (Unit {0})) where
  record_failure-TenantIs :
      (failure : FailureTransition) (job : ProvisionJob) (id : String) (s : ControlPlane) (n k : ℕ)
      → id ≢ ""
      → TenantIs job.tenant_id failure.tenant_status failure.data_location_status
          (record_failure progress stage failure (retried job id n k) (reliable s))
  unfolding record_failure update_provisioning_job
  record_failure-TenantIs failure job id s n k ne = elim (Bool-cases (id == "")) [
    | inl blank ↦ absurd (ne ((eq_iff id "").0 blank))
    | inr given ↦
        rw (given, record_failure)
          (All-update (λ t. t.id) job.tenant_id
            (λ t. record t {
              status = failure.tenant_status;
              data_location_status = failure.data_location_status;
              updated_at = s.now;
            })
            (λ t.
              (t.status ≡ failure.tenant_status)
              × (t.data_location_status ≡ failure.data_location_status))
            s.tenants (λ t. (refl, refl)))
  ]

  record_failure-jobs :
      (failure : FailureTransition) (job : ProvisionJob) (id : String) (s : ControlPlane) (n k : ℕ)
      → id ≢ ""
      → (record_failure progress stage failure (retried job id n k) (reliable s)).jobs
        ≡ update (λ j. j.id == id) (set_job (failure_values progress stage failure) s.now) s.jobs
  unfolding record_failure update_provisioning_job
  record_failure-jobs failure job id s n k ne = elim (Bool-cases (id == "")) [
    | inl blank ↦ absurd (ne ((eq_iff id "").0 blank))
    | inr given ↦ rw (given, record_failure)
  ]

  transition-fields :
      (n k : ℕ) (message : String) (final : Bool)
      → 1 ≤ n
      → 1 ≤ k
      → leb n k ≡ final
      → let failure = get_provisioning_failure_transition (in_attempt n k) message in
        (failure.tenant_status ≡ (if final then "failed" else "provisioning"))
        × (failure.data_location_status ≡ (if final then "attention_required" else "retrying"))
  unfolding get_provisioning_failure_transition
  transition-fields n k message true h l e = rw (is_final-in_attempt n k h l, e) (refl, refl)
  transition-fields n k message false h l e = rw (is_final-in_attempt n k h l, e) (refl, refl)

  last_job :
      (n k : ℕ) (message : String) (now : ℕ) (j : Job)
      → 1 ≤ n
      → 1 ≤ k
      → leb n k ≡ true
      → let j' =
          set_job
            (failure_values progress stage
              (get_provisioning_failure_transition (in_attempt n k) message))
            now
            j in
        (j'.status ≡ "failed")
        × (j'.error_code ≡ some "PROVISIONING_FAILED")
        × (j'.finished_at ≡ some now)
  unfolding set_job get_provisioning_failure_transition
  last_job n k message now j h l e = rw (is_final-in_attempt n k h l, e) (refl, refl, refl)

  retried_job :
      (n k : ℕ) (message : String) (now : ℕ) (j : Job)
      → 1 ≤ n
      → 1 ≤ k
      → leb n k ≡ false
      → let j' =
          set_job
            (failure_values progress stage
              (get_provisioning_failure_transition (in_attempt n k) message))
            now
            j in
        (j'.status ≡ "retrying")
        × (j'.error_code ≡ some "PROVISIONING_RETRY")
        × (j'.finished_at ≡ none)
  unfolding set_job get_provisioning_failure_transition
  retried_job n k message now j h l e = rw (is_final-in_attempt n k h l, e) (refl, refl, refl)

  abbrev transition : ℕ → ℕ → Thrown → FailureTransition
  transition n k error =
      get_provisioning_failure_transition (in_attempt n k) (slice_to 2000 (message_of error))

  module _ (job : ProvisionJob) (id : String) (n k : ℕ) (error : Thrown) (s : ControlPlane)
      (ne : id ≢ "") (positive : 1 ≤ n) (started : 1 ≤ k) where
    abbrev after : ControlPlane
    after = (handle_failure progress stage (retried job id n k) error (reliable s)).1

    tenant_after :
        TenantIs job.tenant_id
          (transition n k error).tenant_status
          (transition n k error).data_location_status
          after
    unfolding handle_failure
    tenant_after = record_failure-TenantIs (transition n k error) job id s n k ne

    jobs_after :
        after.jobs
        ≡ update
            (λ j. j.id == id)
            (set_job (failure_values progress stage (transition n k error)) s.now)
            s.jobs
    unfolding handle_failure
    jobs_after = record_failure-jobs (transition n k error) job id s n k ne

    job_after :
        (status code : String) (ended : Option ℕ)
        → ((j : Job)
            → let j' = set_job (failure_values progress stage (transition n k error)) s.now j in
              (j'.status ≡ status) × (j'.error_code ≡ some code) × (j'.finished_at ≡ ended))
        → JobIs id status code ended after
    job_after status code ended each = rw jobs_after (
        All-update (λ j. j.id) id
          (set_job (failure_values progress stage (transition n k error)) s.now)
          (λ j. (j.status ≡ status) × (j.error_code ≡ some code) × (j.finished_at ≡ ended)) s.jobs
          each)

    -- The `catch` block in the last of `n` attempts or later, where its updates succeed: every row
    -- of the tenant is marked failed and every row of the job failed and finished.
    pub handle_failure-last :
        n ≤ k
        → TenantIs job.tenant_id "failed" "attention_required" after
          × JobIs id "failed" "PROVISIONING_FAILED" (some s.now) after
    handle_failure-last le =
        let last : leb n k ≡ true = ground arith in
        (
          let (a, b) =
                transition-fields n k (slice_to 2000 (message_of error)) true positive started
                  last in
              subst₂ (λ x y. TenantIs job.tenant_id x y after) a b tenant_after,
          job_after "failed" "PROVISIONING_FAILED" (some s.now)
              (λ j. last_job n k (slice_to 2000 (message_of error)) s.now j positive started last),
        )

    -- The `catch` block before the last attempt, where its updates succeed: every row of the tenant
    -- and of the job is marked for a retry, and the job has no end.
    pub handle_failure-retried :
        k < n
        → TenantIs job.tenant_id "provisioning" "retrying" after
          × JobIs id "retrying" "PROVISIONING_RETRY" none after
    handle_failure-retried lt =
        let more : leb n k ≡ false = ground arith in
        (
          let (a, b) =
                transition-fields n k (slice_to 2000 (message_of error)) false positive started
                  more in
              subst₂ (λ x y. TenantIs job.tenant_id x y after) a b tenant_after,
          job_after "retrying" "PROVISIONING_RETRY" none (λ j.
              retried_job n k (slice_to 2000 (message_of error)) s.now j positive started more),
        )

  module _ (job : ProvisionJob) (id : String) (n k : ℕ) (error : Thrown)
      (safe : is_safe_schema_name (codes job.schema_name) ≡ true)
      (fails : (s : ControlPlane)
        → stage create_schema (retried job id n k) s ≡ (err error, s)) where
    block_fails :
        (s : ControlPlane) → attempt_block progress stage (retried job id n k) s ≡ (err error, s)
    unfolding attempt_block provision_tenant_schema assert_safe_schema_name
    block_fails s = rw safe (rw (fails s))

    attempt_fails :
        (s : ControlPlane)
        → try_attempt progress stage (retried job id n k) s
          ≡ handle_failure progress stage (retried job id n k) error s
    unfolding try_attempt
    attempt_fails s = rw (block_fails s)

    -- The state in which the handler begins the attempt.
    abbrev begun : ControlPlane → ControlPlane
    begun s =
        update_job id (set_job starting_values s.now)
          ((begin_tenant progress stage (retried job id n k) (reliable s)).1)

    handler_fails :
        (s : ControlPlane)
        → id ≢ ""
        → handle_provision_job progress stage (retried job id n k) (reliable s)
          ≡ handle_failure progress stage (retried job id n k) error (reliable (begun s))
    unfolding handle_provision_job report_job_state report_provisioning_step update_provisioning_job
    handler_fails s ne = elim (Bool-cases (id == "")) [
      | inl blank ↦ absurd (ne ((eq_iff id "").0 blank))
      | inr given ↦ rw (given, update_provisioning_job) (attempt_fails (begun s))
    ]

    -- For a safe schema name: if the statement of the first stage fails in the last attempt or later, and all others
    -- succeed, then every row of the tenant ends as failed, also a row that was active before: the
    -- UPDATE that opens the handler spares active tenants, and the one after a failure does not.
    pub handle_provision_job-demotes :
        (s : ControlPlane)
        → id ≢ ""
        → 1 ≤ n
        → n ≤ k
        → TenantIs job.tenant_id "failed" "attention_required"
            (handle_provision_job progress stage (retried job id n k) (reliable s)).1
    handle_provision_job-demotes s ne positive le =
        rw (handler_fails s ne)
          (handle_failure-last job id n k error (begun s) ne positive (omega arith) le).0
