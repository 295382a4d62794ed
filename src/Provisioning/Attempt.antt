-- ===== src/Provisioning/Attempt.antt =====
-- apps/worker/src/provisioning-attempt.js. The counters of a BullMQ job are natural numbers or
-- absent.
pub mod Laws
use hippo_build_x.Prelude.{
  ℕ, zero, suc, ◌+◌, ◌-◌, max, String, Bool, true, false, Option, none, some, leb, if◌then◌else◌,
}

-- The fields of a BullMQ job that the function reads.
pub record BullJob : Type 0 where
  pub attempts : Option ℕ
  pub attempts_made : Option ℕ
  pub attempts_started : Option ℕ

-- `Number(value) || default`
abbrev pub number_or : Option ℕ → ℕ → ℕ
number_or none d = d
number_or (some zero) d = d
number_or (some (suc n)) d = suc n

pub record AttemptState : Type 0 where
  pub configured_attempts : ℕ
  pub attempt_number : ℕ
  pub remaining_attempts : ℕ
  pub is_final_attempt : Bool

unfoldable pub get_provisioning_attempt_state : BullJob → AttemptState
get_provisioning_attempt_state job =
    let configured_attempts = max 1 (number_or job.attempts 1) in
    let attempts_made = max 0 (number_or job.attempts_made 0) in
    let attempts_started = max 0 (number_or job.attempts_started 0) in
    let attempt_number = max attempts_started (attempts_made + 1) in
    record {
      configured_attempts = configured_attempts;
      attempt_number = attempt_number;
      remaining_attempts = max 0 (configured_attempts - attempt_number);
      is_final_attempt = leb configured_attempts attempt_number;
    }

pub record FailureTransition : Type 0 where
  pub attempt : AttemptState
  pub tenant_status : String
  pub data_location_status : String
  pub job_status : String
  pub current_step : String
  pub error_code : String
  pub error_message : String
  pub finished : Bool
  pub clear_finished : Bool

unfoldable pub get_provisioning_failure_transition : BullJob → String → FailureTransition
unfolding get_provisioning_attempt_state
get_provisioning_failure_transition job error_message =
    let attempt = get_provisioning_attempt_state job in
    if attempt.is_final_attempt
    then record {
      attempt = attempt;
      tenant_status = "failed";
      data_location_status = "attention_required";
      job_status = "failed";
      current_step = "failed";
      error_code = "PROVISIONING_FAILED";
      error_message = error_message;
      finished = true;
      clear_finished = false;
    }
    else record {
      attempt = attempt;
      tenant_status = "provisioning";
      data_location_status = "retrying";
      job_status = "retrying";
      current_step = "retrying";
      error_code = "PROVISIONING_RETRY";
      error_message = error_message;
      finished = false;
      clear_finished = true;
    }
