-- ===== src/Provisioning/Attempt/Laws.antt =====
-- Which attempt of a provisioning job is the last.
use hippo_build_x.Prelude.{
  ℕ, zero, suc, ◌-◌, ◌≤◌, ◌<◌, String, ◌≡◌, ◌↔◌, true, some, arith, refl, inl, inr, leb, Bool-cases,
  eq_iff,
}
use mathlib.Core.Bool.{false≢true}
use hippo_build_x.Provisioning.Attempt.{
  BullJob, number_or, get_provisioning_attempt_state, get_provisioning_failure_transition,
}

-- A job that was configured for `n` attempts and is in attempt `k`, as BullMQ counts them.
abbrev pub in_attempt : ℕ → ℕ → BullJob
in_attempt n k = record {
  attempts = some n;
  attempts_made = some (k - 1);
  attempts_started = some k;
}

-- Whatever the counters: the attempt has a number from 1 on, the attempts that remain are those
-- configured beyond it, and it is the final one exactly when none remains.
pub attempt_state_bounds :
    (job : BullJob)
    → let state = get_provisioning_attempt_state job in
      (1 ≤ state.configured_attempts)
      × (1 ≤ state.attempt_number)
      × (state.remaining_attempts ≡ state.configured_attempts - state.attempt_number)
      × ((state.is_final_attempt ≡ true) ↔ (state.remaining_attempts ≡ 0))
unfolding get_provisioning_attempt_state
attempt_state_bounds job = ground arith

pub number_or_pos : (n d : ℕ) → 1 ≤ n → number_or (some n) d ≡ n
number_or_pos zero d h = elim h [ ]
number_or_pos (suc n) d h = refl

number_or_zero : (n : ℕ) → number_or (some n) 0 ≡ n
number_or_zero zero = refl
number_or_zero (suc n) = refl

pub is_final-in_attempt :
    (n k : ℕ)
    → 1 ≤ n
    → 1 ≤ k
    → (get_provisioning_attempt_state (in_attempt n k)).is_final_attempt ≡ leb n k
unfolding get_provisioning_attempt_state
is_final-in_attempt n k h l =
    rw (number_or_pos n 1 h, number_or_zero k, number_or_zero (k - 1)) (ground arith)

-- In attempt `k` of `n`: the failure is terminal for the tenant and its job exactly when `k` is `n`
-- or later, and otherwise both are left to be retried.
pub failure_transition-in_attempt :
    (n k : ℕ) (message : String)
    → 1 ≤ n
    → 1 ≤ k
    → let failure = get_provisioning_failure_transition (in_attempt n k) message in
      ((failure.tenant_status ≡ "failed") ↔ (n ≤ k))
      × ((failure.tenant_status ≡ "provisioning") ↔ (k < n))
      × ((failure.finished ≡ true) ↔ (n ≤ k))
      × ((failure.clear_finished ≡ true) ↔ (k < n))
unfolding get_provisioning_failure_transition
failure_transition-in_attempt n k message h l = elim (Bool-cases (leb n k)) [
  | inl last ↦
      rw (is_final-in_attempt n k h l, last)
        (
          (λ _. ground arith, λ _. refl),
          (λ e. absurd (false≢true ((eq_iff _ _).1 e)), λ m. ground arith),
          (λ _. ground arith, λ _. refl),
          (λ e. cc, λ m. ground arith),
        )
  | inr more ↦
      rw (is_final-in_attempt n k h l, more)
        (
          (λ e. absurd (false≢true ((eq_iff _ _).1 e)), λ m. ground arith),
          (λ _. ground arith, λ _. refl),
          (λ e. cc, λ m. ground arith),
          (λ _. ground arith, λ _. refl),
        )
]
