-- ===== src/Tenants/Presenter/Percent.antt =====
-- The progress bar of a provisioning.
use hippo_build_x.Prelude.{
  ℕ, suc, ◌+◌, ◌≤◌, ◌<◌, String, ◌≡◌, refl, inl, inr, ◌||◌, Option, none, some, List, [], ◌∷◌,
  length, Bool-cases, ◌==◌, arith,
}
use hippo_build_x.Tenants.Presenter.{setup_steps, index_from, percent_at, percent_of, setup_percent}

index_from-bounds :
    (i : ℕ) (steps : List String) (step : String) (k : ℕ)
    → index_from i steps step ≡ some k
    → (i ≤ k) × (k < i + length steps)
unfolding index_from
index_from-bounds i [] step k h = cc
index_from-bounds i (s ∷ steps) step k h = ground (arith, index_from-bounds (suc i) steps step k)

percent_at-bounds : (k : ℕ) → k < 8 → (8 ≤ percent_at k) × (percent_at k ≤ 100)
percent_at-bounds k h = (omega arith, omega arith)

percent_of-bounds :
    (found : Option ℕ) (status : String)
    → ((k : ℕ) → found ≡ some k → k < 8)
    → (5 ≤ percent_of found status) × (percent_of found status ≤ 100)
unfolding percent_of
percent_of-bounds none status h = elim (Bool-cases (status == "failed")) [
  | inl failed ↦ rw failed (omega arith, omega arith)
  | inr other ↦ rw other (omega arith, omega arith)
]
percent_of-bounds (some k) status h =
    let (low, high) = percent_at-bounds k (h k refl) in (omega (arith, low), high)

-- The progress that is shown is between 5 and 100, whatever the step and the status of the job, and a
-- later step of the list shows more than an earlier one.
pub setup_percent-bounds :
    (step status : String)
    → (5 ≤ setup_percent step status)
      × (setup_percent step status ≤ 100)
      × ((i j : ℕ) → i < j → percent_at i < percent_at j)
unfolding setup_percent
setup_percent-bounds step status = elim (Bool-cases (status == "completed" || step == "active")) [
  | inl over ↦ rw over (omega arith, omega arith, λ i j h. omega arith)
  | inr running ↦
      let (low, high) =
        percent_of-bounds (index_from 0 setup_steps step) status
          (λ k e. omega (arith, (index_from-bounds 0 setup_steps step k e).1)) in
      rw running (low, high, λ i j h. omega arith)
]
