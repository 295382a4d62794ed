-- ===== src/Projects/UnitStatus/Steps.antt =====
-- What `changeUnitStatus` does with the row that it found.
use hippo_build_x.Prelude.{
  ◌≡◌, refl, ◌⊎◌, inl, inr, false, not, ◌&&◌, ◌||◌, truthy, Bool-cases, ◌==◌,
}
use hippo_build_x.Projects.UnitStatus.{UnitRow, Store, Request, Statements, write, change_from}

-- It leaves the tables as they are, or runs the two statements.
pub change_from-cases :
    (x : Statements) (r : Request) (u : UnitRow) (s : Store)
    → ((change_from x r u s).1 ≡ s)
      ⊎ (((u.status == r.to_status) ≡ false) × (change_from x r u s ≡ write x r u.status s))
unfolding change_from
change_from-cases x r u s = elim (Bool-cases (u.status == r.to_status)) [
  | inl same ↦ inl (rw same refl)
  | inr other ↦
      elim (Bool-cases (
        (u.status == "reserved" || u.status == "sold")
        && (r.to_status == "available" && not (truthy r.reason)))) [
          | inl unreasoned ↦ inl (rw (other, unreasoned) refl)
          | inr reasoned ↦ elim (Bool-cases (u.status == "sold" && r.to_status == "reserved")) [
            | inl reserving ↦ inl (rw (other, reasoned, reserving) refl)
            | inr free ↦ elim (Bool-cases (u.status == "sold" && r.to_status == "blocked")) [
              | inl blocking ↦ inl (rw (other, reasoned, free, blocking) refl)
              | inr fine ↦ inr (other, rw (other, reasoned, free, fine) refl)
            ]
          ]
        ]
]
