-- ===== src/Projects/Dependencies/Cycles.antt =====
-- What `assertNoDependencyCycle` guarantees to the route that inserts the dependency.
use hippo_build_x.Prelude.{
  String, ◌≡◌, ◌≢◌, refl, sym, subst, ap, ◌∙◌, ◌↔◌, ◌⊎◌, inl, inr, List, [], ◌∷◌, Bool-cases,
  eq_iff, ◌==◌,
}
use mathlib.Core.Bool.{false≢true}
use hippo_build_x.Prelude.Effect.{Result, ok, err, app, other}
use hippo_build_x.Shared.Errors.{validation}
use hippo_build_x.Projects.Dependencies.{
  Edge, Outcome, cycle, no_cycle, out_of_fuel, search, fuel_for, outcome_result, with_new,
  assert_no_dependency_cycle,
}
use hippo_build_x.Projects.Dependencies.Graph.{Links, Reach, here, step, Cyclic, targets-with_new}
use hippo_build_x.Projects.Dependencies.Search.{search_terminates, search_decides}

Reach-trans : {es : List Edge} {u v w : String} → Reach es u v → Reach es v w → Reach es u w
Reach-trans p here = p
Reach-trans p (step q l) = step (Reach-trans p q) l

module _ (es : List Edge) (p s : String) where
  abbrev pub new : List Edge
  new = record { predecessor_id = p; successor_id = s } ∷ es

  -- A walk with the new edge is a walk without it, or passes through the new edge.
  split : {u v : String} → Reach new u v → Reach es u v ⊎ (Reach new u p × Reach new s v)
  split here = inl here
  split {u} (step {v} {w} r (inl (e, f))) = inr (subst (Reach new u) (sym e) r, rw f here)
  split (step r (inr l)) = elim (split r) [
    | inl old ↦ inl (step old l)
    | inr (a, b) ↦ inr (a, step b (inr l))
  ]

  -- The first visit to the predecessor needs no edge out of it.
  drop_new : {v : String} → Reach new s v → Reach es s v ⊎ Reach es s p
  drop_new here = inl here
  drop_new (step {v} {w} r (inl (e, f))) = elim (drop_new r) [
    | inl old ↦ inr (rw e old)
    | inr done ↦ inr done
  ]
  drop_new (step r (inr l)) = elim (drop_new r) [ inl old ↦ inl (step old l) | inr done ↦ inr done ]

  no_self : Reach new s p → Reach es s p
  no_self r = elim (drop_new r) [ inl a ↦ a | inr a ↦ a ]

  keep : {u v : String} → Reach es u v → Reach new u v
  keep here = here
  keep (step r l) = step (keep r) (inr l)

  no_new_cycle : ¬ Reach es s p → ¬ Cyclic es → ¬ Cyclic new
  no_new_cycle nr nc (u, v, inl (e, f), r) =
      nr (no_self (subst (λ x. Reach new x p) (sym f) (subst (Reach new v) (sym e) r)))
  no_new_cycle nr nc (u, v, inr l, r) = elim (split r) [
    | inl old ↦ nc (u, v, l, old)
    | inr (a, b) ↦ nr (no_self (Reach-trans b (step' l a)))
  ]
    where
      step' : Links es u v → Reach new v p → Reach new u p
      step' l a = Reach-trans (step here (inr l)) a

abbrev message_of : Result (Unit {0}) → String
message_of (ok _) = ""
message_of (err (app _ message _)) = message
message_of (err (other message)) = message

Outcome-cases : (o : Outcome) → (o ≡ cycle) ⊎ (o ≡ no_cycle) ⊎ (o ≡ out_of_fuel)
Outcome-cases cycle = inl refl
Outcome-cases no_cycle = inr (inl refl)
Outcome-cases out_of_fuel = inr (inr refl)

module _ (es : List Edge) (p s : String) where
  abbrev run : Outcome
  run = search (with_new es p s) p (fuel_for (with_new es p s)) [] (s ∷ [])

  run_decides : ((run ≡ cycle) × Reach es s p) ⊎ ((run ≡ no_cycle) × ¬ Reach es s p)
  run_decides =
      let says = search_decides (with_new es p s) (new es p s) (targets-with_new es p s) s p in
      elim (Outcome-cases run) [
        | inl found ↦ inl (found, no_self es p s (says.0 found))
        | inr (inl none_found) ↦ inr (none_found, λ r. says.1 none_found (keep es p s r))
        | inr (inr stuck) ↦ absurd (search_terminates (with_new es p s) p s stuck)
      ]

  assert-same :
      p ≡ s → assert_no_dependency_cycle es p s ≡ err (validation "Task cannot depend on itself")
  unfolding assert_no_dependency_cycle
  assert-same e = rw ((eq_iff p s).1 e)

  assert-differs : p ≢ s → assert_no_dependency_cycle es p s ≡ outcome_result run
  unfolding assert_no_dependency_cycle
  assert-differs ne = elim (Bool-cases (p == s)) [
    | inl same ↦ absurd (ne ((eq_iff p s).0 same))
    | inr differs ↦ rw differs
  ]

  abbrev refusal : String → Result (Unit {0})
  refusal message = err (validation message)

  abbrev Cases : Type 0
  Cases =
      ((p ≡ s) × (assert_no_dependency_cycle es p s ≡ refusal "Task cannot depend on itself"))
      ⊎ ((p ≢ s)
          × Reach es s p
          × (assert_no_dependency_cycle es p s ≡ refusal "Task dependency would create a cycle"))
      ⊎ ((p ≢ s) × (¬ Reach es s p) × (assert_no_dependency_cycle es p s ≡ ok tt))

  assert-cases : Cases
  unfolding outcome_result
  assert-cases = elim (Bool-cases (p == s)) [
    | inl same ↦ let e = (eq_iff p s).0 same in inl (e, assert-same e)
    | inr differs ↦
        let ne = λ (e : p ≡ s). absurd (false≢true (sym differs ∙ (eq_iff p s).1 e)) in
        elim run_decides [
          | inl (found, r) ↦ inr (inl (ne, r, assert-differs ne ∙ ap outcome_result found))
          | inr (none_found, n) ↦
              inr (inr (ne, n, assert-differs ne ∙ ap outcome_result none_found))
        ]
  ]

  distinct : refusal "Task cannot depend on itself" ≢ refusal "Task dependency would create a cycle"
  distinct h = absurd (false≢true ((eq_iff _ _).1 (ap message_of h)))

  -- For any dependencies of the project: the check passes exactly when the two tasks differ and no
  -- dependencies lead from the successor to the predecessor; it reports a cycle exactly when the
  -- tasks differ and some do.
  pub assert_no_dependency_cycle_lem :
      ((assert_no_dependency_cycle es p s ≡ ok tt) ↔ ((p ≢ s) × ¬ Reach es s p))
      × ((assert_no_dependency_cycle es p s
            ≡ err (validation "Task dependency would create a cycle"))
          ↔ ((p ≢ s) × Reach es s p))
  assert_no_dependency_cycle_lem = elim assert-cases [
    | inl (e, a) ↦
        ((λ h. cc, λ k. absurd (k.0 e)), (λ h. absurd (distinct (sym a ∙ h)), λ k. absurd (k.0 e)))
    | inr (inl (ne, r, a)) ↦ ((λ h. cc, λ k. absurd (k.1 r)), (λ h. (ne, r), λ k. a))
    | inr (inr (ne, n, a)) ↦ ((λ h. (ne, n), λ k. a), (λ h. cc, λ k. absurd (n k.1)))
  ]

  -- If the dependencies have no cycle and the check passes, they have none with the new one added.
  pub assert_no_dependency_cycle-preserves :
      ¬ Cyclic es → assert_no_dependency_cycle es p s ≡ ok tt → ¬ Cyclic (new es p s)
  assert_no_dependency_cycle-preserves nc h =
      no_new_cycle es p s (assert_no_dependency_cycle_lem.0.0 h).1 nc
