-- ===== src/Projects/UnitRoute/Confined.antt =====
-- Which units a PATCH can change.
use hippo_build_x.Prelude.{
  String, ◌≡◌, refl, ap, ◌∙◌, inl, inr, Bool, true, false, not, Option, none, some, filter,
  filter-update, find, includes, or_null, Bool-cases, Option-cases, eq_iff, ◌==◌,
}
use hippo_build_x.Prelude.Effect.{ok, Result-cases}
use hippo_build_x.Rbac.Context.{Ctx}
use hippo_build_x.Rbac.Scope.{resolve_scope, grants_project}
use hippo_build_x.Projects.Access.{assert_project_access}
use hippo_build_x.Projects.ProjectRoute.Confined.{access-grants}
use hippo_build_x.Projects.UnitStatus.{
  UnitRow, Store, Request, Statements, unit_statuses, is_live, written, history_row, set_status,
  update_unit, insert_change, write, change_from, change_row, change_unit_status,
}
use hippo_build_x.Projects.UnitStatus.Steps.{change_from-cases}
use hippo_build_x.Projects.UnitRoute.{Body, request_of, patch_found, patch_unit}
use hippo_build_x.Projects.UnitRoute as UnitRoute

-- A change of status leaves the other units as they are.
module _ (p : UnitRow → Bool) (x : Statements) (r : Request) (s : Store)
    (apart : (u : UnitRow)
      → (u.id == r.unit_id) ≡ true
      → (p u ≡ false) × (p (written r s.now u) ≡ false)) where
  write-filter : (from : String) → filter p (write x r from s).1.units ≡ filter p s.units
  unfolding write update_unit insert_change
  write-filter from = elim (Option-cases (x.update_error r)) [
    | inr (_, failed) ↦ rw failed refl
    | inl updated ↦ elim (Option-cases (x.insert_error (history_row r from))) [
      | inr (_, threw) ↦ rw (updated, threw) unchanged
      | inl inserted ↦ rw (updated, inserted) unchanged
    ]
  ]
    where
      unchanged : filter p (set_status r s).units ≡ filter p s.units
      unchanged = filter-update p (λ v. v.id == r.unit_id) (written r s.now) s.units apart

  change_from-filter : (u : UnitRow) → filter p (change_from x r u s).1.units ≡ filter p s.units
  change_from-filter u = elim (change_from-cases x r u s) [
    | inl kept ↦ ap (λ s'. filter p s'.units) kept
    | inr (_, through) ↦ ap (λ out. filter p out.1.units) through ∙ write-filter u.status
  ]

  change_row-filter :
      (u : Option UnitRow) → filter p (change_row x r u s).1.units ≡ filter p s.units
  unfolding change_row
  change_row-filter none = refl
  change_row-filter (some u) = change_from-filter u

  change_unit_status-filter : filter p (change_unit_status x r s).1.units ≡ filter p s.units
  unfolding change_unit_status
  change_unit_status-filter = elim (Bool-cases (includes unit_statuses r.to_status)) [
    | inl known ↦ rw known (change_row-filter (find (is_live r.unit_id) s.units))
    | inr unknown ↦ rw unknown refl
  ]

module _ (project_of : String → String) (ctx : Ctx) where
  -- The units of the projects that a context may not open.
  abbrev pub closed_to : UnitRow → Bool
  closed_to u = not (grants_project (resolve_scope ctx) (project_of u.id))

  module _ (x : Statements) (tenant_id : String) (correlation_id : Option String) (id : String)
      (b : Body) where
    set_status-Confined :
        (status : Option String) (s : Store)
        → assert_project_access ctx (project_of id) ≡ ok tt
        → filter closed_to
            (UnitRoute.set_status project_of ctx x tenant_id correlation_id id b status s).1.units
          ≡ filter closed_to s.units
    set_status-Confined none s granted = refl
    set_status-Confined (some status) s granted =
        change_unit_status-filter closed_to x
          (request_of project_of ctx x tenant_id correlation_id id b status) s
          (λ u same. (own u same, own u same))
      where
        own : (u : UnitRow) → (u.id == id) ≡ true → closed_to u ≡ false
        own u same =
            ap (λ i. not (grants_project (resolve_scope ctx) (project_of i)))
              ((eq_iff u.id id).0 same)
            ∙ ap not (access-grants ctx (project_of id) granted)

    patch_found-Confined :
        (u : Option UnitRow) (s : Store)
        → filter closed_to (patch_found project_of ctx x tenant_id correlation_id id b u s).1.units
          ≡ filter closed_to s.units
    patch_found-Confined none s = refl
    patch_found-Confined (some u) s =
        elim (Result-cases (assert_project_access ctx (project_of id))) [
          | inr (_, refused) ↦ rw refused refl
          | inl (_, granted) ↦ rw granted (set_status-Confined (or_null b.status) s granted)
        ]

    -- A PATCH of a unit changes no unit of a project that its context may not open.
    pub patch_unit-Confined :
        (s : Store)
        → filter closed_to (patch_unit project_of ctx x tenant_id correlation_id id b s).1.units
          ≡ filter closed_to s.units
    unfolding patch_unit
    patch_unit-Confined s = patch_found-Confined (find (is_live id) s.units) s
