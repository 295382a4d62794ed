-- ===== src/Projects/SubRoutes/Confined.antt =====
-- Whose rows a POST can change.
use hippo_build_x.Prelude.{
  String, ◌≡◌, refl, inl, inr, Bool, false, List, [], ◌∷◌, ◌++◌, filter, Bool-cases, not,
}
use hippo_build_x.Prelude.Effect.{Result, Result-cases}
use hippo_build_x.Rbac.Context.{Ctx}
use hippo_build_x.Rbac.Scope.{resolve_scope, grants_project}
use hippo_build_x.Projects.Access.{assert_project_access}
use hippo_build_x.Projects.ProjectRoute.Confined.{access-grants}
use hippo_build_x.Admin.Channels.Json.{Fields}
use hippo_build_x.Projects.SubRoutes.{SubRow, new_row, insert_row, post_row}

-- The rows of projects that a context may not open.
abbrev closed_to : Ctx → SubRow → Bool
closed_to ctx r = not (grants_project (resolve_scope ctx) r.project_id)

append-filtered :
    {A : Type 0} (p : A → Bool) (xs : List A) (x : A)
    → p x ≡ false
    → filter p (xs ++ x ∷ []) ≡ filter p xs
append-filtered p [] x h = rw h refl
append-filtered p (y ∷ ys) x h = elim (Bool-cases (p y)) [
  | inl kept ↦ rw kept (rw (append-filtered p ys x h) refl)
  | inr left ↦ rw left (append-filtered p ys x h)
]

module _ (admits : SubRow → List SubRow → Bool) (ctx : Ctx)
    (tenant_id row_id project_id : String) where
  -- A POST changes no row of a project that its context may not open.
  pub post_row-Confined :
      (columns_of : Fields → Result Fields) (body : Fields) (rows : List SubRow)
      → filter
          (closed_to ctx)
          (post_row admits ctx tenant_id row_id project_id columns_of body rows).1
        ≡ filter (closed_to ctx) rows
  unfolding post_row insert_row
  post_row-Confined columns_of body rows =
      elim (Result-cases (assert_project_access ctx project_id)) [
        | inr (_, refused) ↦ rw refused refl
        | inl (_, granted) ↦ elim (Result-cases (columns_of body)) [
          | inr (_, invalid) ↦ rw (granted, invalid) refl
          | inl (columns, valid) ↦
              let row = new_row admits ctx tenant_id row_id project_id columns in
              elim (Bool-cases (admits row rows)) [
                | inr broken ↦ rw (granted, valid, broken) refl
                | inl fine ↦
                    rw (granted, valid, fine)
                      (append-filtered (closed_to ctx) rows row
                        (rw (access-grants ctx project_id granted) refl))
              ]
        ]
      ]
