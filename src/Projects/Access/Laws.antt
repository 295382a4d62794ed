-- ===== src/Projects/Access/Laws.antt =====
-- Listing projects against opening one.
use hippo_build_x.Prelude.{
  ◌≡◌, sym, ap, ◌∙◌, ◌↔◌, ◌⊎◌, inl, inr, Bool, true, false, List, [], ◌∷◌, filter, any, Holds,
  arith, Bool-cases,
}
use mathlib.Core.Bool.{false≢true}
use hippo_build_x.Prelude.Effect.{ok, err, app}
use hippo_build_x.Shared.Errors.ErrorCode
use hippo_build_x.Rbac.Context.{Ctx, strict_eq, is_admin_role}
use hippo_build_x.Rbac.Scope.{nonempty, resolve_scope}
use hippo_build_x.Projects.Access.{
  Project, lists_project, filter_projects_by_scope, assert_project_access,
}

Holds-filter :
    {A : Type 0} (p : A → Bool) (xs : List A) (a : A)
    → Holds (filter p xs) a ↔ (Holds xs a × (p a ≡ true))
Holds-filter p [] a = ((λ h. absurd h), (λ h. absurd h.0))
Holds-filter p (x ∷ xs) a = elim (Bool-cases (p x)) [
  | inl t ↦ rw t (
    (λ h. elim h [
      | inl e ↦ (inl e, ap p (sym e) ∙ t)
      | inr k ↦ let (m, q) = (Holds-filter p xs a).0 k in (inr m, q)
    ]),
    (λ (h, q). elim h [ inl e ↦ inl e | inr m ↦ inr ((Holds-filter p xs a).1 (m, q)) ]),
  )
  | inr f ↦ rw f (
    (λ h. let (m, q) = (Holds-filter p xs a).0 h in (inr m, q)),
    (λ (h, q). elim h [
      | inl e ↦ absurd (false≢true (sym f ∙ ap p e ∙ q))
      | inr m ↦ (Holds-filter p xs a).1 (m, q)
    ]),
  )
]

-- For an administrator, and for a context with assigned projects, a project of the table is listed
-- exactly when `assertProjectAccess` lets the context open it.
pub listed_iff_granted :
    (ctx : Ctx) (projects : List Project) (project : Project)
    → (any is_admin_role ctx.roles ≡ true) ⊎ (nonempty ctx.project_ids ≡ true)
    → Holds projects project
    → Holds (filter_projects_by_scope ctx projects) project
      ↔ (assert_project_access ctx project.id ≡ ok tt)
unfolding filter_projects_by_scope assert_project_access
listed_iff_granted ctx projects project wide here =
    ground (arith, Holds-filter (lists_project ctx (resolve_scope ctx)) projects project)

-- A context with no administrator role and no assigned project is refused every project by
-- `assertProjectAccess`, while it lists exactly the projects that it created.
pub own_listed_refused :
    (ctx : Ctx) (projects : List Project) (project : Project)
    → any is_admin_role ctx.roles ≡ false
    → ctx.project_ids ≡ []
    → (Holds (filter_projects_by_scope ctx projects) project
        ↔ (Holds projects project × (strict_eq project.created_by ctx.user_id ≡ true)))
      × (assert_project_access ctx project.id
          ≡ err (app ErrorCode.forbidden "No access to this project" 403))
unfolding filter_projects_by_scope assert_project_access
own_listed_refused ctx projects project na np = (
  ground (arith, Holds-filter (lists_project ctx (resolve_scope ctx)) projects project),
  ground arith,
)
