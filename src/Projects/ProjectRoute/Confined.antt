-- ===== src/Projects/ProjectRoute/Confined.antt =====
-- Which projects a request can change and show.
use hippo_build_x.Prelude.{
  String, ◌≡◌, ◌≢◌, refl, ap, ◌∙◌, inl, inr, Bool, true, false, not, ◌&&◌, List, filter,
  filter-update, any, update, Bool-cases, eq_iff, ◌==◌, arith,
}
use hippo_build_x.Prelude.Effect.{Result, Thrown, ok, err, Result-cases}
use hippo_build_x.Rbac.Context.{Ctx}
use hippo_build_x.Rbac.Scope.{resolve_scope, grants_project}
use hippo_build_x.Projects.Access.{assert_project_access}
use hippo_build_x.Admin.Channels.Json.{Fields, has_keys, given_fields}
use hippo_build_x.Projects.ProjectRoute.{
  ProjectRow, settable, is_live, get_project, with_columns, update_project, patch_project,
  delete_project, Call, reading, patching, deleting, after_call,
}

-- The rows of the projects that a context may not open.
abbrev pub closed_to : Ctx → ProjectRow → Bool
closed_to ctx p = not (grants_project (resolve_scope ctx) p.id)

pub access-grants :
    (ctx : Ctx) (id : String)
    → assert_project_access ctx id ≡ ok tt
    → grants_project (resolve_scope ctx) id ≡ true
unfolding assert_project_access
access-grants ctx id h = elim (Bool-cases (grants_project (resolve_scope ctx) id)) [
  | inl granted ↦ granted
  | inr refused ↦ absurd (failed (rw refused at h))
]
  where
    failed : {e : Thrown} → ◌≢◌ {A = Result (Unit {0})} (err e) (ok tt)
    failed k = cc

module _ (ctx : Ctx) (id : String) (granted : assert_project_access ctx id ≡ ok tt) where
  -- An UPDATE of rows with the id of a project that the context may open, which keeps their ids.
  update-Confined :
      (q : ProjectRow → Bool) (f : ProjectRow → ProjectRow) (rows : List ProjectRow)
      → ((p : ProjectRow) → q p ≡ true → (p.id == id) ≡ true)
      → ((p : ProjectRow) → (f p).id ≡ p.id)
      → filter (closed_to ctx) (update q f rows) ≡ filter (closed_to ctx) rows
  update-Confined q f rows of_id keeps =
      filter-update (closed_to ctx) q f rows
        (λ p hit. (own p (of_id p hit), own (f p) (ap (λ i. i == id) (keeps p) ∙ of_id p hit)))
    where
      own : (p : ProjectRow) → (p.id == id) ≡ true → closed_to ctx p ≡ false
      own p same =
          ap (λ i. not (grants_project (resolve_scope ctx) i)) ((eq_iff p.id id).0 same)
          ∙ ap not (access-grants ctx id granted)

  patch-Confined :
      (admits : Fields → Bool) (body : Fields) (rows : List ProjectRow)
      → filter (closed_to ctx) (patch_project ctx admits id body rows).1
        ≡ filter (closed_to ctx) rows
  unfolding patch_project update_project
  patch-Confined admits body rows =
      rw granted (elim (Bool-cases (has_keys (given_fields settable body))) [
        | inr nothing ↦ rw nothing refl
        | inl some_given ↦
            rw some_given
              (elim (Bool-cases
                (any (is_live id) rows && not (admits (given_fields settable body)))) [
                  | inl broken ↦ rw broken refl
                  | inr fine ↦ rw fine (
                      update-Confined (is_live id) (with_columns ctx (given_fields settable body))
                        rows (λ p live. ground (arith, live)) (λ p. refl))
                ])
      ])

  delete-Confined :
      (rows : List ProjectRow)
      → filter (closed_to ctx) (delete_project ctx id rows).1 ≡ filter (closed_to ctx) rows
  unfolding delete_project
  delete-Confined rows = rw granted (
      update-Confined (λ p. p.id == id) (λ p. record p { deleted = true; updated_by = ctx.user_id })
        rows (λ p e. e) (λ p. refl))

refused-same :
    (ctx : Ctx) (id : String) (e : Thrown)
    → assert_project_access ctx id ≡ err e
    → (admits : Fields → Bool) (body : Fields) (rows : List ProjectRow)
    → ((patch_project ctx admits id body rows).1 ≡ rows) × ((delete_project ctx id rows).1 ≡ rows)
unfolding patch_project delete_project
refused-same ctx id e refused admits body rows = (rw refused refl, rw refused refl)

get_project-same :
    (ctx : Ctx) (id : String) (rows : List ProjectRow) → (get_project ctx id rows).1 ≡ rows
unfolding get_project
get_project-same ctx id rows = elim (Result-cases (assert_project_access ctx id)) [
  | inl (_, granted) ↦ rw granted refl
  | inr (_, refused) ↦ rw refused refl
]

-- A request for a project changes no row of a project that its context may not open, whatever the
-- request, the constraints of the table, and the answer.
pub after_call-Confined :
    (admits : Fields → Bool) (ctx : Ctx) (call : Call) (rows : List ProjectRow)
    → filter (closed_to ctx) (after_call admits ctx call rows) ≡ filter (closed_to ctx) rows
unfolding after_call
after_call-Confined admits ctx (reading id) rows =
    ap (filter (closed_to ctx)) (get_project-same ctx id rows)
after_call-Confined admits ctx (patching id body) rows =
    elim (Result-cases (assert_project_access ctx id)) [
      | inl (_, granted) ↦ patch-Confined ctx id granted admits body rows
      | inr (e, refused) ↦
          ap (filter (closed_to ctx)) (refused-same ctx id e refused admits body rows).0
    ]
after_call-Confined admits ctx (deleting id) rows =
    elim (Result-cases (assert_project_access ctx id)) [
      | inl (_, granted) ↦ delete-Confined ctx id granted rows
      | inr (e, refused) ↦
          ap (filter (closed_to ctx)) (refused-same ctx id e refused (λ _. true) Fields.end rows).1
    ]
