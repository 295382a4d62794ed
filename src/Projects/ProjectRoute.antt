-- ===== src/Projects/ProjectRoute.antt =====
-- apps/web/src/app/api/v1/projects/[id]/route.js: one project. The columns that a request may set are
-- the fields of an object; `admits` stands for their types and constraints.
pub mod Confined
use hippo_build_x.Prelude.{
  String, Bool, true, false, not, ◌&&◌, Option, none, some, List, [], ◌∷◌, any, find, update,
  if◌then◌else◌, ◌==◌,
}
use hippo_build_x.Prelude.Effect.{Thrown, Result, ok, err, app, other, bind_result}
use hippo_build_x.Shared.Errors.{validation}
use hippo_build_x.Shared.Errors.ErrorCode
use hippo_build_x.Rbac.Context.{Ctx, JsString}
use hippo_build_x.Projects.Access.{assert_project_access}
use hippo_build_x.Admin.Channels.Json.{Fields, merge, has_keys, given_fields}

pub record ProjectRow : Type 0 where
  pub id : String
  pub columns : Fields
  pub updated_by : JsString
  pub deleted : Bool

-- The names that PATCH reads from its body.
abbrev pub settable : List String
settable =
    "name" ∷ "code" ∷ "description" ∷ "status" ∷ "start_date" ∷ "end_date" ∷ "budget" ∷ "address"
    ∷ "city" ∷ "state" ∷ []

-- `WHERE id = $1 AND deleted_at IS NULL`
abbrev pub is_live : String → ProjectRow → Bool
is_live id p = p.id == id && not p.deleted

abbrev pub not_found : Thrown
not_found = app ErrorCode.not_found "Project not found" 404

abbrev pub or_missing : Option ProjectRow → Result ProjectRow
or_missing none = err not_found
or_missing (some p) = ok p

module _ (ctx : Ctx) where
  -- GET
  unfoldable pub get_project : String → List ProjectRow → Result ProjectRow × List ProjectRow
  get_project id rows =
      bind_result (assert_project_access ctx id, rows)
        (λ _ rows. (or_missing (find (is_live id) rows), rows))

  abbrev pub with_columns : Fields → ProjectRow → ProjectRow
  with_columns given p = record p { columns = merge p.columns given; updated_by = ctx.user_id }

  -- `UPDATE projects SET ... WHERE id = $n AND deleted_at IS NULL RETURNING *`
  unfoldable pub update_project :
      (Fields → Bool) → String → Fields → List ProjectRow → Result ProjectRow × List ProjectRow
  unfolding merge
  update_project admits id given rows =
      if any (is_live id) rows && not (admits given)
      then (err (other "violates constraint"), rows)
      else let rows' = update (is_live id) (with_columns given) rows in
        (or_missing (find (is_live id) rows'), rows')

  -- PATCH
  unfoldable pub patch_project :
      (Fields → Bool) → String → Fields → List ProjectRow → Result ProjectRow × List ProjectRow
  unfolding given_fields has_keys update_project
  patch_project admits id body rows =
      bind_result (assert_project_access ctx id, rows)
        (λ _ rows.
          let given = given_fields settable body in
          if has_keys given
          then update_project admits id given rows
          else (err (validation "No fields to update"), rows))

  -- DELETE
  unfoldable pub delete_project : String → List ProjectRow → Result (Unit {0}) × List ProjectRow
  delete_project id rows =
      bind_result (assert_project_access ctx id, rows)
        (λ _ rows. (
          ok tt,
          update (λ p. p.id == id) (λ p. record p { deleted = true; updated_by = ctx.user_id })
              rows,
        ))

-- A request to the route.
pub data Call : Type 0 where
  reading : String → Call
  patching : String → Fields → Call
  deleting : String → Call

-- The table after a request.
unfoldable pub after_call : (Fields → Bool) → Ctx → Call → List ProjectRow → List ProjectRow
unfolding get_project patch_project delete_project
after_call admits ctx (reading id) rows = (get_project ctx id rows).1
after_call admits ctx (patching id body) rows = (patch_project ctx admits id body rows).1
after_call admits ctx (deleting id) rows = (delete_project ctx id rows).1
