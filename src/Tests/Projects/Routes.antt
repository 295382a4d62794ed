-- ===== src/Tests/Projects/Routes.antt =====
-- The routes of projects and towers on concrete tables.
use mathlib.Core.Bool.{false≢true}
use hippo_build_x.Prelude.{
  Holds, any, find, ◌||◌, sym, ◌∙◌, ◌≢◌, eq_iff, inl, inr, String, ◌≡◌, refl, true, false, Option,
  none, some, List, [], ◌∷◌, filter,
}
use hippo_build_x.Prelude.Effect.{Result, ok, err, app, other}
use hippo_build_x.Shared.Errors.{validation}
use hippo_build_x.Shared.Errors.ErrorCode
use hippo_build_x.Rbac.Context.{Ctx, JsString, str, lower_is, is_admin_role}
use hippo_build_x.Rbac.Scope.{resolve_scope}
use hippo_build_x.Projects.Access.{assert_project_access}
use hippo_build_x.Projects.Locations.{
  is_location_of, insert_location, sync_found, sync_location_for_tower,
}
use hippo_build_x.Admin.Channels.Json.{
  text, null, Fields, end, field, get, is_truthy, merge, put, has_keys, given_fields,
}
use hippo_build_x.Projects.ProjectRoute.{
  ProjectRow, update_project, patch_project, patching, after_call,
}
use hippo_build_x.Projects.ProjectRoute.Confined.{closed_to, after_call-Confined}
use hippo_build_x.Projects.SubRoutes.{
  DrawingBody, SubRow, get_rows, insert_row, post_row, issue_columns, post_issue, post_drawing,
}
use hippo_build_x.Projects.UnitStatus.{
  Store, Statements, change_from, change_row, change_unit_status,
}
use hippo_build_x.Projects.UnitRoute as UnitRoute
use hippo_build_x.Projects.UnitRoute.{not_found, get_unit, patch_unit}
use hippo_build_x.Projects.UnitRoute.Confined as Confined
use hippo_build_x.Projects.UnitRoute.Confined.{patch_unit-Confined}
use hippo_build_x.Projects.TowerRoute.{
  TowerRow, Tables, Body, same_code, tower_of, insert_tower, add_tower, post_tower,
}
use hippo_build_x.Projects.TowerRoute.Located.{HasUniqueCodes, post_tower-taken}

abbrev engineer : Ctx
engineer = record {
  user_id = str "u2";
  roles = "Engineer" ∷ [];
  permissions = [];
  project_ids = "p1" ∷ [];
  location_ids = [];
}

abbrev project : String → ProjectRow
project id = record { id = id; columns = end; updated_by = JsString.null; deleted = false }

abbrev projects : List ProjectRow
projects = project "p1" ∷ project "p2" ∷ []

abbrev renaming : Fields
renaming = field "name" (text "North") (field "id" (text "p2") end)

patch_runs :
    (patch_project engineer (λ _. true) "p1" renaming projects).0
    ≡ ok
        (record (project "p1") { columns = field "name" (text "North") end; updated_by = str "u2" })
unfolding patch_project update_project assert_project_access resolve_scope is_admin_role lower_is
    given_fields has_keys get merge put
patch_runs = refl

after_call-Confined_example :
    filter (closed_to engineer) (after_call (λ _. true) engineer (patching "p1" renaming) projects)
    ≡ filter (closed_to engineer) projects
after_call-Confined_example =
    after_call-Confined (λ _. true) engineer (patching "p1" renaming) projects

abbrev no_tables : Tables
no_tables = record { towers = []; locations = [] }

abbrev planner : Ctx
planner = record engineer { project_ids = "p2" ∷ [] }

abbrev body : Body
body = record { name = some "B"; code = some "T-1"; block_id = none }

abbrev first_post : Result TowerRow × Tables
first_post = post_tower (λ _. true) planner "t" "p2" "w0" "l1" body no_tables

abbrev first_tower : TowerRow
first_tower = record { id = "w0"; project_id = "p2"; block_id = none; name = "B"; code = "T-1" }

granted : assert_project_access engineer "p1" ≡ ok tt
unfolding assert_project_access resolve_scope is_admin_role lower_is
granted = refl

returned : first_post ≡ (ok first_tower, first_post.1)
unfolding post_tower add_tower insert_tower sync_location_for_tower sync_found insert_location
    assert_project_access resolve_scope is_admin_role lower_is
returned = refl

one_code : HasUniqueCodes first_post.1.locations
unfolding post_tower add_tower insert_tower sync_location_for_tower sync_found insert_location
    assert_project_access resolve_scope is_admin_role lower_is
one_code l k (inl e) (inl f) _ = sym e ∙ f
one_code l k (inl e) (inr n) _ = absurd n
one_code l k (inr n) _ _ = absurd n

apart : ◌≢◌ {A = String} "p1" "p2"
apart h = absurd (false≢true ((eq_iff "p1" "p2").1 h))

free : (any (same_code "p1" "T-1") first_post.1.towers || false) ≡ false
unfolding post_tower add_tower insert_tower sync_location_for_tower sync_found insert_location
    assert_project_access resolve_scope is_admin_role lower_is
free = refl

abbrev second : TowerRow
second = record { id = "w1"; project_id = "p1"; block_id = none; name = "B"; code = "T-1" }

post_tower-taken_example :
    let out = post_tower (λ _. true) engineer "t" "p1" "w1" "l2" body first_post.1 in
    (out.0 ≡ err (other "duplicate key value violates unique constraint"))
    × Holds out.1.towers second
    × (find (is_location_of (tower_of engineer "t" second)) out.1.locations ≡ none)
    × (out.1.locations ≡ first_post.1.locations)
    × (post_tower (λ _. true) engineer "t" "p1" "w2" "l3" body out.1
        ≡ (err (other "violates constraint"), out.1))
post_tower-taken_example =
    post_tower-taken (λ _. true) planner engineer "t" "p2" "p1" "w0" "w1" "l1" "l2" body body
      no_tables first_post.1 first_tower "B" "w2" "l3" returned apart one_code granted refl refl
      free

abbrev issue : SubRow
issue = record {
  id = "i1";
  tenant_id = "t";
  project_id = "p1";
  columns =
      field "title" (text "Crack")
        (field "description" null (field "severity" (text "medium") end));
  created_by = str "u2";
  deleted = false;
}

-- An issue has medium severity unless the body says otherwise.
issue_runs :
    post_issue (λ _ _. true) engineer "t" "i1" "p1" (field "title" (text "Crack") end) []
    ≡ (ok issue, issue ∷ [])
unfolding post_issue post_row insert_row issue_columns get is_truthy assert_project_access
    resolve_scope is_admin_role lower_is
issue_runs = refl

issues_listed :
    (get_rows
      (λ rows. rows)
      engineer
      "p1"
      (record issue { project_id = "p2" } ∷ issue ∷ record issue { deleted = true } ∷ [])).0
    ≡ ok (issue ∷ [])
unfolding get_rows assert_project_access resolve_scope is_admin_role lower_is
issues_listed = refl

abbrev plan : Option String → DrawingBody
plan title = record { title = title; drawing_number = some "D-1"; file_url = some ""; notes = none }

drawing_without_title :
    post_drawing engineer "t" "d1" "p1" (plan (some "")) []
    ≡ (err (validation "title and drawingNumber required"), [])
unfolding post_drawing assert_project_access resolve_scope is_admin_role lower_is
drawing_without_title = refl

abbrev store : Store
store = record {
  units =
      record { id = "u1"; status = "sold"; deleted_at = none; updated_at = 0; updated_by = none }
      ∷ [];
  history = [];
  now = 5;
}

abbrev through : Statements
through = record { update_error = λ _. none; insert_error = λ _. none }

abbrev selling : UnitRoute.Body
selling = record { status = some "reserved"; reason = none }

-- A sold unit of another project, one of the own project, and a body without a status.
unit_patches :
    ((patch_unit (λ _. "p2") engineer through "t" none "u1" selling store).0
      ≡ err (app ErrorCode.forbidden "No access to this project" 403))
    × ((patch_unit (λ _. "p1") engineer through "t" none "u1" selling store).0
        ≡ err (validation "Sold units cannot move to reserved"))
    × ((patch_unit
          (λ _. "p1")
          engineer
          through
          "t"
          none
          "u1"
          (record selling { status = some "" })
          store).0
        ≡ err (validation "status is required"))
    × ((get_unit (λ _. "p1") engineer (λ h. h) "u2" store).0 ≡ err not_found)
unfolding patch_unit get_unit change_unit_status change_row change_from assert_project_access
    resolve_scope is_admin_role lower_is
unit_patches = (refl, refl, refl, refl)

patch_unit-Confined_example :
    filter
      (Confined.closed_to (λ _. "p1") engineer)
      (patch_unit (λ _. "p1") engineer through "t" none "u1" selling store).1.units
    ≡ filter (Confined.closed_to (λ _. "p1") engineer) store.units
patch_unit-Confined_example =
    patch_unit-Confined (λ _. "p1") engineer through "t" none "u1" selling store
