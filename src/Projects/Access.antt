-- ===== src/Projects/Access.antt =====
-- property-service.js: which projects a context lists and which it may open.
pub mod Laws
use hippo_build_x.Prelude.{
  String, Bool, true, false, List, [], ◌∷◌, filter, includes, if◌then◌else◌,
}
use hippo_build_x.Prelude.Effect.{Result, ok, err, app}
use hippo_build_x.Shared.Errors.ErrorCode
use hippo_build_x.Rbac.Context.{Ctx, JsString, strict_eq}
use hippo_build_x.Rbac.Scope.{Scope, global, scoped, own, nonempty, resolve_scope, grants_project}

-- The columns of a project that the filter reads.
pub record Project : Type 0 where
  pub id : String
  pub created_by : JsString

-- The test of the filter, by the scope.
unfoldable pub lists_project : Ctx → Scope → Project → Bool
lists_project ctx global project = true
lists_project ctx (scoped project_ids _) project =
    if nonempty project_ids
    then includes project_ids project.id
    else strict_eq project.created_by ctx.user_id
lists_project ctx (own _) project = strict_eq project.created_by ctx.user_id

unfoldable pub filter_projects_by_scope : Ctx → List Project → List Project
unfolding resolve_scope lists_project
filter_projects_by_scope ctx projects = filter (lists_project ctx (resolve_scope ctx)) projects

unfoldable pub assert_project_access : Ctx → String → Result (Unit {0})
unfolding resolve_scope
assert_project_access ctx id =
    if grants_project (resolve_scope ctx) id
    then ok tt
    else err (app ErrorCode.forbidden "No access to this project" 403)
