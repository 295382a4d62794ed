-- ===== src/Rbac/Scope.antt =====
-- packages/rbac/src/scope-resolver.js.
use Prim.Native.String.{◌++◌}
use hippo_build_x.Prelude.{
  String, Bool, true, false, not, ◌&&◌, ◌||◌, Option, none, some, List, [], ◌∷◌, any, includes,
  if◌then◌else◌,
}
use hippo_build_x.Prelude.Effect.{Result, ok, err, other}
use hippo_build_x.Rbac.Context.{Ctx, JsString, strict_eq, present, is_admin_role}

pub data Scope : Type 0 where
  global : Scope
  scoped : (project_ids location_ids : List String) → Scope
  own : (value : JsString) → Scope

-- `Boolean(xs.length)`
abbrev pub nonempty : List String → Bool
nonempty [] = false
nonempty (_ ∷ _) = true

unfoldable pub resolve_scope : Ctx → Scope
resolve_scope ctx =
    if any is_admin_role ctx.roles
    then global
    else if nonempty ctx.project_ids || nonempty ctx.location_ids
    then scoped ctx.project_ids ctx.location_ids
    else own ctx.user_id

pub record Owned : Type 0 where
  pub project_id : JsString
  pub location_id : JsString
  pub created_by : JsString

-- `if (field && ids.length && !ids.includes(field)) return false` of one field.
abbrev pub in_scope : Option String → List String → Bool
in_scope none ids = true
in_scope (some id) ids = not (nonempty ids) || includes ids id

unfoldable pub can_access_record : Ctx → Owned → Bool
unfolding resolve_scope
can_access_record ctx row = elim (resolve_scope ctx) [
  | global ↦ true
  | scoped project_ids location_ids ↦
      in_scope (present row.project_id) project_ids
      && in_scope (present row.location_id) location_ids
  | own value ↦ strict_eq row.created_by value
]

-- What `enforceProjectAccess` and `assertProjectAccess` both test.
abbrev pub grants_project : Scope → String → Bool
grants_project global id = true
grants_project (scoped project_ids _) id = includes project_ids id
grants_project (own _) id = false

unfoldable pub enforce_project_access : Ctx → String → Result (Unit {0})
unfolding resolve_scope
enforce_project_access ctx id =
    if grants_project (resolve_scope ctx) id
    then ok tt
    else err (other ("No access to project " ++ id))
