-- ===== src/Rbac/Guards.antt =====
-- packages/rbac/src/guards/index.js.
pub mod Laws
use Prim.Native.String.{◌++◌}
use hippo_build_x.Prelude.{
  String, Bool, true, false, not, ◌&&◌, ◌||◌, Option, none, some, List, [], ◌∷◌, any, filter,
  includes, if◌then◌else◌,
}
use hippo_build_x.Prelude.Effect.{Result, ok, err, app}
use hippo_build_x.Shared.Errors.ErrorCode
use hippo_build_x.Rbac.Context.{Ctx, lower_is, is_admin_role}

-- `{ allowed, reason }`; the reason of a refusal only.
pub data Decision : Type 0 where
  allowed : Decision
  refused : (reason : String) → Decision

abbrev pub is_allowed : Decision → Bool
is_allowed allowed = true
is_allowed (refused _) = false

-- `xs.join(', ')`
abbrev pub join : List String → String
join [] = ""
join (x ∷ []) = x
join (x ∷ y ∷ rest) = x ++ (", " ++ join (y ∷ rest))

unfoldable pub check_permission : Ctx → String → Decision
check_permission ctx permission =
    if includes ctx.permissions "*" || includes ctx.permissions permission
    then allowed
    else refused ("Missing permission: " ++ permission)

unfoldable pub check_any_permission : Ctx → List String → Decision
unfolding check_permission
check_any_permission ctx permissions =
    if any (λ p. is_allowed (check_permission ctx p)) permissions
    then allowed
    else refused ("Missing any of permissions: " ++ join permissions)

pub missing : Ctx → List String → List String
unfolding check_permission
missing ctx permissions = filter (λ p. not (is_allowed (check_permission ctx p))) permissions

none_missing : List String → Decision
none_missing [] = allowed
none_missing (p ∷ ps) = refused ("Missing permissions: " ++ join (p ∷ ps))

unfoldable pub check_all_permissions : Ctx → List String → Decision
unfolding missing none_missing
check_all_permissions ctx permissions = none_missing (missing ctx permissions)

throw_refusal : Decision → Result (Unit {0})
throw_refusal allowed = ok tt
throw_refusal (refused reason) = err (app ErrorCode.insufficient_permission reason 403)

unfoldable pub enforce_permission : Ctx → String → Result (Unit {0})
unfolding check_permission throw_refusal
enforce_permission ctx permission = throw_refusal (check_permission ctx permission)

pub has_permission : Ctx → String → Bool
unfolding check_permission
has_permission ctx permission = is_allowed (check_permission ctx permission)

-- `['POST', 'PUT', 'PATCH', 'DELETE']`
abbrev pub write_methods : List String
write_methods = "POST" ∷ "PUT" ∷ "PATCH" ∷ "DELETE" ∷ []

pub is_auditor_only : List String → Bool
is_auditor_only roles =
    includes roles "Auditor" && not (includes roles "Administrator") && not (includes roles "admin")

-- The check on the keys of the roles.
pub auditor : List String → Bool
auditor roles = any (lower_is "auditor") roles && not (any is_admin_role roles)

unfoldable pub enforce_not_auditor_write : Ctx → String → Result (Unit {0})
unfolding is_auditor_only auditor
enforce_not_auditor_write ctx method =
    if (is_auditor_only ctx.roles || auditor ctx.roles) && includes write_methods method
    then err (app ErrorCode.forbidden "Auditor cannot perform write operations" 403)
    else ok tt
