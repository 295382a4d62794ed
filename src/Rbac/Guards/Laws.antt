-- ===== src/Rbac/Guards/Laws.antt =====
-- What the guards of packages/rbac/src/guards/index.js let through.
use hippo_build_x.Prelude.{
  String, ◌≡◌, refl, ◌↔◌, ◌⊎◌, inl, inr, true, false, List, [], ◌∷◌, All, any, includes,
  includes_iff, Holds, ◌==◌, arith, Bool-cases, List-cases, eq_iff,
}
use hippo_build_x.Prelude.Effect.{ok, err, app}
use hippo_build_x.Shared.Errors.ErrorCode
use hippo_build_x.Rbac.Context.{Ctx, lower_is, is_admin_role}
use hippo_build_x.Rbac.Guards.{
  none_missing, throw_refusal, is_allowed, check_permission, check_any_permission, missing,
  check_all_permissions, enforce_permission, has_permission, write_methods, is_auditor_only,
  auditor, enforce_not_auditor_write,
}

-- Some element of the list has the property.
abbrev pub Some : (String → Type 0) → List String → Type 0
Some P [] = ⊥
Some P (x ∷ xs) = P x ⊎ Some P xs

-- The permission itself, or the wildcard, is among the context's.
abbrev pub Grants : Ctx → String → Type 0
Grants ctx p = Holds ctx.permissions "*" ⊎ Holds ctx.permissions p

pub has_permission_iff : (ctx : Ctx) (p : String) → (has_permission ctx p ≡ true) ↔ Grants ctx p
unfolding has_permission check_permission
has_permission_iff ctx p =
    ground (arith, includes_iff ctx.permissions "*", includes_iff ctx.permissions p)

check_permission_iff :
    (ctx : Ctx) (p : String) → (is_allowed (check_permission ctx p) ≡ true) ↔ Grants ctx p
unfolding check_permission
check_permission_iff ctx p =
    ground (arith, includes_iff ctx.permissions "*", includes_iff ctx.permissions p)

missing_empty : (ctx : Ctx) (ps : List String) → (missing ctx ps ≡ []) ↔ All (Grants ctx) ps
unfolding missing
missing_empty ctx [] = ((λ _. tt), (λ _. refl))
missing_empty ctx (p ∷ ps) = elim (Bool-cases (is_allowed (check_permission ctx p))) [
  | inl yes_p ↦ ground (arith, check_permission_iff ctx p, missing_empty ctx ps)
  | inr no_p ↦ ground (arith, check_permission_iff ctx p)
]

any_iff :
    (ctx : Ctx) (ps : List String)
    → (any (λ p. is_allowed (check_permission ctx p)) ps ≡ true) ↔ Some (Grants ctx) ps
any_iff ctx [] = ((λ h. ground arith), (λ h. absurd h))
any_iff ctx (p ∷ ps) = ground (arith, check_permission_iff ctx p, any_iff ctx ps)

check_all_permissions-All :
    (ctx : Ctx) (ps : List String)
    → (is_allowed (check_all_permissions ctx ps) ≡ true) ↔ All (Grants ctx) ps
unfolding check_all_permissions none_missing
check_all_permissions-All ctx ps = elim (List-cases (missing ctx ps)) [
  | inl e ↦ rw e ((λ _. (missing_empty ctx ps).0 e), (λ _. refl))
  | inr (q, qs, e) ↦ rw e ((λ h. ground arith), λ a. absurd (cc ((missing_empty ctx ps).1 a)))
]

enforce_permission_iff :
    (ctx : Ctx) (p : String) → (enforce_permission ctx p ≡ ok tt) ↔ Grants ctx p
unfolding enforce_permission throw_refusal check_permission
enforce_permission_iff ctx p =
    ground (arith, includes_iff ctx.permissions "*", includes_iff ctx.permissions p)

-- Each of the three checks allows exactly what it is named for: one permission of the list, every
-- permission of the list, and no refusal of `enforcePermission` exactly when the permission (or
-- the wildcard) is held.
pub checks_iff :
    (ctx : Ctx) (p : String) (ps : List String)
    → ((is_allowed (check_any_permission ctx ps) ≡ true) ↔ Some (Grants ctx) ps)
      × ((is_allowed (check_all_permissions ctx ps) ≡ true) ↔ All (Grants ctx) ps)
      × ((enforce_permission ctx p ≡ ok tt) ↔ Grants ctx p)
unfolding check_any_permission
checks_iff ctx p ps =
    (ground (arith, any_iff ctx ps), check_all_permissions-All ctx ps, enforce_permission_iff ctx p)

lower_is-Auditor : lower_is "auditor" "Auditor" ≡ true
unfolding lower_is
lower_is-Auditor = refl

auditor_only_is_auditor :
    (roles : List String)
    → any (lower_is "auditor") roles ≡ false
    → includes roles "Auditor" ≡ false
auditor_only_is_auditor [] h = refl
auditor_only_is_auditor (r ∷ rs) h = elim (Bool-cases (r == "Auditor")) [
  | inl same ↦ let e = (eq_iff r "Auditor").0 same in ground (arith, lower_is-Auditor, e)
  | inr differs ↦ ground (arith, auditor_only_is_auditor rs)
]

-- A write by a context that is an auditor and holds no administrator role, whatever the case of
-- the letters, is refused with 403.
pub enforce_not_auditor_write-refuses :
    (ctx : Ctx) (method : String)
    → any (lower_is "auditor") ctx.roles ≡ true
    → any is_admin_role ctx.roles ≡ false
    → Holds write_methods method
    → enforce_not_auditor_write ctx method
      ≡ err (app ErrorCode.forbidden "Auditor cannot perform write operations" 403)
unfolding enforce_not_auditor_write auditor
enforce_not_auditor_write-refuses ctx method a n w =
    ground (arith, includes_iff write_methods method)

-- A method that is no write passes, and so does any method when no role is an auditor.
pub enforce_not_auditor_write-passes :
    (ctx : Ctx) (method : String)
    → (¬ Holds write_methods method) ⊎ (any (lower_is "auditor") ctx.roles ≡ false)
    → enforce_not_auditor_write ctx method ≡ ok tt
unfolding enforce_not_auditor_write is_auditor_only auditor
enforce_not_auditor_write-passes ctx method (inl w) =
    ground (arith, includes_iff write_methods method)
enforce_not_auditor_write-passes ctx method (inr a) =
    ground (arith, auditor_only_is_auditor ctx.roles)

-- A user with the roles `Auditor` and a lower-case `administrator` alone is refused every write,
-- although the check on the keys of the roles exempts administrators.
pub enforce_not_auditor_write-key_style :
    (ctx : Ctx) (method : String)
    → ctx.roles ≡ "Auditor" ∷ "administrator" ∷ []
    → Holds write_methods method
    → (auditor ctx.roles ≡ false)
      × (enforce_not_auditor_write ctx method
          ≡ err (app ErrorCode.forbidden "Auditor cannot perform write operations" 403))
unfolding enforce_not_auditor_write is_auditor_only auditor lower_is is_admin_role
enforce_not_auditor_write-key_style ctx method e w =
    rw e (refl, ground (arith, includes_iff write_methods method))
