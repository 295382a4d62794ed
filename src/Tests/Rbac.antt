-- ===== src/Tests/Rbac.antt =====
-- packages/rbac/src on concrete contexts.
use hippo_build_x.Prelude.{String, ◌≡◌, refl, true, false, List, [], ◌∷◌, any, some}
use hippo_build_x.Prelude.Effect.{ok, err, other}
use hippo_build_x.Rbac.Permission
use hippo_build_x.Rbac.Matrix
use hippo_build_x.Rbac.Context.{Ctx, str, lower_is, is_admin_role}
use hippo_build_x.Rbac.Guards.{is_allowed, check_permission, enforce_not_auditor_write}
use hippo_build_x.Rbac.Scope.{enforce_project_access}

abbrev context : List String → List String → Ctx
context roles permissions = record {
  user_id = str "u1";
  roles = roles;
  permissions = permissions;
  project_ids = "p1" ∷ [];
  location_ids = [];
}

abbrev accountant : Ctx
accountant = context ("Accountant" ∷ []) Matrix.accountant

abbrev reader : Ctx
reader = context ("AUDITOR" ∷ []) Matrix.auditor

abbrev both : Ctx
both = context ("Auditor" ∷ "administrator" ∷ []) []

runs :
    (is_allowed (check_permission accountant Permission.payment_read) ≡ true)
    × (is_allowed (check_permission accountant Permission.user_read) ≡ false)
    × (is_allowed (check_permission (context [] ("*" ∷ [])) Permission.user_read) ≡ true)
    × (enforce_not_auditor_write (context ("Auditor" ∷ "admin" ∷ []) []) "POST" ≡ ok tt)
    × (enforce_project_access accountant "p1" ≡ ok tt)
    × (enforce_project_access accountant "p2" ≡ err (other "No access to project p2"))
    × (Matrix.lookup_role "accountant" Matrix.default_permission_matrix ≡ some Matrix.accountant)
unfolding check_permission enforce_not_auditor_write enforce_project_access lower_is is_admin_role
runs = (refl, refl, refl, refl, refl, refl, refl)

reader_is_auditor :
    (any (lower_is "auditor") reader.roles ≡ true) × (any is_admin_role reader.roles ≡ false)
unfolding lower_is is_admin_role
reader_is_auditor = (refl, refl)

accountant_is_no_auditor : any (lower_is "auditor") accountant.roles ≡ false
unfolding lower_is
accountant_is_no_auditor = refl
