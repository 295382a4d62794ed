-- ===== src/Tests/Auth/Roles.antt =====
-- The administration of roles on concrete tables.
use hippo_build_x.Prelude.{◌≡◌, refl, true, none, some, List, [], ◌∷◌, map}
use hippo_build_x.Prelude.Effect.{ok}
use hippo_build_x.Auth.Sessions.{authz_of}
use hippo_build_x.Admin.Roles.{Role, RolePatch, update_role, patch_found, patch_role, rows_of}
use hippo_build_x.Admin.Roles.System.{system_name, patch_role-system}
use hippo_build_x.Admin.Roles.Granted.{patch_role-permissions}
use hippo_build_x.Tests.Auth.{tenant_id, user, role, given, store}

abbrev sales : Role
sales = record { row = role; description = none; is_system = true }

abbrev change : RolePatch
change = record {
  name = some "Clerk";
  description = none;
  permissions = some ("lead.read" ∷ "unit.read" ∷ "lead.read" ∷ []);
}

patch_role-system_example :
    map system_name (patch_role tenant_id (λ _. true) "r1" change (sales ∷ [])).1
    ≡ some "Sales" ∷ []
patch_role-system_example =
    patch_role-system (λ _. true) tenant_id "r1" change true (sales ∷ []) ((λ _. refl), tt)

abbrev changed_roles : List Role
changed_roles = (patch_role tenant_id (λ _. true) "r1" change (sales ∷ [])).1

abbrev answered : Role
answered = record sales {
  row = record role { permissions = "lead.read" ∷ "unit.read" ∷ "lead.read" ∷ [] };
}

changes :
    patch_role tenant_id (λ _. true) "r1" change (sales ∷ []) ≡ (ok (some answered), changed_roles)
unfolding patch_role patch_found update_role
changes = refl

patch_role-permissions_example :
    (authz_of (record store { roles = rows_of tenant_id changed_roles }) tenant_id user).permissions
    ≡ "lead.read" ∷ "unit.read" ∷ []
patch_role-permissions_example =
    patch_role-permissions tenant_id "r1" change (λ _. true)
      ("lead.read" ∷ "unit.read" ∷ "lead.read" ∷ []) (sales ∷ []) changed_roles sales
      (some answered) store user given refl refl refl refl changes
