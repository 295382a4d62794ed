-- ===== src/Admin/Roles/Granted.antt =====
-- The permissions of a role after a PATCH are those of its users.
use hippo_build_x.Prelude.{
  String, ◌≡◌, refl, subst, ap, ◌∙◌, inl, inr, Bool, false, not, ◌&&◌, ◌||◌, Option, none, some,
  List, [], ◌∷◌, any, filter, find, map, update, truthy, Bool-cases, ◌==◌, arith,
}
use hippo_build_x.Prelude.Effect.{Result, ok, err}
use hippo_build_x.Auth.Tables.{RoleRow, UserRow, UserRole, Store}
use hippo_build_x.Auth.Sessions.{live_roles, authz_of, flatten_from, flatten_permissions, add_all}
use hippo_build_x.Admin.Roles.{
  Role, RolePatch, is_given, has_id, is_live, takes_name, name_to_set, changed, update_role,
  patch_found, patch_role, rows_of,
}

module _ (tenant_id id : String) (b : RolePatch) where
  -- The table after a PATCH that returns.
  Written : List Role → Result (Option Role) × List Role → Type 0
  Written roles (ok _, roles') =
      (name : Option String) × (roles'
        ≡ update (has_id tenant_id id) (changed tenant_id b name) roles)
  Written roles (err _, roles') = Unit

  update_role-Written :
      (admits : RolePatch → Bool) (name : Option String) (roles : List Role)
      → Written roles (update_role tenant_id admits id b name roles)
  unfolding update_role Written
  update_role-Written admits name roles =
      elim (Bool-cases (any (takes_name tenant_id id name) roles || not (admits b))) [
        | inl broken ↦ rw broken tt
        | inr fine ↦ rw fine (name, refl)
      ]

  patch_found-Written :
      (admits : RolePatch → Bool) (found : Option Role) (roles : List Role)
      → Written roles (patch_found tenant_id admits id b found roles)
  unfolding patch_found Written
  patch_found-Written admits none roles = tt
  patch_found-Written admits (some r) roles =
      elim (Bool-cases (r.is_system && (not (is_given b.permissions) && truthy b.name))) [
        | inl renames ↦ rw renames tt
        | inr fine ↦
            elim (Bool-cases (
              is_given b.description
              || (is_given b.permissions || is_given (name_to_set tenant_id b r)))) [
                | inr nothing ↦ rw (fine, nothing) tt
                | inl some_field ↦
                    rw (fine, some_field)
                      (update_role-Written admits (name_to_set tenant_id b r) roles)
              ]
      ]

  -- The rows that an assignment joins with.
  abbrev pub joins : RoleRow → Bool
  joins r = r.tenant_id == tenant_id && (r.id == id && not r.deleted)

  joined-changed :
      (name : Option String) (roles : List Role)
      → filter joins
          (rows_of tenant_id (update (has_id tenant_id id) (changed tenant_id b name) roles))
        ≡ rows_of tenant_id (map (changed tenant_id b name) (filter (λ r. joins r.row) roles))
  joined-changed name [] = refl
  joined-changed name (r ∷ roles) = elim (Bool-cases (has_id tenant_id id r)) [
    | inl hit ↦ rw hit (elim (Bool-cases (joins r.row)) [
      | inl live ↦ rw live (rw (joined-changed name roles) refl)
      | inr gone ↦ rw gone (joined-changed name roles)
    ])
    | inr miss ↦ rw miss (rw (outside miss) (joined-changed name roles))
  ]
    where
      outside : has_id tenant_id id r ≡ false → joins r.row ≡ false
      outside miss = ground (arith, miss)

  -- When a PATCH that gives permissions to a role returns, a user whose one assignment is to the role
  -- has exactly these permissions, each of them once, in every context from then on.
  pub patch_role-permissions :
      (admits : RolePatch → Bool) (permissions : List String) (roles roles' : List Role) (r : Role)
      (out : Option Role) (s : Store) (u : UserRow) (a : UserRole)
      → b.permissions ≡ some permissions
      → filter (λ r. joins r.row) roles ≡ r ∷ []
      → live_roles tenant_id u.id s.user_roles ≡ a ∷ []
      → a.role_id ≡ id
      → patch_role tenant_id admits id b roles ≡ (ok out, roles')
      → (authz_of (record s { roles = rows_of tenant_id roles' }) tenant_id u).permissions
        ≡ add_all [] permissions
  unfolding patch_role Written flatten_permissions flatten_from
  patch_role-permissions admits permissions roles roles' r out s u a given one live role h =
      let (name, wrote) =
        subst (Written roles) h
          (patch_found-Written admits (find (is_live tenant_id id) roles) roles) in
      rw live (
        rw role (
          rw
            (ap (λ rs. filter joins (rows_of tenant_id rs)) wrote
              ∙ joined-changed name roles
              ∙ ap (λ rs. rows_of tenant_id (map (changed tenant_id b name) rs)) one)
            (rw given refl)))
