-- ===== src/Admin/Roles/System.antt =====
-- Roles of the system keep their names, and what a PATCH gives is what users have.
use hippo_build_x.Prelude.{
  String, ◌≡◌, refl, ap, ◌∙◌, inl, inr, Bool, true, not, ◌&&◌, ◌||◌, Option, none, some, List, [],
  ◌∷◌, All, any, find, find-All, find-holds, map, update, truthy, Bool-cases, if◌then◌else◌, arith,
}
use hippo_build_x.Admin.Roles.{
  Role, RolePatch, is_given, has_id, is_live, takes_name, name_to_set, changed, update_role,
  patch_found, patch_role,
}

-- The name of a role of the system.
abbrev pub system_name : Role → Option String
system_name r = if r.is_system then some r.row.name else none

-- The rows with one id are all of the system, or none is, as the id is the primary key.
abbrev pub IsUniform : String → String → Bool → List Role → Type 0
IsUniform tenant_id id system = All (λ r. has_id tenant_id id r ≡ true → r.is_system ≡ system)

changed-system :
    (tenant_id : String) (b : RolePatch) (name : Option String) (system : Bool) (r : Role)
    → r.is_system ≡ system
    → (system ≡ true → name ≡ none)
    → system_name (changed tenant_id b name r) ≡ system_name r
changed-system tenant_id b name system r own kept = elim (Bool-cases system) [
  | inl yes' ↦ rw (kept yes') refl
  | inr no' ↦ rw (own ∙ no') refl
]

update-system :
    (tenant_id id : String) (b : RolePatch) (name : Option String) (system : Bool)
    (roles : List Role)
    → IsUniform tenant_id id system roles
    → (system ≡ true → name ≡ none)
    → map system_name (update (has_id tenant_id id) (changed tenant_id b name) roles)
      ≡ map system_name roles
update-system tenant_id id b name system [] h kept = refl
update-system tenant_id id b name system (r ∷ roles) (h, hs) kept =
    elim (Bool-cases (has_id tenant_id id r)) [
      | inr miss ↦ rw miss (rw (update-system tenant_id id b name system roles hs kept) refl)
      | inl hit ↦ rw hit (
          rw (update-system tenant_id id b name system roles hs kept) (
            ap (λ n. n ∷ map system_name roles)
              (changed-system tenant_id b name system r (h hit) kept)))
    ]

update_role-system :
    (admits : RolePatch → Bool) (tenant_id id : String) (b : RolePatch) (name : Option String)
    (system : Bool) (roles : List Role)
    → IsUniform tenant_id id system roles
    → (system ≡ true → name ≡ none)
    → map system_name (update_role tenant_id admits id b name roles).1 ≡ map system_name roles
unfolding update_role
update_role-system admits tenant_id id b name system roles h kept =
    elim (Bool-cases (any (takes_name tenant_id id name) roles || not (admits b))) [
      | inl broken ↦ rw broken refl
      | inr fine ↦ rw fine (update-system tenant_id id b name system roles h kept)
    ]

patch_found-system :
    (admits : RolePatch → Bool) (tenant_id id : String) (b : RolePatch) (found : Option Role)
    (system : Bool) (roles : List Role)
    → IsUniform tenant_id id system roles
    → ((r : Role) → found ≡ some r → r.is_system ≡ system)
    → map system_name (patch_found tenant_id admits id b found roles).1 ≡ map system_name roles
unfolding patch_found
patch_found-system admits tenant_id id b none system roles h own = refl
patch_found-system admits tenant_id id b (some r) system roles h own =
    elim (Bool-cases (r.is_system && (not (is_given b.permissions) && truthy b.name))) [
      | inl renames ↦ rw renames refl
      | inr fine ↦
          elim (Bool-cases (
            is_given b.description
            || (is_given b.permissions || is_given (name_to_set tenant_id b r)))) [
              | inr nothing ↦ rw (fine, nothing) refl
              | inl some_field ↦
                  rw (fine, some_field)
                    (update_role-system admits tenant_id id b (name_to_set tenant_id b r) system
                      roles h (λ e. ap (λ c. if c then none else b.name) (own r refl ∙ e)))
            ]
    ]

-- A PATCH of a role changes no name of a role of the system, whatever its body, the constraints of the
-- table, and its answer.
pub patch_role-system :
    (admits : RolePatch → Bool) (tenant_id id : String) (b : RolePatch) (system : Bool)
    (roles : List Role)
    → IsUniform tenant_id id system roles
    → map system_name (patch_role tenant_id admits id b roles).1 ≡ map system_name roles
unfolding patch_role
patch_role-system admits tenant_id id b system roles h =
    patch_found-system admits tenant_id id b (find (is_live tenant_id id) roles) system roles h
      (λ r found.
        find-All (λ r. has_id tenant_id id r ≡ true → r.is_system ≡ system) (is_live tenant_id id)
          roles r h found (ground (arith, find-holds (is_live tenant_id id) roles r found)))
