-- ===== src/Admin/Roles.antt =====
-- apps/web/src/app/api/v1/admin/roles/route.js and [id]/route.js: the roles of a tenant. The column
-- `permissions` holds an array of names. `admits` stands for the constraints of the table besides
-- UNIQUE (name), which counts deleted roles too.
pub mod System
pub mod Granted
use hippo_build_x.Prelude.{
  String, Bool, true, false, not, ◌&&◌, ◌||◌, Option, none, some, List, [], ◌∷◌, ◌++◌, any, find,
  map, update, or_null, truthy, if◌then◌else◌, ◌==◌,
}
use hippo_build_x.Prelude.Effect.{Result, ok, err, app, other}
use hippo_build_x.Shared.Errors.{validation}
use hippo_build_x.Shared.Errors.ErrorCode
use hippo_build_x.Auth.Tables.{RoleRow}

-- A row of `roles`: what the services read of it, and the rest.
pub record Role : Type 0 where
  pub row : RoleRow
  pub description : Option String
  pub is_system : Bool

-- The body of a PATCH: `none` is a field that it does not have.
pub record RolePatch : Type 0 where
  pub name : Option String
  pub description : Option (Option String)
  pub permissions : Option (List String)

pub record NewRole : Type 0 where
  pub name : Option String
  pub description : Option String
  pub permissions : Option (List String)

abbrev pub or_empty : Option (List String) → List String
or_empty none = []
or_empty (some ps) = ps

abbrev pub is_given {ℓ} : {A : Type ℓ} → Option A → Bool
is_given none = false
is_given (some _) = true

abbrev pub set_to {ℓ} : {A : Type ℓ} → Option A → A → A
set_to none old = old
set_to (some v) old = v

module _ (tenant_id : String) where
  abbrev pub has_id : String → Role → Bool
  has_id id r = r.row.tenant_id == tenant_id && r.row.id == id

  -- `WHERE id = $1 AND deleted_at IS NULL`
  abbrev pub is_live : String → Role → Bool
  is_live id r = has_id id r && not r.row.deleted

  -- Another row with the name.
  abbrev pub takes_name : String → Option String → Role → Bool
  takes_name id none r = false
  takes_name id (some name) r =
      r.row.tenant_id == tenant_id && (r.row.name == name && not (r.row.id == id))

  -- The name that the UPDATE sets: none of a system role.
  abbrev pub name_to_set : RolePatch → Role → Option String
  name_to_set b r = if r.is_system then none else b.name

  abbrev pub changed : RolePatch → Option String → Role → Role
  changed b name r = record r {
    row = record r.row {
      name = set_to name r.row.name;
      permissions = set_to b.permissions r.row.permissions;
    };
    description = set_to b.description r.description;
  }

  -- The UPDATE, from the fields on.
  unfoldable pub update_role :
      (RolePatch → Bool)
      → String
      → RolePatch
      → Option String
      → List Role
      → Result (Option Role) × List Role
  update_role admits id b name roles =
      if any (takes_name id name) roles || not (admits b)
      then (err (other "violates constraint"), roles)
      else let roles' = update (has_id id) (changed b name) roles in
        (ok (find (has_id id) roles'), roles')

  -- From the row that the SELECT finds.
  unfoldable pub patch_found :
      (RolePatch → Bool)
      → String
      → RolePatch
      → Option Role
      → List Role
      → Result (Option Role) × List Role
  unfolding update_role
  patch_found admits id b none roles = (err (app ErrorCode.not_found "Role not found" 404), roles)
  patch_found admits id b (some r) roles =
      if r.is_system && (not (is_given b.permissions) && truthy b.name)
      then (err (validation "Cannot rename system roles"), roles)
      else if is_given b.description || (is_given b.permissions || is_given (name_to_set b r))
      then update_role admits id b (name_to_set b r) roles
      else (err (validation "No fields to update"), roles)

  -- PATCH of [id]/route.js
  unfoldable pub patch_role :
      (RolePatch → Bool) → String → RolePatch → List Role → Result (Option Role) × List Role
  unfolding patch_found
  patch_role admits id b roles = patch_found admits id b (find (is_live id) roles) roles

  -- The INSERT of a POST; `id` is what `gen_random_uuid()` gives.
  abbrev pub new_role : String → NewRole → String → Role
  new_role id b name = record {
    row = record {
      tenant_id = tenant_id;
      id = id;
      name = name;
      permissions = or_empty b.permissions;
      deleted = false;
    };
    description = or_null b.description;
    is_system = false;
  }

  abbrev pub is_named : String → Role → Bool
  is_named name r = r.row.tenant_id == tenant_id && r.row.name == name

  unfoldable pub add_role : String → NewRole → Option String → List Role → Result Role × List Role
  add_role id b none roles = (err (validation "name is required"), roles)
  add_role id b (some name) roles =
      if any (λ r. is_named name r && not r.row.deleted) roles
      then (err (app ErrorCode.already_exists "Role exists" 409), roles)
      else if any (is_named name) roles
      then (err (other "violates unique constraint"), roles)
      else (ok (new_role id b name), roles ++ new_role id b name ∷ [])

  -- POST of route.js
  unfoldable pub post_role : String → NewRole → List Role → Result Role × List Role
  unfolding add_role
  post_role id b = add_role id b (or_null b.name)

  -- The table as the services see it.
  abbrev pub rows_of : List Role → List RoleRow
  rows_of = map (λ r. r.row)
