-- ===== src/Admin/Users.antt =====
-- apps/web/src/app/api/v1/admin/users/route.js and [id]/route.js: users of a tenant. The tables are
-- those of the sessions. Ids are spelled the way PostgreSQL prints a UUID, no text is longer than its
-- column, and `hash_password` stands for `hashPassword`, with the salt that it draws.
pub mod Create
pub mod Lockout
pub mod Replacement
use hippo_build_x.Prelude.{
  suc, String, Bool, true, false, not, ◌&&◌, ◌||◌, Option, none, some, List, [], ◌∷◌, ◌++◌, any,
  find, update, truthy, or_null, if◌then◌else◌, ◌==◌,
}
use hippo_build_x.Prelude.Effect.{
  Result, ok, err, app, other, Thrown, pure, throw, throw_if, gets, or_throw, ◌>>=◌, ◌>>◌,
}
use hippo_build_x.Shared.Errors.{validation}
use hippo_build_x.Shared.Errors.ErrorCode
use hippo_build_x.Rbac.Context.{JsString, undefined, null, str, strict_eq}
use hippo_build_x.Auth.Tables.{UserRow, RoleRow, UserRole, Store}
use hippo_build_x.Auth.Sessions.{External, is_user}
use hippo_build_x.Auth.Reset.{revoke_all_user_sessions}

-- What the handlers read of the request's context.
pub record Caller : Type 0 where
  pub tenant_id : String
  pub schema_name : String

-- The body of a PATCH.
pub record UserPatch : Type 0 where
  pub name : JsString
  pub email : JsString
  pub status : JsString
  pub password : Option String
  pub role_id : Option String
  pub project_id : Option String
  pub location_id : Option String

abbrev pub is_given : JsString → Bool
is_given undefined = false
is_given _ = true

abbrev pub is_null : JsString → Bool
is_null null = true
is_null _ = false

-- A column that `SET` names only when the body does.
abbrev pub set_to : JsString → String → String
set_to (str value) old = value
set_to _ old = old

abbrev pub set_hash : (String → String) → Option String → String → String
set_hash hash_password none old = old
set_hash hash_password (some p) old = hash_password p

-- `fields.length`
abbrev pub has_fields : UserPatch → Bool
has_fields b = is_given b.name || (is_given b.email || (is_given b.status || truthy b.password))

-- The row by its key, deleted or not.
abbrev pub has_id : String → String → UserRow → Bool
has_id tenant_id id u = u.tenant_id == tenant_id && u.id == id

-- Another row with the address: the column is UNIQUE, deleted rows included.
abbrev pub takes_email : String → String → JsString → UserRow → Bool
takes_email tenant_id id (str email) u =
    u.tenant_id == tenant_id && (u.email == email && not (u.id == id))
takes_email tenant_id id _ u = false

-- The UPDATE breaks a NOT NULL or the UNIQUE constraint.
abbrev pub breaks : String → String → UserPatch → List UserRow → Bool
breaks tenant_id id b users =
    is_null b.name
    || (is_null b.email || (is_null b.status || any (takes_email tenant_id id b.email) users))

abbrev pub is_role_id : Caller → String → RoleRow → Bool
is_role_id c role_id r = r.tenant_id == c.tenant_id && r.id == role_id

-- The INSERT into `user_roles`: `role_id` refers to a row of `roles`, deleted or not.
unfoldable pub insert_user_role :
    Caller → String → Option String → Option String → String → Store → Result (Unit {0}) × Store
insert_user_role c user_id project_id location_id role_id s =
    if any (is_role_id c role_id) s.roles
    then (
      ok tt,
      record s {
        user_roles =
            s.user_roles
            ++ record {
              tenant_id = c.tenant_id;
              user_id = user_id;
              role_id = role_id;
              project_id = or_null project_id;
              location_id = or_null location_id;
              deleted = false;
            }
              ∷ [];
      },
    )
    else (err (other "violates foreign key constraint"), s)

module _ (hash_password : String → String) (c : Caller) (id : String) (b : UserPatch) where
  unfoldable pub patched : UserRow → UserRow
  patched u = record u {
    name = set_to b.name u.name;
    email = set_to b.email u.email;
    status = set_to b.status u.status;
    password_hash = set_hash hash_password (or_null b.password) u.password_hash;
  }

  -- `UPDATE users SET ... WHERE id = $n`
  unfoldable pub update_user : Store → Result (Unit {0}) × Store
  unfolding patched
  update_user s =
      if has_fields b
      then if breaks c.tenant_id id b s.users
        then (err (other "violates constraint"), s)
        else (ok tt, record s { users = update (has_id c.tenant_id id) patched s.users })
      else (ok tt, s)

  -- `body.status === 'suspended' || body.status === 'inactive'`
  abbrev pub ends_access : Bool
  ends_access = strict_eq b.status (str "suspended") || strict_eq b.status (str "inactive")

  unfoldable pub revoke_if_ended : Store → Result (Unit {0}) × Store
  revoke_if_ended s =
      if ends_access then revoke_all_user_sessions c.schema_name c.tenant_id id s else (ok tt, s)

  -- `UPDATE user_roles SET deleted_at = NOW() WHERE user_id = $1 AND deleted_at IS NULL`
  unfoldable pub remove_roles : List UserRole → List UserRole
  remove_roles rows =
      update (λ r. r.tenant_id == c.tenant_id && (r.user_id == id && not r.deleted))
        (λ r. record r { deleted = true }) rows

  -- `if (body.roleId)`
  unfoldable pub replace_role : Option String → Store → Result (Unit {0}) × Store
  unfolding remove_roles insert_user_role
  replace_role none s = (ok tt, s)
  replace_role (some role_id) s =
      insert_user_role c id b.project_id b.location_id role_id
        (record s { user_roles = remove_roles s.user_roles })

  -- What a PATCH tests before it writes.
  unfoldable pub check_patch : Store → Result (Unit {0}) × Store
  check_patch s =
      (or_throw (find (is_user c.tenant_id id) s.users)
            (app ErrorCode.not_found "User not found" 404)
          >> throw_if (not (has_fields b || truthy b.role_id)) (validation "No fields to update"))
        s

  unfoldable pub write_patch : Store → Result (Unit {0}) × Store
  unfolding update_user revoke_if_ended replace_role
  write_patch s = (update_user >> revoke_if_ended >> replace_role (or_null b.role_id)) s

  -- PATCH of [id]/route.js. What it answers is the row by its key.
  unfoldable pub patch_user : Store → Result (Option UserRow) × Store
  unfolding check_patch write_patch
  patch_user s = (check_patch >> write_patch >> gets (λ s. find (has_id c.tenant_id id) s.users)) s

-- DELETE of [id]/route.js.
unfoldable pub delete_user : Caller → String → Store → Result (Unit {0}) × Store
delete_user c id s = revoke_all_user_sessions c.schema_name c.tenant_id id (record s {
  users =
      update (has_id c.tenant_id id) (λ u. record u { deleted = true; status = "inactive" })
        s.users;
})
