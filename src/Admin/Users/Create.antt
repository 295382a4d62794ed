-- ===== src/Admin/Users/Create.antt =====
-- apps/web/src/app/api/v1/admin/users/route.js, POST: a new user of a tenant, with a first role.
pub mod Login
use hippo_build_x.Prelude.{
  suc, String, Bool, false, not, ◌&&◌, ◌||◌, Option, none, some, List, [], ◌∷◌, ◌++◌, any, truthy,
  or_null, if◌then◌else◌, ◌==◌,
}
use hippo_build_x.Prelude.Effect.{Result, ok, err, app, other, then_result, bind_result}
use hippo_build_x.Shared.Errors.{validation}
use hippo_build_x.Shared.Errors.ErrorCode
use hippo_build_x.Auth.Tables.{UserRow, Store}
use hippo_build_x.Auth.Sessions.{External}
use hippo_build_x.Admin.Users.{Caller, UserPatch, insert_user_role}

-- The body of a POST.
pub record NewUser : Type 0 where
  pub name : Option String
  pub email : Option String
  pub password : Option String
  pub status : Option String
  pub role_id : Option String
  pub project_id : Option String
  pub location_id : Option String

abbrev pub or_default : Option String → String → String
or_default none d = d
or_default (some v) d = if v == "" then d else v

module _ (x : External) (hash_password : String → String) (c : Caller) where
  open x use {lower, uuid}

  -- `WHERE lower(email) = lower($1) AND deleted_at IS NULL`
  abbrev pub is_address : String → UserRow → Bool
  is_address email u = u.tenant_id == c.tenant_id && (lower u.email == lower email && not u.deleted)

  -- A row that the UNIQUE constraint compares with.
  abbrev pub holds_email : String → UserRow → Bool
  holds_email email u = u.tenant_id == c.tenant_id && u.email == email

  abbrev pub new_user : String → String → String → Option String → Store → UserRow
  new_user name email password status s = record {
    tenant_id = c.tenant_id;
    id = uuid s.serial;
    email = email;
    name = name;
    status = or_default status "active";
    password_hash = hash_password password;
    deleted = false;
  }

  -- The INSERT into `users`.
  unfoldable pub insert_user : UserRow → Store → Result UserRow × Store
  insert_user u s =
      if any (holds_email u.email) s.users
      then (err (other "violates unique constraint"), s)
      else (ok u, record s { users = s.users ++ u ∷ []; serial = suc s.serial })

  -- `if (roleId)`
  unfoldable pub first_role : NewUser → Option String → UserRow → Store → Result UserRow × Store
  first_role b none u s = (ok u, s)
  first_role b (some role_id) u s =
      then_result (insert_user_role c u.id b.project_id b.location_id role_id s) (λ s. (ok u, s))

  -- From the checked body on.
  unfoldable pub add_user :
      NewUser → Option String → Option String → Option String → Store → Result UserRow × Store
  unfolding insert_user first_role
  add_user b (some name) (some email) (some password) s =
      if any (is_address email) s.users
      then (err (app ErrorCode.already_exists "Email already exists" 409), s)
      else bind_result (insert_user (new_user name email password b.status s) s)
          (first_role b (or_null b.role_id))
  add_user b _ _ _ s = (err (validation "name, email, and password are required"), s)

  unfoldable pub post_user : NewUser → Store → Result UserRow × Store
  post_user b = add_user b (or_null b.name) (or_null b.email) (or_null b.password)
