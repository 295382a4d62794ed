-- ===== src/Tests/Auth/Users.antt =====
-- The administration of users on concrete tables.
use hippo_build_x.Prelude.{String, ◌≡◌, refl, false, Option, none, some, [], ◌∷◌, any}
use hippo_build_x.Prelude.Effect.{Result, ok, err, other}
use hippo_build_x.Rbac.Context.{undefined, str}
use hippo_build_x.Db.Names.{is_safe_schema_name, is_tenant_id}
use hippo_build_x.Auth.Tables.{UserRow, Store}
use hippo_build_x.Auth.Sessions.{tenant_sql, live_roles, login_with_password}
use hippo_build_x.Auth.Reset.{is_open_of, revoke_open, revoke_all_user_sessions}
use hippo_build_x.Admin.Users.{
  Caller, UserPatch, insert_user_role, patched, update_user, revoke_if_ended, replace_role,
  check_patch, write_patch, patch_user,
}
use hippo_build_x.Admin.Users.Lockout.{NoRequest, patch_user-locks}
use hippo_build_x.Admin.Users.Replacement.{patch_user-roles}
use hippo_build_x.Admin.Users.Create.{NewUser, insert_user, first_role, add_user, post_user}
use hippo_build_x.Admin.Users.Create.Login.{IsLogin, post_user-IsLogin}
use hippo_build_x.Tests.Auth.{tenant_id, tenant, user, session, store, world, client}

abbrev caller : Caller
caller = record { tenant_id = tenant_id; schema_name = "tenant_acme" }

abbrev hash : String → String
hash p = p

abbrev suspend : UserPatch
suspend = record {
  name = undefined;
  email = undefined;
  status = str "suspended";
  password = none;
  role_id = none;
  project_id = none;
  location_id = none;
}

abbrev suspended : UserRow
suspended = record user { status = "suspended" }

abbrev locked : Store
locked = record store {
  users = suspended ∷ [];
  sessions = record session { revoked_at = some 50 } ∷ [];
}

suspends : patch_user hash caller "u1" suspend store ≡ (ok (some suspended), locked)
unfolding patch_user check_patch write_patch update_user patched revoke_if_ended replace_role
    revoke_all_user_sessions revoke_open tenant_sql is_safe_schema_name is_tenant_id
suspends = refl

patch_user-locks_example :
    NoRequest tenant_id "u1" locked × (any (is_open_of tenant_id "u1") locked.sessions ≡ false)
patch_user-locks_example =
    patch_user-locks hash caller "u1" suspend refl store locked (some suspended) suspends

abbrev promote : String → UserPatch
promote role_id = record suspend { status = undefined; role_id = some role_id }

abbrev answer : Result (Option UserRow) × Store
answer = patch_user hash caller "u1" (promote "r9") store

patch_user-roles_example :
    (answer.0 ≡ err (other "violates foreign key constraint"))
    × (live_roles tenant_id "u1" answer.1.user_roles ≡ [])
patch_user-roles_example =
    patch_user-roles hash caller "u1" (promote "r9") user "r9" store refl refl refl

abbrev request : NewUser
request = record {
  name = some "B";
  email = some "b@b.c";
  password = some "pw2";
  status = none;
  role_id = some "r1";
  project_id = none;
  location_id = none;
}

abbrev second : UserRow
second = record {
  tenant_id = tenant_id;
  id = "s2";
  email = "b@b.c";
  name = "B";
  status = "active";
  password_hash = "pw2";
  deleted = false;
}

abbrev created : Store
created = (post_user world hash caller request store).1

creates : post_user world hash caller request store ≡ (ok second, created)
unfolding post_user add_user insert_user first_role insert_user_role
creates = refl

bound : tenant_sql "tenant_acme" tenant_id ≡ ok tt
unfolding tenant_sql is_safe_schema_name is_tenant_id
bound = refl

post_user-IsLogin_example :
    IsLogin "s2" (login_with_password world (tenant ∷ []) "acme" "b@b.c" "pw2" "new" client created)
post_user-IsLogin_example =
    post_user-IsLogin world hash tenant request (tenant ∷ []) "acme" "b@b.c" "pw2" "new" client
      store created second refl refl bound refl refl refl refl creates refl
