-- ===== src/Auth/Reset.antt =====
-- session-service.js: resets of passwords, and the revocation of sessions. The token that
-- `generateToken` draws and the hash that `hashPassword` makes with its salt are arguments.
pub mod Laws
use hippo_build_x.Prelude.{
  ℕ, suc, ◌+◌, String, Bool, true, false, not, ◌&&◌, ◌||◌, Option, none, some, List, [], ◌∷◌, ◌++◌,
  find, update, ltb, if◌then◌else◌, ◌==◌,
}
use hippo_build_x.Prelude.Effect.{Result, ok, err, Thrown, bind_result}
use hippo_build_x.Shared.Errors.{validation}
use hippo_build_x.Auth.Tables.{UserRow, SessionRow, ResetRow, Store, is_set}
use hippo_build_x.Auth.Sessions.{External, tenant_sql, revoke}

abbrev pub is_open_of : String → String → SessionRow → Bool
is_open_of tenant_id user_id r =
    r.tenant_id == tenant_id && (r.user_id == user_id && not (is_set r.revoked_at))

abbrev pub revoked_at_time : ℕ → SessionRow → SessionRow
revoked_at_time now r = record r { revoked_at = some now }

-- `UPDATE sessions SET revoked_at = NOW() WHERE user_id = $1 AND revoked_at IS NULL`
unfoldable pub revoke_open : String → String → ℕ → List SessionRow → List SessionRow
revoke_open tenant_id user_id now rows =
    update (is_open_of tenant_id user_id) (revoked_at_time now) rows

abbrev pub set_password : String → String → String → List UserRow → List UserRow
set_password tenant_id id hash users =
    update (λ u. u.tenant_id == tenant_id && u.id == id) (λ u. record u { password_hash = hash })
      users

abbrev pub set_used : String → String → ℕ → List ResetRow → List ResetRow
set_used tenant_id id now resets =
    update (λ r. r.tenant_id == tenant_id && r.id == id) (λ r. record r { used_at = some now })
      resets

abbrev pub invalid_reset : Thrown
invalid_reset = validation "Invalid or expired reset token"

-- The transaction of `resetPasswordWithToken`, from the row that its SELECT finds.
unfoldable pub apply_reset : String → Option ResetRow → String → Store → Result (Unit {0}) × Store
apply_reset tenant_id none password_hash s = (err invalid_reset, s)
apply_reset tenant_id (some reset) password_hash s =
    if is_set reset.used_at || ltb reset.expires_at s.now then (err invalid_reset, s) else (
      ok tt,
      record s {
        users = set_password tenant_id reset.user_id password_hash s.users;
        resets = set_used tenant_id reset.id s.now s.resets;
        sessions = revoke_open tenant_id reset.user_id s.now s.sessions;
      },
    )

-- `revokeAllUserSessions`
unfoldable pub revoke_all_user_sessions :
    String → String → String → Store → Result (Unit {0}) × Store
unfolding revoke_open
revoke_all_user_sessions schema_name tenant_id user_id s =
    bind_result (tenant_sql schema_name tenant_id, s)
      (λ _ s. (ok tt, record s { sessions = revoke_open tenant_id user_id s.now s.sessions }))

module _ (x : External) where
  open x use {hash_token, lower, uuid}

  abbrev pub is_active_login : String → String → UserRow → Bool
  is_active_login tenant_id email u =
      u.tenant_id == tenant_id
      && (lower u.email == lower email && (u.status == "active" && not u.deleted))

  -- The INSERT of `createPasswordResetToken`; the token lives for an hour.
  abbrev pub new_reset : String → UserRow → String → Store → ResetRow
  new_reset tenant_id u token s = record {
    tenant_id = tenant_id;
    id = uuid s.serial;
    user_id = u.id;
    token_hash = hash_token token;
    expires_at = s.now + 3600000;
    used_at = none;
    deleted = false;
  }

  -- From the user that the SELECT of `createPasswordResetToken` finds.
  unfoldable pub insert_reset :
      String → Option UserRow → String → Store → Result (Option (String × ℕ)) × Store
  insert_reset tenant_id none token s = (ok none, s)
  insert_reset tenant_id (some u) token s = (
    ok (some (token, s.now + 3600000)),
    record s { resets = s.resets ++ new_reset tenant_id u token s ∷ []; serial = suc s.serial },
  )

  unfoldable pub create_password_reset_token :
      String → String → String → String → Store → Result (Option (String × ℕ)) × Store
  create_password_reset_token schema_name tenant_id email token s =
      bind_result (tenant_sql schema_name tenant_id, s)
        (λ _. insert_reset tenant_id (find (is_active_login tenant_id email) s.users) token)

  abbrev pub is_reset : String → String → ResetRow → Bool
  is_reset tenant_id hash r = r.tenant_id == tenant_id && (r.token_hash == hash && not r.deleted)

  unfoldable pub reset_password_with_token :
      String → String → String → String → Store → Result (Unit {0}) × Store
  reset_password_with_token schema_name tenant_id token password_hash s =
      bind_result (tenant_sql schema_name tenant_id, s)
        (λ _.
          apply_reset tenant_id (find (is_reset tenant_id (hash_token token)) s.resets)
            password_hash)

  -- `revokeSession`
  unfoldable pub revoke_session : String → String → String → Store → Result (Unit {0}) × Store
  revoke_session schema_name tenant_id id s =
      bind_result (tenant_sql schema_name tenant_id, s) (λ _ s. (ok tt, revoke x tenant_id id s))
