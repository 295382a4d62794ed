-- ===== src/Tests/Auth/Reset.antt =====
-- Resets of passwords on a concrete store.
use hippo_build_x.Prelude.{◌≡◌, refl, false, none, some, [], ◌∷◌, find}
use hippo_build_x.Prelude.Effect.{ok, err}
use hippo_build_x.Shared.Errors.{unauthorized}
use hippo_build_x.Db.Names.{is_safe_schema_name, is_tenant_id}
use hippo_build_x.Auth.Tables.{ResetRow, Store, at_time}
use hippo_build_x.Auth.Sessions.{tenant_sql, is_session, rotate_session}
use hippo_build_x.Auth.Reset.{
  revoke_open, invalid_reset, apply_reset, insert_reset, create_password_reset_token,
  reset_password_with_token, revoke_session, revoke_all_user_sessions,
}
use hippo_build_x.Auth.Reset.Laws.{reset_password-ends_sessions}
use hippo_build_x.Tests.Auth.{tenant_id, world, tenant, user, session, store, client}

abbrev row : ResetRow
row = record {
  tenant_id = tenant_id;
  id = "s2";
  user_id = "u1";
  token_hash = "h:reset";
  expires_at = 3600050;
  used_at = none;
  deleted = false;
}

abbrev asked : Store
asked = record store { resets = row ∷ []; serial = 1 }

abbrev done : Store
done = record store {
  users = record user { password_hash = "pw2" } ∷ [];
  sessions = record session { revoked_at = some 50 } ∷ [];
  resets = record row { used_at = some 50 } ∷ [];
  serial = 1;
}

reset_runs :
    (create_password_reset_token world "tenant_acme" tenant_id "a@b.c" "reset" store
      ≡ (ok (some ("reset", 3600050)), asked))
    × (create_password_reset_token world "tenant_acme" tenant_id "nobody" "reset" store
        ≡ (ok none, store))
    × (reset_password_with_token world "tenant_acme" tenant_id "reset" "pw2" (at_time 3600051 asked)
        ≡ (err invalid_reset, at_time 3600051 asked))
    × (revoke_session world "tenant_acme" tenant_id "s1" store
        ≡ revoke_all_user_sessions "tenant_acme" tenant_id "u1" store)
unfolding create_password_reset_token insert_reset reset_password_with_token apply_reset
    revoke_session revoke_all_user_sessions tenant_sql is_safe_schema_name is_tenant_id
reset_runs = (refl, refl, refl, refl)

reset_done :
    reset_password_with_token world "tenant_acme" tenant_id "reset" "pw2" asked ≡ (ok tt, done)
unfolding reset_password_with_token apply_reset revoke_open tenant_sql is_safe_schema_name
    is_tenant_id
reset_done = refl

reset_password-ends_sessions_example :
    rotate_session world tenant
      (find (is_session world tenant_id "h:old") done.sessions)
      "new"
      client
      done
    ≡ (err (unauthorized "Refresh token reuse detected"), done)
reset_password-ends_sessions_example =
    reset_password-ends_sessions world "tenant_acme" "reset" "pw2" "h:old" "new" client tenant row
      session asked done refl refl refl reset_done
