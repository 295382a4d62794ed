-- ===== src/Auth/Reset/Laws.antt =====
-- What a reset of a password does to sessions and to its own token.
use hippo_build_x.Prelude.{
  ℕ, String, ◌≡◌, refl, sym, inl, inr, ap, ◌∙◌, true, false, ◌&&◌, ◌||◌, Option, none, some, List,
  [], ◌∷◌, any, find, find-update, find-holds, ltb, arith, Bool-cases, if◌then◌else◌, ◌==◌, eq_iff,
  eq_refl,
}
use hippo_build_x.Prelude.Effect.{Result, ok, err, Result-cases, Thrown}
use mathlib.Core.Option.{some-injective}
use hippo_build_x.Shared.Errors.{unauthorized}
use hippo_build_x.Auth.Tables.{TenantRow, SessionRow, ResetRow, Store, is_set, at_time}
use hippo_build_x.Auth.Sessions.{External, Meta, tenant_sql, is_session, rotate_session}
use hippo_build_x.Auth.Sessions.Rotation.{IsSpent, rotate_session-refuses}
use hippo_build_x.Auth.Reset.{
  is_open_of, revoked_at_time, revoke_open, set_password, set_used, invalid_reset, apply_reset,
  is_reset, reset_password_with_token,
}

pub none_open :
    (tenant_id user_id : String) (now : ℕ) (rows : List SessionRow)
    → any (is_open_of tenant_id user_id) (revoke_open tenant_id user_id now rows) ≡ false
unfolding revoke_open
none_open tenant_id user_id now [] = refl
none_open tenant_id user_id now (r ∷ rows) = ground (arith, none_open tenant_id user_id now rows)

module _ (x : External) where
  -- The row of a token that was used.
  record IsUsed (tenant_id hash : String) (s : Store) : Type 0 where
    pub row : ResetRow
    pub found : find (is_reset x tenant_id hash) s.resets ≡ some row
    pub used : is_set row.used_at ≡ true

  apply_reset-refuses :
      (tenant_id hash password_hash : String) (found : Option ResetRow) (s : Store)
      → find (is_reset x tenant_id hash) s.resets ≡ found
      → IsUsed tenant_id hash s
      → apply_reset tenant_id found password_hash s ≡ (err invalid_reset, s)
  unfolding apply_reset
  apply_reset-refuses tenant_id hash password_hash none s e h = refl
  apply_reset-refuses tenant_id hash password_hash (some row) s e h =
      ground (arith, sym h.found ∙ e, h.used)

  -- The first row of a token is used up by the UPDATE with its id.
  set_used-IsUsed :
      (tenant_id hash : String) (row : ResetRow) (s s' : Store)
      → find (is_reset x tenant_id hash) s.resets ≡ some row
      → s'.resets ≡ set_used tenant_id row.id s.now s.resets
      → IsUsed tenant_id hash s'
  set_used-IsUsed tenant_id hash row s s' e same = record {
    row = record row { used_at = some s.now };
    found =
        ap (find (is_reset x tenant_id hash)) same
        ∙ find-update (is_reset x tenant_id hash) (λ r. r.tenant_id == tenant_id && r.id == row.id)
            (λ r. record r { used_at = some s.now }) s.resets row (λ r. refl) e
        ∙ rw own;
    used = refl;
  }
    where
      own : (row.tenant_id == tenant_id && row.id == row.id) ≡ true
      own = ground (arith, eq_refl row.id, find-holds (is_reset x tenant_id hash) s.resets row e)

  -- What a reset that went through has done.
  record Done (tenant_id hash password_hash : String) (s s' : Store) : Type 0 where
    pub row : ResetRow
    pub found : find (is_reset x tenant_id hash) s.resets ≡ some row
    pub fresh : (is_set row.used_at || ltb row.expires_at s.now) ≡ false
    pub users : s'.users ≡ set_password tenant_id row.user_id password_hash s.users
    pub resets : s'.resets ≡ set_used tenant_id row.id s.now s.resets
    pub sessions : s'.sessions ≡ revoke_open tenant_id row.user_id s.now s.sessions

  apply_reset-Done :
      (tenant_id hash password_hash : String) (found : Option ResetRow) (s s' : Store)
      → find (is_reset x tenant_id hash) s.resets ≡ found
      → apply_reset tenant_id found password_hash s ≡ (ok tt, s')
      → Done tenant_id hash password_hash s s'
  unfolding apply_reset
  apply_reset-Done tenant_id hash password_hash none s s' e h = cc
  apply_reset-Done tenant_id hash password_hash (some row) s s' e h =
      elim (Bool-cases (is_set row.used_at || ltb row.expires_at s.now)) [
        | inl bad ↦ absurd (failed (rw bad at h))
        | inr good ↦
            let k = ap (λ r. r.1) (rw good at h) in
            record {
              row = row;
              found = e;
              fresh = good;
              users = ap (λ t. t.users) (sym k);
              resets = ap (λ t. t.resets) (sym k);
              sessions = ap (λ t. t.sessions) (sym k);
            }
      ]
    where
      Failure : Result (Unit {0}) × Store → Type 0
      Failure r = ¬ (r ≡ (ok tt, s'))

      failed : {e : Thrown} → Failure (err e, s)
      failed h = cc

  reset-Done :
      (schema_name tenant_id token password_hash : String) (s s' : Store)
      → reset_password_with_token x schema_name tenant_id token password_hash s ≡ (ok tt, s')
      → Done tenant_id (x.hash_token token) password_hash s s'
        × (tenant_sql schema_name tenant_id ≡ ok tt)
  unfolding reset_password_with_token
  reset-Done schema_name tenant_id token password_hash s s' h =
      elim (Result-cases (tenant_sql schema_name tenant_id)) [
        | inr (e, refused) ↦ absurd (failed (rw refused at h))
        | inl (_, fine) ↦ (
          apply_reset-Done tenant_id (x.hash_token token) password_hash _ s s' refl (rw fine at h),
          fine,
        )
      ]
    where
      Failure : Result (Unit {0}) × Store → Type 0
      Failure r = ¬ (r ≡ (ok tt, s'))

      failed : {e : Thrown} → Failure (err e, s)
      failed h = cc

  -- A reset that goes through leaves the user of its token no session that is not revoked, and gives
  -- that user the new password hash; the token was neither used nor expired.
  pub reset_password-effects :
      (schema_name tenant_id token password_hash : String) (s s' : Store)
      → reset_password_with_token x schema_name tenant_id token password_hash s ≡ (ok tt, s')
      → (row : ResetRow) × (find (is_reset x tenant_id (x.hash_token token)) s.resets ≡ some row)
        × ((is_set row.used_at || ltb row.expires_at s.now) ≡ false)
        × (any (is_open_of tenant_id row.user_id) s'.sessions ≡ false)
        × (s'.users ≡ set_password tenant_id row.user_id password_hash s.users)
  reset_password-effects schema_name tenant_id token password_hash s s' h =
      let (done, _) = reset-Done schema_name tenant_id token password_hash s s' h in
      (
        done.row,
        done.found,
        done.fresh,
        ap (any (is_open_of tenant_id done.row.user_id)) done.sessions
            ∙ none_open tenant_id done.row.user_id s.now s.sessions,
        done.users,
      )

  -- A token that has reset a password is refused at any later time, whatever the new password, and
  -- the refusal changes nothing.
  pub reset_password-once :
      (schema_name tenant_id token password_hash other_hash : String) (s s' : Store) (later : ℕ)
      → reset_password_with_token x schema_name tenant_id token password_hash s ≡ (ok tt, s')
      → reset_password_with_token x schema_name tenant_id token other_hash (at_time later s')
        ≡ (err invalid_reset, at_time later s')
  unfolding reset_password_with_token
  reset_password-once schema_name tenant_id token password_hash other_hash s s' later h =
      let (done, fine) = reset-Done schema_name tenant_id token password_hash s s' h in
      let used =
        set_used-IsUsed tenant_id (x.hash_token token) done.row s (at_time later s') done.found
          done.resets in
      rw fine (
        apply_reset-refuses tenant_id (x.hash_token token) other_hash _ (at_time later s') refl
          used)

  revoke_open-IsSpent :
      (tenant_id hash user_id : String) (session : SessionRow) (s s' : Store)
      → find (is_session x tenant_id hash) s.sessions ≡ some session
      → session.user_id ≡ user_id
      → s'.sessions ≡ revoke_open tenant_id user_id s.now s.sessions
      → IsSpent x tenant_id hash s'
  unfolding revoke_open
  revoke_open-IsSpent tenant_id hash user_id session s s' e u same =
      elim (Bool-cases (is_open_of tenant_id user_id session)) [
        | inl opened ↦ record {
          row = revoked_at_time s.now session;
          found = found ∙ rw opened;
          revoked = refl;
        }
        | inr closed ↦ record { row = session; found = found ∙ rw closed; revoked = set closed }
      ]
    where
      found :
          find (is_session x tenant_id hash) s'.sessions
          ≡ some (
              if is_open_of tenant_id user_id session
              then revoked_at_time s.now session
              else session)
      found =
          ap (find (is_session x tenant_id hash)) same
          ∙ find-update (is_session x tenant_id hash) (is_open_of tenant_id user_id)
              (revoked_at_time s.now) s.sessions session (λ r. refl) e

      set : is_open_of tenant_id user_id session ≡ false → is_set session.revoked_at ≡ true
      set closed = ground (
        arith,
        closed,
        eq_iff session.user_id user_id,
        find-holds (is_session x tenant_id hash) s.sessions session e,
      )

  -- After a reset, a refresh token of a session that its user had is refused as a reuse.
  pub reset_password-ends_sessions :
      (schema_name token password_hash hash raw : String) (meta : Meta) (t : TenantRow)
      (row : ResetRow) (session : SessionRow) (s s' : Store)
      → find (is_reset x t.id (x.hash_token token)) s.resets ≡ some row
      → find (is_session x t.id hash) s.sessions ≡ some session
      → session.user_id ≡ row.user_id
      → reset_password_with_token x schema_name t.id token password_hash s ≡ (ok tt, s')
      → rotate_session x t (find (is_session x t.id hash) s'.sessions) raw meta s'
        ≡ (err (unauthorized "Refresh token reuse detected"), s')
  reset_password-ends_sessions schema_name token password_hash hash raw meta t row session s s' f g
        u h =
      rotate_session-refuses x t hash _ raw meta s' refl spent
    where
      done : Done t.id (x.hash_token token) password_hash s s'
      done = (reset-Done schema_name t.id token password_hash s s' h).0

      spent : IsSpent x t.id hash s'
      spent =
          revoke_open-IsSpent t.id hash done.row.user_id session s s' g
            (u ∙ ap (λ r. r.user_id) (some-injective _ _ (sym f ∙ done.found))) done.sessions
