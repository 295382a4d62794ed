-- ===== src/Auth/Sessions/Rotation.antt =====
-- A refresh token works once.
use hippo_build_x.Prelude.{
  ℕ, String, ◌≡◌, ◌≢◌, refl, sym, ap, subst, ◌∙◌, ◌⊎◌, inl, inr, true, ◌&&◌, Option, none, some,
  List, [], ◌∷◌, ◌++◌, find, find-update, find-append, find-holds, ltb, arith, Bool-cases, ◌==◌,
  eq_refl,
}
use hippo_build_x.Prelude.Effect.{Result, ok, err, Result-cases, bind_result, Thrown}
use mathlib.Core.Option.{some-injective}
use hippo_build_x.Shared.Errors.{unauthorized}
use hippo_build_x.Auth.RefreshToken.{parse_refresh_token}
use hippo_build_x.Auth.Tables.{TenantRow, SessionRow, Store, is_set, at_time}
use hippo_build_x.Auth.Sessions.{
  External, Meta, Authz, Issued, tenant_sql, load_user_authz, new_session, issue_session, revoke,
  issue_for, rotate_session, is_session, rotate_for, is_tenant, rotate_refresh_token,
}

module _ (x : External) where
  -- The first session with the hash is revoked.
  pub record IsSpent (tenant_id hash : String) (s : Store) : Type 0 where
    pub row : SessionRow
    pub found : find (is_session x tenant_id hash) s.sessions ≡ some row
    pub revoked : is_set row.revoked_at ≡ true

  -- The sessions of the second store are those of the first, perhaps with one more.
  abbrev Adds : Store → Store → Type 0
  Adds s s' =
      (s'.sessions ≡ s.sessions) ⊎ ((row : SessionRow) × (s'.sessions ≡ s.sessions ++ row ∷ []))

  issue_session-Adds :
      (t : TenantRow) (user_id raw : String) (meta : Meta) (s : Store)
      → Adds s (issue_session x t user_id raw meta s).1
  unfolding issue_session
  issue_session-Adds t user_id raw meta s = elim (Result-cases (tenant_sql t.schema_name t.id)) [
    | inl (_, fine) ↦ rw fine (inr (new_session x t.id user_id raw meta s, refl))
    | inr (e, refused) ↦ rw refused (inl refl)
  ]

  pub issue_for-Adds :
      (t : TenantRow) (a : Result (Option Authz)) (raw : String) (meta : Meta) (s : Store)
      → Adds s (issue_for x t a raw meta s).1
  unfolding issue_for
  issue_for-Adds t (err e) raw meta s = inl refl
  issue_for-Adds t (ok none) raw meta s = inl refl
  issue_for-Adds t (ok (some a)) raw meta s =
      same_state (issue_session x t a.user_id raw meta s)
        (issue_session-Adds t a.user_id raw meta s)
    where
      same_state :
          (r : Result Issued × Store)
          → Adds s r.1
          → Adds s (bind_result {B = Authz × Issued} r (λ issued s'. (ok (a, issued), s'))).1
      same_state (ok i, s') h = h
      same_state (err e, s') h = h

  -- A row that was revoked stays the first with its hash when a session is added.
  pub Adds-IsSpent :
      (tenant_id hash : String) (s s' : Store)
      → Adds s s'
      → IsSpent tenant_id hash s
      → IsSpent tenant_id hash s'
  Adds-IsSpent tenant_id hash s s' (inl same) h = record {
    row = h.row;
    found = ap (find (is_session x tenant_id hash)) same ∙ h.found;
    revoked = h.revoked;
  }
  Adds-IsSpent tenant_id hash s s' (inr (row, more)) h = record {
    row = h.row;
    found =
        ap (find (is_session x tenant_id hash)) more
        ∙ find-append (is_session x tenant_id hash) s.sessions (row ∷ []) h.row h.found;
    revoked = h.revoked;
  }

  revoke-IsSpent :
      (tenant_id hash : String) (row : SessionRow) (s : Store)
      → find (is_session x tenant_id hash) s.sessions ≡ some row
      → IsSpent tenant_id hash (revoke x tenant_id row.id s)
  revoke-IsSpent tenant_id hash row s e = record {
    row = record row { revoked_at = some s.now };
    found =
        find-update (is_session x tenant_id hash) (λ r. r.tenant_id == tenant_id && r.id == row.id)
          (λ r. record r { revoked_at = some s.now }) s.sessions row (λ r. refl) e
        ∙ rw own;
    revoked = refl;
  }
    where
      own : (row.tenant_id == tenant_id && row.id == row.id) ≡ true
      own =
          ground (arith, eq_refl row.id, find-holds (is_session x tenant_id hash) s.sessions row e)

  rotate_session-IsSpent :
      (t : TenantRow) (hash : String) (found : Option SessionRow) (raw : String) (meta : Meta)
      (s s' : Store) (out : Authz × Issued)
      → find (is_session x t.id hash) s.sessions ≡ found
      → rotate_session x t found raw meta s ≡ (ok out, s')
      → IsSpent t.id hash s'
  unfolding rotate_session
  rotate_session-IsSpent t hash none raw meta s s' out e h = cc
  rotate_session-IsSpent t hash (some row) raw meta s s' out e h =
      elim (Bool-cases (is_set row.revoked_at)) [
        | inl set ↦ absurd (failed (rw set at h))
        | inr open' ↦ elim (Bool-cases (ltb row.expires_at s.now)) [
          | inl late ↦ absurd (failed (rw (open', late) at h))
          | inr current ↦
              let s1 = revoke x t.id row.id s in
              let a = load_user_authz t.schema_name row.user_id t.id s1 in
              let k =
                Adds-IsSpent t.id hash s1 (issue_for x t a raw meta s1).1
                  (issue_for-Adds t a raw meta s1) (revoke-IsSpent t.id hash row s e) in
              subst (IsSpent t.id hash) (ap (λ r. r.1) (rw (open', current) at h)) k
        ]
      ]
    where
      Failure : Result (Authz × Issued) × Store → Type 0
      Failure r = ¬ (r ≡ (ok out, s'))

      failed : {m : String} → Failure (err (unauthorized m), s)
      failed h = cc

  -- A token whose first session is revoked is refused as reused, and the store stays as it is.
  pub rotate_session-refuses :
      (t : TenantRow) (hash : String) (found : Option SessionRow) (raw : String) (meta : Meta)
      (s : Store)
      → find (is_session x t.id hash) s.sessions ≡ found
      → IsSpent t.id hash s
      → rotate_session x t found raw meta s ≡ (err (unauthorized "Refresh token reuse detected"), s)
  unfolding rotate_session
  rotate_session-refuses t hash none raw meta s e h = absurd (missing (sym e ∙ h.found))
    where
      missing : ◌≢◌ {A = Option SessionRow} none (some h.row)
      missing k = cc
  rotate_session-refuses t hash (some row) raw meta s e h = rw set
    where
      set : is_set row.revoked_at ≡ true
      set = subst (λ r. is_set r.revoked_at ≡ true) (some-injective _ _ (sym h.found ∙ e)) h.revoked

  rotate_for-once :
      (found : Option TenantRow) (body raw raw' : String) (meta meta' : Meta) (s s' : Store)
      (out : Authz × Issued) (later : ℕ)
      → rotate_for x found body raw meta s ≡ (ok out, s')
      → rotate_for x found body raw' meta' (at_time later s')
        ≡ (err (unauthorized "Refresh token reuse detected"), at_time later s')
  unfolding rotate_for
  rotate_for-once none body raw raw' meta meta' s s' out later h = cc
  rotate_for-once (some t) body raw raw' meta meta' s s' out later h =
      elim (Bool-cases (t.status == "active")) [
        | inr idle ↦ absurd (failed (rw idle at h))
        | inl active ↦ elim (Result-cases (tenant_sql t.schema_name t.id)) [
          | inr (e, refused) ↦ absurd (failed (rw (active, refused) at h))
          | inl (_, fine) ↦
              let spent =
                rotate_session-IsSpent t (x.hash_token body) _ raw meta s s' out refl
                  (rw (active, fine) at h) in
              rw (active, fine)
                (rotate_session-refuses t (x.hash_token body) _ raw' meta' (at_time later s') refl
                  (record { row = spent.row; found = spent.found; revoked = spent.revoked }))
        ]
      ]
    where
      Failure : Result (Authz × Issued) × Store → Type 0
      Failure r = ¬ (r ≡ (ok out, s'))

      failed : {e : Thrown} → Failure (err e, s)
      failed h = cc

  -- Once a refresh token has been exchanged, a second use of it is refused as a reuse at any later
  -- time, whatever token and client it asks with, and changes nothing.
  pub rotate_refresh_token-once :
      (tenants : List TenantRow) (token raw raw' : String) (meta meta' : Meta) (s s' : Store)
      (out : Authz × Issued) (later : ℕ)
      → rotate_refresh_token x tenants token raw meta s ≡ (ok out, s')
      → rotate_refresh_token x tenants token raw' meta' (at_time later s')
        ≡ (err (unauthorized "Refresh token reuse detected"), at_time later s')
  unfolding rotate_refresh_token
  rotate_refresh_token-once tenants token raw raw' meta meta' s s' out later h =
      elim (Result-cases (parse_refresh_token token)) [
        | inr (e, bad) ↦ absurd (failed (rw bad at h))
        | inl (p, good) ↦ rw good (
            rotate_for-once (find (is_tenant x p.tenant_id) tenants) p.token_body raw raw' meta
              meta' s s' out later (rw good at h))
      ]
    where
      Failure : Result (Authz × Issued) × Store → Type 0
      Failure r = ¬ (r ≡ (ok out, s'))

      failed : {e : Thrown} → Failure (err e, s)
      failed h = cc
