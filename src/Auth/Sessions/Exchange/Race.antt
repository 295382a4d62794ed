-- ===== src/Auth/Sessions/Exchange/Race.antt =====
-- Two exchanges of one token that interleave.
use hippo_build_x.Prelude.{
  List, [], ◌∷◌, ◌++◌, suc, subst, ℕ, String, ◌≡◌, refl, sym, ap, true, false, some, find, ltb,
  ◌==◌,
}
use hippo_build_x.Prelude.Effect.{ok}
use hippo_build_x.Auth.RefreshToken.{format_refresh_token}
use hippo_build_x.Auth.Tables.{TenantRow, UserRow, SessionRow, Store, is_set}
use hippo_build_x.Auth.Sessions.{
  External, new_session, revoke, Meta, Authz, Issued, tenant_sql, is_user, authz_of, issue_session,
  issue_for, is_session,
}
use hippo_build_x.Auth.Sessions.Exchange.{
  Progress, checking, revoking, loading, loading_roles, issuing, done, Exchange, checked_session,
  advance, Shared, move_first, move_second, Follows, stop, by_first, by_second,
}

abbrev pub Succeeds : Progress → Type 0
Succeeds p = (out : Authz × Issued) × (p ≡ done (ok out))

abbrev pub new_exchange : String → Meta → Exchange
new_exchange raw meta = record { progress = checking; raw = raw; meta = meta }

module _ (x : External) (t : TenantRow) (hash : String) where
  abbrev pub two : String → String → Meta → Meta → Store → Shared x t hash
  two raw raw' meta meta' s = record {
    first = new_exchange raw meta;
    second = new_exchange raw' meta';
    store = s;
  }

  -- A step whose outcome is known.
  first_to :
      {c d c' : Shared x t hash}
      → move_first x t hash c ≡ d
      → Follows x t hash d c'
      → Follows x t hash c c'
  first_to {c' = c'} e next = by_first (subst (λ b. Follows x t hash b c') (sym e) next)

  second_to :
      {c d c' : Shared x t hash}
      → move_second x t hash c ≡ d
      → Follows x t hash d c'
      → Follows x t hash c c'
  second_to {c' = c'} e next = by_second (subst (λ b. Follows x t hash b c') (sym e) next)

  module _ (row : SessionRow) (a : Authz) (s : Store) where
    -- The tables after an INSERT of a session, and what the exchange returns.
    abbrev pub after_issue : String → Meta → Store → (Authz × Issued) × Store
    after_issue raw meta s' =
        let new = new_session x t.id a.user_id raw meta s' in
        (
          (
            a,
            record {
              access_token =
                  x.sign_access_token
                    (record { sub = a.user_id; tenant_id = t.id; sid = new.id; scope = "tenant" });
              refresh_token = format_refresh_token t.id raw;
              session_id = new.id;
              expires_at = new.expires_at;
            },
          ),
          record s' { sessions = s'.sessions ++ new ∷ []; serial = suc s'.serial },
        )

    issued :
        (raw : String) (meta : Meta) (s' : Store)
        → tenant_sql t.schema_name t.id ≡ ok tt
        → advance x t hash (issuing (ok (some a))) raw meta s'
          ≡ (done (ok (after_issue raw meta s').0), (after_issue raw meta s').1)
    unfolding advance issue_for issue_session
    issued raw meta s' fine = rw fine refl

    passes :
        (raw : String) (meta : Meta)
        → find (is_session x t.id hash) s.sessions ≡ some row
        → is_set row.revoked_at ≡ false
        → ltb row.expires_at s.now ≡ false
        → advance x t hash checking raw meta s ≡ (revoking row, s)
    unfolding advance checked_session
    passes raw meta found open' current = rw found (rw (open', current) refl)

    -- The user and the roles are loaded from tables that exchanges do not change.
    loads :
        (u : UserRow) (raw : String) (meta : Meta) (sessions : List SessionRow) (serial : ℕ)
        → tenant_sql t.schema_name t.id ≡ ok tt
        → find (is_user t.id row.user_id) s.users ≡ some u
        → (u.status == "active") ≡ true
        → let s' = record s { sessions = sessions; serial = serial } in
          advance x t hash (loading row) raw meta s' ≡ (loading_roles u, s')
    unfolding advance
    loads u raw meta sessions serial fine user active = rw (fine, user, active) refl

  module _ (raw raw' : String) (meta meta' : Meta) where
    -- The two exchanges where they stand.
    abbrev both : Progress → Progress → Store → Shared x t hash
    both p p' s = record {
      first = record { progress = p; raw = raw; meta = meta };
      second = record { progress = p'; raw = raw'; meta = meta' };
      store = s;
    }

    first_does :
        {p q : Progress} {s s' : Store} (p' : Progress)
        → advance x t hash p raw meta s ≡ (q, s')
        → (c : Shared x t hash) → Follows x t hash (both q p' s') c
        → Follows x t hash (both p p' s) c
    first_does p' e c = first_to (ap (λ o. both o.0 p' o.1) e)

    second_does :
        {p q : Progress} {s s' : Store} (p' : Progress)
        → advance x t hash p raw' meta' s ≡ (q, s')
        → (c : Shared x t hash) → Follows x t hash (both p' q s') c
        → Follows x t hash (both p' p s) c
    second_does p' e c = second_to (ap (λ o. both p' o.0 o.1) e)

    -- When a token is good, its tenant's schema name is safe and its user is active, two exchanges of
    -- the token can interleave so that both of them succeed.
    pub two-Succeed :
        (s : Store) (row : SessionRow) (u : UserRow)
        → find (is_session x t.id hash) s.sessions ≡ some row
        → is_set row.revoked_at ≡ false
        → ltb row.expires_at s.now ≡ false
        → tenant_sql t.schema_name t.id ≡ ok tt
        → find (is_user t.id row.user_id) s.users ≡ some u
        → (u.status == "active") ≡ true
        → (c : Shared x t hash) × Follows x t hash (two raw raw' meta meta' s) c
          × Succeeds c.first.progress
          × Succeeds c.second.progress
    unfolding advance
    two-Succeed s row u found open' current fine user active =
        let a = authz_of s t.id u in
        let s1 = revoke x t.id row.id s in
        let (out, s2) = after_issue row a s raw meta s1 in
        let s3 = revoke x t.id row.id s2 in
        let (out', s4) = after_issue row a s raw' meta' s3 in
        let end = both (done (ok out)) (done (ok out')) s4 in
        let load = loads row a s u raw meta s1.sessions s1.serial fine user active in
        let load' = loads row a s u raw' meta' s3.sessions s3.serial fine user active in
        (
          end,
          first_does checking (passes row a s raw meta found open' current) end (
              second_does (revoking row) (passes row a s raw' meta' found open' current) end (
                first_does {s' = s1} (revoking row) refl end (
                  first_does (revoking row) load end (
                    first_does {s' = s1} (revoking row) refl end (
                      first_does (revoking row) (issued row a s raw meta s1 fine) end (
                        second_does {s' = s3} (done (ok out)) refl end (
                          second_does (done (ok out)) load' end (
                            second_does {s' = s3} (done (ok out)) refl end (
                              second_does (done (ok out)) (issued row a s raw' meta' s3 fine) end
                                stop))))))))),
          (out, refl),
          (out', refl),
        )
