-- ===== src/Auth/Sessions/Exchange/Late.antt =====
-- An exchange that begins after the session of its token was revoked.
use hippo_build_x.Prelude.{
  ℕ, String, ◌≡◌, refl, ◌⊎◌, inl, inr, Bool, ◌&&◌, some, find-update, Bool-cases, if◌then◌else◌,
  ◌==◌,
}
use hippo_build_x.Prelude.Effect.{err}
use hippo_build_x.Shared.Errors.{unauthorized}
use hippo_build_x.Auth.Tables.{TenantRow, SessionRow, Store, at_time}
use hippo_build_x.Auth.Sessions.{External, Meta, revoke, issue_for, is_session}
use hippo_build_x.Auth.Sessions.Rotation.{IsSpent, issue_for-Adds, Adds-IsSpent}
use hippo_build_x.Auth.Sessions.Exchange.{
  Progress, checking, revoking, loading, loading_roles, issuing, done, checked_session, advance,
  Shared, Follows, stop, by_first, by_second, later,
}

abbrev pub reused : Progress
reused = done (err (unauthorized "Refresh token reuse detected"))

-- An exchange that has not begun, or was refused.
abbrev pub IsBarred : Progress → Type 0
IsBarred p = (p ≡ checking) ⊎ (p ≡ reused)

module _ (x : External) (t : TenantRow) (hash : String) where
  revoke-keeps :
      (id : String) (s : Store) → IsSpent x t.id hash s → IsSpent x t.id hash (revoke x t.id id s)
  revoke-keeps id s h = record {
    row = if hit then revoked_row else h.row;
    found =
        find-update (is_session x t.id hash) (λ r. r.tenant_id == t.id && r.id == id)
          (λ r. record r { revoked_at = some s.now }) s.sessions h.row (λ r. refl) h.found;
    revoked = elim (Bool-cases hit) [ inl here ↦ rw here refl | inr there ↦ rw there h.revoked ];
  }
    where
      hit : Bool
      hit = h.row.tenant_id == t.id && h.row.id == id

      revoked_row : SessionRow
      revoked_row = record h.row { revoked_at = some s.now }

  -- No step of an exchange makes a spent token good again.
  advance-IsSpent :
      (p : Progress) (raw : String) (meta : Meta) (s : Store)
      → IsSpent x t.id hash s
      → IsSpent x t.id hash (advance x t hash p raw meta s).1
  unfolding advance
  advance-IsSpent checking raw meta s h = h
  advance-IsSpent (revoking row) raw meta s h = revoke-keeps row.id s h
  advance-IsSpent (loading row) raw meta s h = h
  advance-IsSpent (loading_roles u) raw meta s h = h
  advance-IsSpent (issuing a) raw meta s h =
      Adds-IsSpent x t.id hash s (issue_for x t a raw meta s).1 (issue_for-Adds x t a raw meta s) h
  advance-IsSpent (done r) raw meta s h = h

  advance-IsBarred :
      (p : Progress) (raw : String) (meta : Meta) (s : Store)
      → IsSpent x t.id hash s
      → IsBarred p
      → IsBarred (advance x t hash p raw meta s).0
  unfolding advance checked_session
  advance-IsBarred p raw meta s h (inl e) = inr (rw e (rw h.found (rw h.revoked refl)))
  advance-IsBarred p raw meta s h (inr e) = inr (rw e refl)

  time-IsSpent : (now : ℕ) (s : Store) → IsSpent x t.id hash s → IsSpent x t.id hash (at_time now s)
  time-IsSpent now s h = record { row = h.row; found = h.found; revoked = h.revoked }

  -- In any order of the transactions of two exchanges of one token, and at any times: once the session
  -- of the token is revoked it stays so, and the second exchange, when it has not read the session by
  -- then, has not begun or is refused as a reuse ever after.
  pub Follows-IsBarred :
      (c c' : Shared x t hash)
      → Follows x t hash c c'
      → IsSpent x t.id hash c.store
      → IsBarred c.second.progress
      → IsSpent x t.id hash c'.store × IsBarred c'.second.progress
  Follows-IsBarred c c' stop spent barred = (spent, barred)
  Follows-IsBarred c c' (by_first next) spent barred =
      Follows-IsBarred _ c' next
        (advance-IsSpent c.first.progress c.first.raw c.first.meta c.store spent) barred
  Follows-IsBarred c c' (by_second next) spent barred =
      Follows-IsBarred _ c' next
        (advance-IsSpent c.second.progress c.second.raw c.second.meta c.store spent)
        (advance-IsBarred c.second.progress c.second.raw c.second.meta c.store spent barred)
  Follows-IsBarred c c' (later now next) spent barred =
      Follows-IsBarred _ c' next (time-IsSpent now c.store spent) barred
