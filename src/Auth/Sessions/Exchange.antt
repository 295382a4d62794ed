-- ===== src/Auth/Sessions/Exchange.antt =====
-- rotateRefreshToken of apps/web/src/modules/auth/session-service.js, statement by statement: each
-- of its transactions is one step, so that two exchanges of one token may interleave. The tenant has
-- been found and is active.
pub mod Late
pub mod Race
use hippo_build_x.Prelude.{ℕ, String, Option, none, some, find, ltb, if◌then◌else◌, ◌==◌}
use hippo_build_x.Prelude.Effect.{Result, ok, err, app}
use hippo_build_x.Shared.Errors.{unauthorized}
use hippo_build_x.Shared.Errors.ErrorCode
use hippo_build_x.Auth.Tables.{TenantRow, UserRow, SessionRow, Store, is_set, at_time}
use hippo_build_x.Auth.Sessions.{
  External, Meta, Authz, Issued, tenant_sql, is_user, authz_of, revoke, issue_for, is_session,
}

-- Where an exchange stands: before the query of the session, before its revocation, before the query
-- of its user, before the query of the user's roles, before the new session, or at its end.
pub data Progress : Type 0 where
  checking : Progress
  revoking : SessionRow → Progress
  loading : SessionRow → Progress
  loading_roles : UserRow → Progress
  issuing : Result (Option Authz) → Progress
  done : Result (Authz × Issued) → Progress

pub record Exchange : Type 0 where
  pub progress : Progress
  pub raw : String
  pub meta : Meta

-- The tests of the session that the query finds.
unfoldable pub checked_session : Option SessionRow → ℕ → Progress
checked_session none now = done (err (unauthorized "Invalid refresh token"))
checked_session (some row) now =
    if is_set row.revoked_at
    then done (err (unauthorized "Refresh token reuse detected"))
    else if ltb row.expires_at now
    then done (err (unauthorized "Refresh token expired"))
    else revoking row

-- The first query of `loadUserAuthz`, with what it finds.
abbrev pub loaded_user : Option UserRow → Progress
loaded_user none = issuing (ok none)
loaded_user (some u) =
    if u.status == "active"
    then loading_roles u
    else issuing (err (app ErrorCode.forbidden "Account is not active" 403))

abbrev pub load_bound : Result (Unit {0}) → Option UserRow → Progress
load_bound (ok _) user = loaded_user user
load_bound (err e) user = issuing (err e)

module _ (x : External) (t : TenantRow) (hash : String) where
  abbrev pub ended : Result (Authz × Issued) × Store → Progress × Store
  ended (r, s) = (done r, s)

  -- The next transaction of an exchange.
  unfoldable pub advance : Progress → String → Meta → Store → Progress × Store
  advance checking raw meta s =
      (checked_session (find (is_session x t.id hash) s.sessions) s.now, s)
  advance (revoking row) raw meta s = (loading row, revoke x t.id row.id s)
  advance (loading row) raw meta s =
      (load_bound (tenant_sql t.schema_name t.id) (find (is_user t.id row.user_id) s.users), s)
  advance (loading_roles u) raw meta s = (issuing (ok (some (authz_of s t.id u))), s)
  advance (issuing a) raw meta s = ended (issue_for x t a raw meta s)
  advance (done r) raw meta s = (done r, s)

  abbrev pub move : Exchange → Store → Exchange × Store
  move e s = let (p, s') = advance e.progress e.raw e.meta s in (record e { progress = p }, s')

  -- Two exchanges of the token and the tables that they share.
  pub record Shared : Type 0 where
    pub first : Exchange
    pub second : Exchange
    pub store : Store

  abbrev pub move_first : Shared → Shared
  move_first c = let (e, s) = move c.first c.store in record c { first = e; store = s }

  abbrev pub move_second : Shared → Shared
  move_second c = let (e, s) = move c.second c.store in record c { second = e; store = s }

  abbrev pub wait_until : ℕ → Shared → Shared
  wait_until now c = record c { store = at_time now c.store }

  -- What may follow, in any order of the two exchanges' transactions.
  pub data Follows : Shared → Shared → Type 0 where
    stop : {c : Shared} → Follows c c
    by_first : {c c' : Shared} → Follows (move_first c) c' → Follows c c'
    by_second : {c c' : Shared} → Follows (move_second c) c' → Follows c c'
    later : {c c' : Shared} → (now : ℕ) → Follows (wait_until now c) c' → Follows c c'
