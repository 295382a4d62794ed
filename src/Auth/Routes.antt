-- ===== src/Auth/Routes.antt =====
-- apps/web/src/app/api/v1/auth: the routes of logins, logouts and passwords over the services of
-- session-service.js and rate-limit.js. Cookies and the envelope of a response are left out. Texts of
-- a body that are missing or null are `none`.
pub mod Forgotten
pub mod Throttle
use Prim.Native.String.{◌++◌ as join_text}
use hippo_build_x.Prelude.{
  ℕ, String, Bool, true, false, not, ◌&&◌, ◌||◌, Option, none, some, List, find, or_null, codes,
  units, ltb, if◌then◌else◌, ◌==◌,
}
use hippo_build_x.Prelude.Effect.{Thrown, Result, ok, err, app, bind_result}
use hippo_build_x.Shared.Errors.{validation, unauthorized}
use hippo_build_x.Shared.Errors.ErrorCode
use hippo_build_x.Auth.Tables.{TenantRow, Store}
use hippo_build_x.Auth.Sessions.{
  External, Meta, Authz, Issued, login_with_password, rotate_refresh_token,
}
use hippo_build_x.Auth.Reset.{
  invalid_reset, create_password_reset_token, reset_password_with_token, revoke_session,
}
use hippo_build_x.Auth.RateLimit.{
  Rate, allowed, refused, Options, Hits, check_rate_limit, reset_rate_limit,
}
use hippo_build_x.Auth.Request.{RequestContext}

-- `WHERE slug = ... AND deleted_at IS NULL AND status = 'active' LIMIT 1`
abbrev pub is_open_tenant : String → TenantRow → Bool
is_open_tenant slug t = t.slug == slug && (not t.deleted && t.status == "active")

-- The answer of forgot-password: the token is shown outside production only.
pub record Reply : Type 0 where
  pub ok : Bool
  pub message : String
  pub dev_token : Option String

abbrev pub sent : Option String → Reply
sent dev_token = record {
  ok = true;
  message = "If the account exists, a reset link was sent";
  dev_token = dev_token;
}

module _ (x : External) where
  abbrev pub Forgetting : Type 0
  Forgetting = Result Reply × Store

  abbrev pub shown_token : Bool → Option String → Option String
  shown_token production none = none
  shown_token production (some token) = if production then none else some token

  abbrev pub token_of : Option (String × ℕ) → Option String
  token_of none = none
  token_of (some (token, expires_at)) = some token

  -- From the tenant's row on; `token` is what `generateToken` draws.
  unfoldable pub forget_in : Bool → Option TenantRow → String → String → Store → Forgetting
  forget_in production none email token s = (ok (sent none), s)
  forget_in production (some t) email token s =
      bind_result (create_password_reset_token x t.schema_name t.id email token s)
        (λ r s'. (ok (sent (shown_token production (token_of r))), s'))

  unfoldable pub forget :
      Bool → List TenantRow → Option String → Option String → String → Store → Forgetting
  unfolding forget_in
  forget production tenants (some slug) (some email) token s =
      forget_in production (find (is_open_tenant slug) tenants) email token s
  forget production tenants _ _ token s = (err (validation "slug and email are required"), s)

  -- POST forgot-password
  unfoldable pub post_forgot_password :
      Bool → List TenantRow → Option String → Option String → String → Store → Forgetting
  unfolding forget
  post_forgot_password production tenants slug email =
      forget production tenants (or_null slug) (or_null email)

  -- From the tenant's row on; `hash_password` draws a salt.
  unfoldable pub reset_in : Option TenantRow → String → String → Store → Result (Unit {0}) × Store
  reset_in none token password_hash s = (err invalid_reset, s)
  reset_in (some t) token password_hash s =
      reset_password_with_token x t.schema_name t.id token password_hash s

  unfoldable pub reset :
      (String → String)
      → List TenantRow
      → Option String
      → Option String
      → Option String
      → Store
      → Result (Unit {0}) × Store
  unfolding reset_in
  reset hash_password tenants (some slug) (some token) (some password) s =
      if ltb (units (codes password)) 8
      then (err (validation "Password must be at least 8 characters"), s)
      else reset_in (find (is_open_tenant slug) tenants) token (hash_password password) s
  reset hash_password tenants _ _ _ s =
      (err (validation "slug, token, and password are required"), s)

  -- POST reset-password
  unfoldable pub post_reset_password :
      (String → String)
      → List TenantRow
      → Option String
      → Option String
      → Option String
      → Store
      → Result (Unit {0}) × Store
  unfolding reset
  post_reset_password hash_password tenants slug token password =
      reset hash_password tenants (or_null slug) (or_null token) (or_null password)

  unfoldable pub log_out : RequestContext → Option String → Store → Result (Unit {0}) × Store
  log_out ctx none s = (ok tt, s)
  log_out ctx (some id) s = revoke_session x ctx.schema_name ctx.tenant_id id s

  -- POST logout; the tenant of a context is never empty.
  unfoldable pub post_logout : RequestContext → Store → Result (Unit {0}) × Store
  unfolding log_out
  post_logout ctx = log_out ctx (or_null ctx.session_id)

-- The headers and the body of a login.
pub record Login : Type 0 where
  pub slug : Option String
  pub email : Option String
  pub password : Option String
  pub x_forwarded_for : Option String
  pub user_agent : Option String

-- The tables, and the attempts that rate-limit.js counts.
pub record Server : Type 0 where
  pub store : Store
  pub hits : Hits

abbrev pub too_many : Thrown
too_many = app ErrorCode.rate_limit_exceeded "Too many login attempts" 429

abbrev pub login_limit : Options
login_limit = record { limit = some 10; window_ms = some 900000 }

abbrev pub client_ip : Option String → String
client_ip none = "local"
client_ip (some ip) = ip

abbrev pub Answer : Type 0
Answer = Result (Authz × Issued) × Server

-- After `loginWithPassword`.
unfoldable pub after_login : String → Hits → Result (Authz × Issued) × Store → Answer
unfolding reset_rate_limit
after_login key hits (ok out, store) =
    (ok out, record { store = store; hits = reset_rate_limit key hits })
after_login key hits (err e, store) = (err e, record { store = store; hits = hits })

module _ (x : External) (lower_case : String → String) (tenants : List TenantRow)
    (raw : String) where
  -- `login:${ip}:${String(email).toLowerCase()}`
  abbrev pub rate_key : Login → String → String
  rate_key q email =
      join_text "login:"
        (join_text (client_ip (or_null q.x_forwarded_for)) (join_text ":" (lower_case email)))

  -- From the verdict of the rate limiter on.
  unfoldable pub limited : Login → String → String → String → String → Rate × Hits → Store → Answer
  unfolding after_login
  limited q key slug email password (refused _, hits) store =
      (err too_many, record { store = store; hits = hits })
  limited q key slug email password (allowed _, hits) store = after_login key hits (
      login_with_password x tenants slug email password raw
        (record {
          user_agent = or_null q.user_agent;
          ip = some (client_ip (or_null q.x_forwarded_for));
        })
        store)

  unfoldable pub log_in : Login → Option String → Option String → Option String → Server → Answer
  unfolding limited check_rate_limit
  log_in q (some slug) (some email) (some password) sv =
      let key = rate_key q email in
      limited q key slug email password (check_rate_limit key login_limit sv.store.now sv.hits)
        sv.store
  log_in q _ _ _ sv = (err (validation "slug, email, and password are required"), sv)

  -- POST login
  unfoldable pub post_login : Login → Server → Answer
  unfolding log_in
  post_login q = log_in q (or_null q.slug) (or_null q.email) (or_null q.password)

-- POST refresh, from the token of the request on.
unfoldable pub post_refresh :
    External
    → List TenantRow
    → Option String
    → String
    → Meta
    → Store
    → Result (Authz × Issued) × Store
post_refresh x tenants none raw meta s = (err (unauthorized "Refresh token required"), s)
post_refresh x tenants (some token) raw meta s =
    if token == ""
    then (err (unauthorized "Refresh token required"), s)
    else rotate_refresh_token x tenants token raw meta s
