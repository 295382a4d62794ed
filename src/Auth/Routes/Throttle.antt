-- ===== src/Auth/Routes/Throttle.antt =====
-- How many passwords can be tried in a window of the rate limiter.
use hippo_build_x.Prelude.{
  ℕ, suc, ◌+◌, ◌≤◌, ◌<◌, min, String, ◌≡◌, refl, ap, ◌∙◌, inl, inr, Bool, false, Option, none, some,
  List, [], ◌∷◌, All, map, find, length, codes, or_null, Bool-cases, Option-cases, ◌==◌,
  if◌then◌else◌,
}
use hippo_build_x.Prelude.Effect.{Thrown, Result, ok, err, app, other, Result-cases}
use hippo_build_x.Shared.Errors.ErrorCode
use hippo_build_x.Db.Names.{is_safe_schema_name, is_tenant_id}
use hippo_build_x.Auth.Tables.{TenantRow, UserRow, Store, at_time}
use hippo_build_x.Auth.Sessions.{
  External, Meta, Authz, Issued, tenant_sql, authorise, load_user_authz, is_user, issue_session,
  issue_for, login_user, login_tenant, login_with_password,
}
use hippo_build_x.Auth.RateLimit.{Rate, allowed, refused, Hits, lookup, check_rate_limit}
use hippo_build_x.Auth.RateLimit.Window.{listed, passes, allowed_attempts, check_rate_limit-window}
use hippo_build_x.Auth.Routes.{
  Login, Server, login_limit, rate_key, after_login, limited, log_in, post_login,
}

-- An answer other than `too_many`: the password was tried.
abbrev pub is_limit : Thrown → Bool
is_limit (app code _ _) = code == ErrorCode.rate_limit_exceeded
is_limit (other _) = false

abbrev pub tried {ℓ} : {A : Type ℓ} → Result A → ℕ
tried (ok _) = 1
tried (err e) = if is_limit e then 0 else 1

abbrev IsTried {ℓ} : {A : Type ℓ} → Result A → Type 0
IsTried r = tried r ≡ 1

tenant_sql-IsTried : (schema_name tenant_id : String) → IsTried (tenant_sql schema_name tenant_id)
unfolding tenant_sql
tenant_sql-IsTried schema_name tenant_id =
    elim (Bool-cases (is_safe_schema_name (codes schema_name))) [
      | inr unsafe ↦ rw unsafe refl
      | inl safe ↦ elim (Bool-cases (is_tenant_id (codes tenant_id))) [
        | inl good ↦ rw (safe, good) refl
        | inr bad ↦ rw (safe, bad) refl
      ]
    ]

load-IsTried :
    (schema_name user_id tenant_id : String) (s : Store)
    → IsTried (load_user_authz schema_name user_id tenant_id s)
unfolding load_user_authz authorise
load-IsTried schema_name user_id tenant_id s =
    elim (Result-cases (tenant_sql schema_name tenant_id)) [
      | inr (e, bad) ↦ rw bad (rw bad at (tenant_sql-IsTried schema_name tenant_id))
      | inl (_, good) ↦ rw good (elim (Option-cases (find (is_user tenant_id user_id) s.users)) [
        | inl missing ↦ rw missing refl
        | inr (u, found) ↦ rw found (elim (Bool-cases (u.status == "active")) [
          | inl active ↦ rw active refl
          | inr idle ↦ rw idle refl
        ])
      ])
    ]

module _ (x : External) where
  issue_for-IsTried :
      (t : TenantRow) (a : Result (Option Authz)) (raw : String) (meta : Meta) (s : Store)
      → IsTried a
      → IsTried (issue_for x t a raw meta s).0
  unfolding issue_for issue_session
  issue_for-IsTried t (err e) raw meta s h = h
  issue_for-IsTried t (ok none) raw meta s h = refl
  issue_for-IsTried t (ok (some a)) raw meta s h =
      elim (Result-cases (tenant_sql t.schema_name t.id)) [
        | inl (_, good) ↦ rw good refl
        | inr (e, bad) ↦ rw bad (rw bad at (tenant_sql-IsTried t.schema_name t.id))
      ]

  login_user-IsTried :
      (t : TenantRow) (found : Option UserRow) (password raw : String) (meta : Meta) (s : Store)
      → IsTried (login_user x t found password raw meta s).0
  unfolding login_user
  login_user-IsTried t none password raw meta s = refl
  login_user-IsTried t (some u) password raw meta s = elim (Bool-cases (u.status == "active")) [
    | inr idle ↦ rw idle refl
    | inl active ↦ elim (Bool-cases (x.verify_password u.password_hash password)) [
      | inr wrong ↦ rw (active, wrong) refl
      | inl right ↦
          rw (active, right)
            (issue_for-IsTried t _ raw meta s (load-IsTried t.schema_name u.id t.id s))
    ]
  ]

  login_tenant-IsTried :
      (found : Option TenantRow) (email password raw : String) (meta : Meta) (s : Store)
      → IsTried (login_tenant x found email password raw meta s).0
  unfolding login_tenant
  login_tenant-IsTried none email password raw meta s = refl
  login_tenant-IsTried (some t) email password raw meta s =
      elim (Bool-cases (t.status == "active")) [
        | inr idle ↦ rw idle refl
        | inl active ↦ elim (Result-cases (tenant_sql t.schema_name t.id)) [
          | inr (e, bad) ↦ rw (active, bad) (rw bad at (tenant_sql-IsTried t.schema_name t.id))
          | inl (_, good) ↦ rw (active, good) (login_user-IsTried t _ password raw meta s)
        ]
      ]

abbrev pub IsError {ℓ} : {A : Type ℓ} → Result A → Type 0
IsError (ok _) = ⊥
IsError (err _) = Unit

module _ (x : External) (lower_case : String → String) (tenants : List TenantRow)
    (raw : String) where
  -- A login with all that it needs, and this key of the rate limiter.
  pub record IsAttempt (key : String) (q : Login) : Type 0 where
    pub slug : String
    pub email : String
    pub password : String
    pub has_slug : or_null q.slug ≡ some slug
    pub has_email : or_null q.email ≡ some email
    pub has_password : or_null q.password ≡ some password
    pub has_key : rate_key x lower_case tenants raw q email ≡ key

  -- A login at a time.
  abbrev pub login_at : ℕ → Login → Server → Result (Authz × Issued) × Server
  login_at now q sv =
      post_login x lower_case tenants raw q (record sv { store = at_time now sv.store })

  -- The answers to logins at times, one after the other.
  abbrev pub answers : List (ℕ × Login) → Server → List (Result (Authz × Issued))
  answers [] sv = []
  answers ((now, q) ∷ qs) sv = let (r, sv') = login_at now q sv in r ∷ answers qs sv'

  abbrev pub count_tried : List (Result (Authz × Issued)) → ℕ
  count_tried [] = 0
  count_tried (r ∷ rs) = tried r + count_tried rs

  after_login-hits :
      (key : String) (hits : Hits) (r : Result (Authz × Issued) × Store)
      → IsTried r.0
      → IsError (after_login key hits r).0
      → ((after_login key hits r).1.hits ≡ hits) × (tried (after_login key hits r).0 ≡ 1)
  unfolding after_login
  after_login-hits key hits (ok out, store) t e = absurd e
  after_login-hits key hits (err e, store) t h = (refl, t)

  limited-hits :
      (q : Login) (key slug email password : String) (checked : Rate × Hits) (s : Store)
      → IsError (limited x lower_case tenants raw q key slug email password checked s).0
      → ((limited x lower_case tenants raw q key slug email password checked s).1.hits ≡ checked.1)
        × (tried (limited x lower_case tenants raw q key slug email password checked s).0
            ≡ passes checked.0)
  unfolding limited login_with_password
  limited-hits q key slug email password (refused _, hits) s e = (refl, refl)
  limited-hits q key slug email password (allowed _, hits) s e =
      after_login-hits key hits _ (login_tenant-IsTried x _ email password raw _ s) e

  login_at-hits :
      (key : String) (now : ℕ) (q : Login) (sv : Server)
      → IsAttempt key q
      → IsError (login_at now q sv).0
      → ((login_at now q sv).1.hits ≡ (check_rate_limit key login_limit now sv.hits).1)
        × (tried (login_at now q sv).0 ≡ passes (check_rate_limit key login_limit now sv.hits).0)
  unfolding post_login log_in
  login_at-hits key now q sv a =
      rw (a.has_slug, a.has_email, a.has_password, a.has_key)
        (limited-hits q key a.slug a.email a.password (check_rate_limit key login_limit now sv.hits)
          (at_time now sv.store))

  count_tried-allowed :
      (key : String) (qs : List (ℕ × Login)) (sv : Server)
      → All (λ (now, q). IsAttempt key q) qs
      → All IsError (answers qs sv)
      → count_tried (answers qs sv)
        ≡ allowed_attempts key 10 900000 (map (λ (now, q). now) qs) sv.hits
  unfolding allowed_attempts
  count_tried-allowed key [] sv h e = refl
  count_tried-allowed key ((now, q) ∷ qs) sv (h, hs) (e, es) =
      let (hits, count) = login_at-hits key now q sv h e in
      rw count (
        ap (λ n. passes (check_rate_limit key login_limit now sv.hits).0 + n)
          (count_tried-allowed key qs (login_at now q sv).1 hs es
            ∙ ap (allowed_attempts key 10 900000 (map (λ (now, q). now) qs)) hits))

  -- Of logins that all fail, with one key of the rate limiter, the first of them outside of a window
  -- and the others up to the end of the window that it opens, exactly ten, or all when they are fewer,
  -- are not refused as too many.
  pub count_tried-window :
      (key : String) (first : ℕ) (q : Login) (qs : List (ℕ × Login)) (sv : Server)
      → All (λ (now, q). IsAttempt key q) ((first, q) ∷ qs)
      → All IsError (answers ((first, q) ∷ qs) sv)
      → All (λ e. e.reset_at < first) (listed (lookup key sv.hits))
      → All (λ now. now ≤ first + 900000) (map (λ (now, q). now) qs)
      → count_tried (answers ((first, q) ∷ qs) sv)
        ≡ min (suc (length (map (λ (now, q). now) qs))) 10
  count_tried-window key first q qs sv h e over within =
      count_tried-allowed key ((first, q) ∷ qs) sv h e
      ∙ check_rate_limit-window key 10 900000 first (map (λ (now, q). now) qs) sv.hits over within
