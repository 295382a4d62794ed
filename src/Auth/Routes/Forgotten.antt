-- ===== src/Auth/Routes/Forgotten.antt =====
-- Forgotten passwords: what the answer tells, and what the token does.
use hippo_build_x.Prelude.{
  ℕ, suc, ◌+◌, ◌≤◌, String, ◌≡◌, refl, sym, ◌∙◌, inl, inr, Bool, true, false, Option, none, some,
  List, [], ◌∷◌, ◌++◌, All, any, find, find-All, find-append_new, codes, units, or_null, ltb,
  Option-cases, eq_refl, arith,
}
use hippo_build_x.Prelude.Effect.{ok}
use hippo_build_x.Auth.Tables.{TenantRow, UserRow, Store, at_time}
use hippo_build_x.Auth.Sessions.{External, tenant_sql}
use hippo_build_x.Auth.Reset.{
  is_active_login, new_reset, insert_reset, create_password_reset_token, is_reset, set_password,
  apply_reset, reset_password_with_token,
}
use hippo_build_x.Auth.Routes.{
  sent, is_open_tenant, forget_in, forget, post_forgot_password, reset_in, reset,
  post_reset_password,
}

-- The tests of `createTenantSql` pass for a tenant.
abbrev pub IsBound : TenantRow → Type 0
IsBound t = tenant_sql t.schema_name t.id ≡ ok tt

module _ (x : External) where
  created-sent :
      (t : TenantRow) (email token : String) (s : Store)
      → IsBound t
      → (forget_in x true (some t) email token s).0 ≡ ok (sent none)
  unfolding forget_in create_password_reset_token insert_reset
  created-sent t email token s bound =
      elim (Option-cases (find (is_active_login x t.id email) s.users)) [
        | inl missing ↦ rw (bound, missing) refl
        | inr (u, found) ↦ rw (bound, found) refl
      ]

  forget-sent :
      (tenants : List TenantRow) (slug email token : String) (s : Store)
      → All IsBound tenants
      → (forget x true tenants (some slug) (some email) token s).0 ≡ ok (sent none)
  unfolding forget forget_in
  forget-sent tenants slug email token s bound =
      elim (Option-cases (find (is_open_tenant slug) tenants)) [
        | inl missing ↦ rw missing refl
        | inr (t, found) ↦ rw found (
            created-sent t email token s
              (find-All IsBound (is_open_tenant slug) tenants t bound found))
      ]

  -- In production the answer to a request for a new password, with a slug and an address, is the same
  -- whatever they are and whatever tenants and users there are, when the tests of `createTenantSql`
  -- pass for the tenants.
  pub post_forgot_password-same :
      (tenants tenants' : List TenantRow) (slug slug' email email' token token' : String)
      (given given' address address' : Option String) (s s' : Store)
      → or_null given ≡ some slug
      → or_null given' ≡ some slug'
      → or_null address ≡ some email
      → or_null address' ≡ some email'
      → All IsBound tenants
      → All IsBound tenants'
      → (post_forgot_password x true tenants given address token s).0
        ≡ (post_forgot_password x true tenants' given' address' token' s').0
  unfolding post_forgot_password
  post_forgot_password-same tenants tenants' slug slug' email email' token token' given given'
        address address' s s' g g' a a' bound bound' =
      rw (g, g', a, a')
        (forget-sent tenants slug email token s bound
          ∙ sym (forget-sent tenants' slug' email' token' s' bound'))

  module _ (hash_password : String → String) (t : TenantRow) (u : UserRow) (token : String) where
    abbrev pub with_token : Store → Store
    with_token s = record s {
      resets = s.resets ++ new_reset x t.id u token s ∷ [];
      serial = suc s.serial;
    }

    forgets :
        (production : Bool) (tenants : List TenantRow) (slug email : String) (s : Store)
        → find (is_open_tenant slug) tenants ≡ some t
        → IsBound t
        → find (is_active_login x t.id email) s.users ≡ some u
        → (forget x production tenants (some slug) (some email) token s).1 ≡ with_token s
    unfolding forget forget_in create_password_reset_token insert_reset
    forgets production tenants slug email s found bound active = rw (found, bound, active) refl

    resets_user :
        (tenants : List TenantRow) (slug password : String) (later : ℕ) (s : Store)
        → find (is_open_tenant slug) tenants ≡ some t
        → IsBound t
        → any (is_reset x t.id (x.hash_token token)) s.resets ≡ false
        → 8 ≤ units (codes password)
        → later ≤ s.now + 3600000
        → let out =
            reset x hash_password tenants
              (some slug)
              (some token)
              (some password)
              (at_time later (with_token s)) in
          (out.0 ≡ ok tt) × (out.1.users ≡ set_password t.id u.id (hash_password password) s.users)
    unfolding reset reset_in reset_password_with_token apply_reset
    resets_user tenants slug password later s found bound new long soon =
        rw (enough, found, bound, row) (rw fresh (refl, refl))
      where
        enough : ltb (units (codes password)) 8 ≡ false
        enough = ground (arith, long)

        fresh : ltb (s.now + 3600000) later ≡ false
        fresh = ground (arith, soon)

        row :
            find
              (is_reset x t.id (x.hash_token token))
              (s.resets ++ new_reset x t.id u token s ∷ [])
            ≡ some (new_reset x t.id u token s)
        row =
            find-append_new (is_reset x t.id (x.hash_token token)) s.resets
              (new_reset x t.id u token s) new
              (rw (eq_refl t.id, eq_refl (x.hash_token token)) refl)

    -- After an active user of an active tenant has asked for a new password, a reset within the hour
    -- with the token and a password of at least eight characters goes through and gives that user,
    -- and nobody else, the hash of the password, when no token has the same hash.
    pub post_reset_password-after_forgot :
        (production : Bool) (tenants : List TenantRow) (slug email password : String)
        (given address code chosen : Option String) (later : ℕ) (s : Store)
        → or_null given ≡ some slug
        → or_null address ≡ some email
        → or_null code ≡ some token
        → or_null chosen ≡ some password
        → find (is_open_tenant slug) tenants ≡ some t
        → IsBound t
        → find (is_active_login x t.id email) s.users ≡ some u
        → any (is_reset x t.id (x.hash_token token)) s.resets ≡ false
        → 8 ≤ units (codes password)
        → later ≤ s.now + 3600000
        → let asked = (post_forgot_password x production tenants given address token s).1 in
          let out =
            post_reset_password x hash_password tenants given code chosen (at_time later asked) in
          (out.0 ≡ ok tt) × (out.1.users ≡ set_password t.id u.id (hash_password password) s.users)
    unfolding post_forgot_password post_reset_password
    post_reset_password-after_forgot production tenants slug email password given address code
          chosen later s g a c p found bound active new long soon =
        rw (g, a, c, p)
          (rw (forgets production tenants slug email s found bound active)
            (resets_user tenants slug password later s found bound new long soon))
