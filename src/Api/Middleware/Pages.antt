-- ===== src/Api/Middleware/Pages.antt =====
-- Which requests pass the middleware.
use mathlib.Core.Option.{some-injective}
use hippo_build_x.Prelude.{
  or_false, String, ◌≡◌, refl, subst, inl, inr, true, false, ◌||◌, Option, none, some, Bool-cases,
}
use hippo_build_x.Api.Pipeline.{request_id_of}
use hippo_build_x.Api.Middleware.{
  is_public, starts_with, has_access, redirect, pass, login_page, to_page, middleware,
}

login_page-is_public : (path page : String) → login_page path ≡ some page → is_public page ≡ true
unfolding is_public starts_with
login_page-is_public path page h = elim (Bool-cases (starts_with "/platform" path)) [
  | inl a ↦ subst (λ p. is_public p ≡ true) (some-injective _ _ (rw a at h)) refl
  | inr a ↦ elim (Bool-cases (starts_with "/projects" path)) [
    | inl b ↦ subst (λ p. is_public p ≡ true) (some-injective _ _ (rw (a, b) at h)) refl
    | inr b ↦ elim (Bool-cases (starts_with "/admin" path)) [
      | inl c ↦ subst (λ p. is_public p ≡ true) (some-injective _ _ (rw (a, b, c) at h)) refl
      | inr c ↦ elim (Bool-cases (starts_with "/dashboard" path)) [
        | inl d ↦ subst (λ p. is_public p ≡ true) (some-injective _ _ (rw (a, b, c, d) at h)) refl
        | inr d ↦ absurd (cc (rw (a, b, c, d) at h))
      ]
    ]
  ]
]

redirected :
    (found : Option String) (page id : String)
    → to_page found id ≡ redirect page
    → found ≡ some page
redirected none page id h = absurd (cc h)
redirected (some p) page id h = cc

-- A request without an access token is redirected when its page is under a protected prefix and is
-- not public; every page to which a request is redirected is public, so that the redirect ends there:
-- the redirected request passes.
pub middleware-settles :
    (path page : String) (cookie authorization x_request_id x_request_id' : Option String)
    (fresh fresh' : String)
    → middleware path cookie authorization x_request_id fresh ≡ redirect page
    → (is_public path ≡ false)
      × (has_access cookie authorization ≡ false)
      × (login_page path ≡ some page)
      × (middleware page cookie authorization x_request_id' fresh'
          ≡ pass (request_id_of x_request_id' fresh'))
unfolding middleware
middleware-settles path page cookie authorization x_request_id x_request_id' fresh fresh' h =
    elim (Bool-cases (is_public path || has_access cookie authorization)) [
      | inl free ↦ absurd (cc (rw free at h))
      | inr asks ↦
          let (private, no_token) =
            or_false (is_public path) (has_access cookie authorization) asks in
          let found =
            redirected (login_page path) page (request_id_of x_request_id fresh) (rw asks at h) in
          (private, no_token, found, rw (login_page-is_public path page found) refl)
    ]
