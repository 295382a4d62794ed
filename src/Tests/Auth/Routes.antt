-- ===== src/Tests/Auth/Routes.antt =====
-- The routes of logins and passwords on a concrete store.
use hippo_build_x.Prelude.{◌≡◌, refl, ◌<◌, All, true, none, some, List, [], ◌∷◌, ℕ, arith}
use hippo_build_x.Prelude.Effect.{Result, ok}
use hippo_build_x.Db.Names.{is_safe_schema_name, is_tenant_id}
use hippo_build_x.Auth.Tables.{Store, at_time}
use hippo_build_x.Auth.Sessions.{tenant_sql, login_user, login_tenant, login_with_password}
use hippo_build_x.Auth.Reset.{set_password}
use hippo_build_x.Auth.RateLimit.{check_rate_limit, lookup, put, counted, verdict}
use hippo_build_x.Auth.RateLimit.Window.{listed}
use hippo_build_x.Auth.Routes.{
  Login, Server, post_forgot_password, post_reset_password, post_login, log_in, limited,
  after_login,
}
use hippo_build_x.Auth.Routes.Forgotten.{
  IsBound, post_forgot_password-same, post_reset_password-after_forgot,
}
use hippo_build_x.Auth.Routes.Throttle.{
  IsAttempt, IsError, answers, count_tried, count_tried-window,
}
use hippo_build_x.Tests.Auth.{tenant, user, store, world}

bound : IsBound tenant
unfolding tenant_sql is_safe_schema_name is_tenant_id
bound = refl

abbrev nobody : Store
nobody = record store { users = [] }

post_forgot_password-same_example :
    (post_forgot_password world true (tenant ∷ []) (some "acme") (some "a@b.c") "t1" store).0
    ≡ (post_forgot_password world true [] (some "other") (some "x@y.z") "t2" nobody).0
post_forgot_password-same_example =
    post_forgot_password-same world (tenant ∷ []) [] "acme" "other" "a@b.c" "x@y.z" "t1" "t2"
      (some "acme") (some "other") (some "a@b.c") (some "x@y.z") store nobody refl refl refl refl
      (bound, tt) tt

abbrev asked : Store
asked = (post_forgot_password world true (tenant ∷ []) (some "acme") (some "a@b.c") "t1" store).1

abbrev out : Result (Unit {0}) × Store
out =
    post_reset_password world (λ p. p) (tenant ∷ []) (some "acme") (some "t1") (some "password")
      (at_time 1000 asked)

post_reset_password-after_forgot_example :
    (out.0 ≡ ok tt) × (out.1.users ≡ set_password tenant.id "u1" "password" store.users)
post_reset_password-after_forgot_example =
    post_reset_password-after_forgot world (λ p. p) tenant user "t1" true (tenant ∷ []) "acme"
      "a@b.c" "password" (some "acme") (some "a@b.c") (some "t1") (some "password") 1000 store refl
      refl refl refl refl bound refl refl (omega arith) (omega arith)

abbrev wrong : Login
wrong = record {
  slug = some "acme";
  email = some "a@b.c";
  password = some "guess";
  x_forwarded_for = none;
  user_agent = none;
}

abbrev server : Server
server = record { store = store; hits = [] }

attempt : IsAttempt world (λ s. s) (tenant ∷ []) "new" "login:local:a@b.c" wrong
attempt = record {
  slug = "acme";
  email = "a@b.c";
  password = "guess";
  has_slug = refl;
  has_email = refl;
  has_password = refl;
  has_key = refl;
}

abbrev tries : List (ℕ × Login)
tries = (60, wrong) ∷ (70, wrong) ∷ []

no_success : All IsError (answers world (λ s. s) (tenant ∷ []) "new" tries server)
unfolding post_login log_in limited after_login check_rate_limit lookup put counted verdict
    login_with_password login_tenant login_user tenant_sql is_safe_schema_name is_tenant_id
no_success = (tt, (tt, tt))

no_entry : All (λ e. e.reset_at < 60) (listed (lookup "login:local:a@b.c" []))
unfolding lookup
no_entry = tt

count_tried-window_example :
    count_tried world
      (λ s. s)
      (tenant ∷ [])
      "new"
      (answers world (λ s. s) (tenant ∷ []) "new" tries server)
    ≡ 2
count_tried-window_example =
    count_tried-window world (λ s. s) (tenant ∷ []) "new" "login:local:a@b.c" 60 wrong
      ((70, wrong) ∷ []) server (attempt, (attempt, tt)) no_success no_entry (omega arith, tt)
