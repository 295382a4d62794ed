-- ===== src/Api/Middleware.antt =====
-- apps/web/src/middleware.js: which pages ask for a login first. The paths are the `pathname` of the
-- URL, and the cookie is what Next.js reads.
pub mod Pages
use Prim.Native.String
use Prim.Native.String.{◌++◌ as join_text}
use Prim.Native.Char.{code}
use hippo_build_x.Prelude.{
  String, Bool, true, false, not, ◌&&◌, ◌||◌, Option, none, some, List, [], ◌∷◌, any, eqb, truthy,
  or_null, if◌then◌else◌, ◌==◌,
}
use hippo_build_x.Api.Pipeline.{request_id_of}

abbrev pub public_prefixes : List String
public_prefixes =
    "/login" ∷ "/forgot-password" ∷ "/reset-password" ∷ "/platform/login" ∷ "/api/v1/auth/login"
    ∷ "/api/v1/auth/refresh" ∷ "/api/v1/auth/forgot-password" ∷ "/api/v1/auth/reset-password"
    ∷ "/api/v1/platform/auth/login" ∷ "/api/v1/platform/auth/logout" ∷ "/api/v1/health" ∷ []

-- `pathname.startsWith(prefix)`
unfoldable pub starts_with : String → String → Bool
starts_with String.[] s = true
starts_with (String.◌∷◌ p ps) String.[] = false
starts_with (String.◌∷◌ p ps) (String.◌∷◌ c s) = eqb (code p) (code c) && starts_with ps s

unfoldable pub is_public : String → Bool
is_public path =
    path == "/" || any (λ p. path == p || starts_with (join_text p "/") path) public_prefixes

abbrev pub is_bearer : Option String → Bool
is_bearer none = false
is_bearer (some s) = starts_with "Bearer " s

-- `hasAccess`, of the cookie `access_token` and the header `authorization`.
abbrev pub has_access : Option String → Option String → Bool
has_access cookie authorization = truthy cookie || is_bearer authorization

pub data Outcome : Type 0 where
  redirect : String → Outcome
  pass : (request_id : String) → Outcome

abbrev pub login_page : String → Option String
login_page path =
    if starts_with "/platform" path
    then some "/platform/login"
    else if starts_with "/projects" path
    then some "/login"
    else if starts_with "/admin" path
    then some "/login"
    else if starts_with "/dashboard" path
    then some "/login"
    else none

abbrev pub to_page : Option String → String → Outcome
to_page none request_id = pass request_id
to_page (some page) request_id = redirect page

-- `middleware`; `fresh` is a new random id.
unfoldable pub middleware :
    String → Option String → Option String → Option String → String → Outcome
middleware path cookie authorization x_request_id fresh =
    let request_id = request_id_of x_request_id fresh in
    if is_public path || has_access cookie authorization
    then pass request_id
    else to_page (login_page path) request_id
