-- ===== src/Api/Platform.antt =====
-- Platform users: `resolvePlatformAuth` of apps/web/src/lib/api-utils.js and
-- apps/web/src/modules/platform/platform-auth-service.js. Hashing, signing and the SQL function
-- lower() are parameters.
pub mod Scopes
use hippo_build_x.Prelude.{
  String, Bool, true, false, not, ◌&&◌, ◌||◌, Option, none, some, List, [], ◌∷◌, find, or_null,
  if◌then◌else◌, ◌==◌,
}
use hippo_build_x.Prelude.Effect.{Result, ok, err, Thrown}
use hippo_build_x.Shared.Errors.{unauthorized}
use hippo_build_x.Auth.Request.{Payload, is_platform}
use hippo_build_x.Api.Context.{PlatformUser}

-- A row of `platform_users`.
pub record PlatformRow : Type 0 where
  pub id : String
  pub email : String
  pub name : String
  pub password_hash : String
  pub role : String
  pub status : String
  pub deleted : Bool

unfoldable pub only_active : Option PlatformRow → Option PlatformRow
only_active none = none
only_active (some u) = if u.status == "active" then some u else none

unfoldable pub load_platform_user : List PlatformRow → String → Option PlatformRow
unfolding only_active
load_platform_user rows id = only_active (find (λ u. u.id == id && not u.deleted) rows)

-- How a platform request was authenticated.
pub data PlatformAuth : Type 0 where
  api_key : PlatformAuth
  jwt : PlatformRow → PlatformAuth

abbrev pub user_of_auth : PlatformAuth → PlatformUser
user_of_auth api_key = record {
  id = none;
  email = "platform-api-key";
  name = "Platform API Key";
  role = "super_admin";
}
user_of_auth (jwt u) = record { id = some u.id; email = u.email; name = u.name; role = u.role }

abbrev pub required : Thrown
required = unauthorized "Platform authentication required"

unfoldable pub found_user : Option PlatformRow → Result PlatformAuth
found_user none = err (unauthorized "Platform user not found")
found_user (some u) = ok (jwt u)

-- From the claims of the payload on.
unfoldable pub platform_claims :
    List PlatformRow → Option String → Option String → Result PlatformAuth
unfolding found_user
platform_claims rows none scope = err required
platform_claims rows (some sub) scope =
    if sub == "" || not (is_platform scope)
    then err required
    else found_user (load_platform_user rows sub)

unfoldable pub platform_payload : List PlatformRow → Option Payload → Result PlatformAuth
platform_payload rows none = err required
platform_payload rows (some p) = platform_claims rows p.sub p.scope

unfoldable pub platform_token :
    (String → Option Payload) → List PlatformRow → Option String → Result PlatformAuth
platform_token verify rows none = err required
platform_token verify rows (some token) = platform_payload rows (verify token)

-- `expected && key === expected`
abbrev pub key_matches : Option String → Option String → Bool
key_matches (some expected) (some key) = not (expected == "") && key == expected
key_matches _ _ = false

-- `resolvePlatformAuth`: `expected` is PLATFORM_API_KEY.
unfoldable pub resolve_platform_auth :
    Option String
    → (String → Option Payload)
    → List PlatformRow
    → Option String
    → Option String
    → Result PlatformAuth
resolve_platform_auth expected verify rows key token =
    if key_matches expected key then ok api_key else platform_token verify rows (or_null token)

pub record Tokens : Type 0 where
  pub access_token : String
  pub refresh_token : String

module _ (lower : String → String) (verify_password : String → String → Bool)
    (sign_access_token sign_refresh_token : Payload → String) where
  abbrev pub platform_claim : String → Payload
  platform_claim id = record {
    sub = some id;
    tenant_id = none;
    sid = none;
    scope = some "platform";
  }

  abbrev pub issue : PlatformRow → Tokens × PlatformRow
  issue u = (
    record {
      access_token = sign_access_token (platform_claim u.id);
      refresh_token = sign_refresh_token (platform_claim u.id);
    },
    u,
  )

  unfoldable pub login_platform_row : Option PlatformRow → String → Result (Tokens × PlatformRow)
  login_platform_row none password = err (unauthorized "Invalid credentials")
  login_platform_row (some u) password =
      if u.status == "active" && verify_password u.password_hash password
      then ok (issue u)
      else err (unauthorized "Invalid credentials")

  -- `loginPlatformUser`
  unfoldable pub login_platform_user :
      List PlatformRow → String → String → Result (Tokens × PlatformRow)
  unfolding login_platform_row
  login_platform_user rows email password =
      login_platform_row (find (λ u. lower u.email == lower email && not u.deleted) rows) password

  unfoldable pub refreshed : Option PlatformRow → Result (Tokens × PlatformRow)
  refreshed none = err (unauthorized "Invalid refresh token")
  refreshed (some u) = ok (issue u)

  unfoldable pub refresh_claims :
      List PlatformRow → Option String → Option String → Result (Tokens × PlatformRow)
  unfolding refreshed
  refresh_claims rows none scope = err (unauthorized "Invalid refresh token")
  refresh_claims rows (some sub) scope =
      if sub == "" || not (is_platform scope)
      then err (unauthorized "Invalid refresh token")
      else refreshed (load_platform_user rows sub)

  -- `refreshPlatformSession`: of the payload that `verifyRefreshToken` gives.
  unfoldable pub refresh_platform_session :
      List PlatformRow → Option Payload → Result (Tokens × PlatformRow)
  unfolding refresh_claims
  refresh_platform_session rows none = err (unauthorized "Invalid refresh token")
  refresh_platform_session rows (some p) = refresh_claims rows p.sub p.scope
