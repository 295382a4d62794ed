-- ===== src/Api/Cookies.antt =====
-- apps/web/src/modules/auth/cookie.js, over the headers of a request. `encodeURIComponent` and
-- `decodeURIComponent` are parameters; that the latter throws at a malformed value is left out.
use Prim.Native.String.{◌++◌}
use Prim.Native.Char.{Char, code}
use hippo_build_x.Prelude.{
  String, Bool, true, ◌&&◌, Option, none, some, List, [], ◌∷◌, eqb, split_on, is_space, or_null,
  if◌then◌else◌, ◌==◌,
}

unfoldable pub trim_start : String → String
trim_start String.[] = ""
trim_start (String.◌∷◌ c s) =
    let rest = trim_start s in if is_space (code c) then rest else String.◌∷◌ c s

unfoldable pub is_blank : String → Bool
is_blank String.[] = true
is_blank (String.◌∷◌ c s) = is_space (code c) && is_blank s

unfoldable pub trim_end : String → String
unfolding is_blank
trim_end String.[] = ""
trim_end (String.◌∷◌ c s) =
    let rest = trim_end s in if is_blank (String.◌∷◌ c s) then "" else String.◌∷◌ c rest

unfoldable pub trim : String → String
unfolding trim_start trim_end
trim s = trim_end (trim_start s)

-- The texts before and after the first `=`, as `indexOf('=')` and two slices give them.
abbrev pub prepend : Char → Option (String × String) → Option (String × String)
prepend c none = none
prepend c (some (name, value)) = some (String.◌∷◌ c name, value)

unfoldable pub split_pair : String → Option (String × String)
split_pair String.[] = none
split_pair (String.◌∷◌ c s) =
    let rest = split_pair s in if eqb (code c) b'=' then some ("", s) else prepend c rest

-- What follows a prefix, as `startsWith` and `slice`.
unfoldable pub after_prefix : String → String → Option String
after_prefix String.[] s = some s
after_prefix (String.◌∷◌ p ps) String.[] = none
after_prefix (String.◌∷◌ p ps) (String.◌∷◌ c s) =
    let rest = after_prefix ps s in if eqb (code p) (code c) then rest else none

-- The headers that the program reads.
pub record Headers : Type 0 where
  pub cookie : Option String
  pub authorization : Option String
  pub x_refresh_token : Option String
  pub x_request_id : Option String
  pub x_tenant_id : Option String
  pub x_user_id : Option String
  pub x_platform_api_key : Option String

abbrev pub or_empty : Option String → String
or_empty none = ""
or_empty (some s) = s

abbrev pub access_cookie : String
access_cookie = "access_token"

abbrev pub refresh_cookie : String
refresh_cookie = "refresh_token"

module _ (encode : String → String) (decode : String → String) where
  -- `buildCookie`: `secure` is `cookieSecure()`, and `max_age` the number as text.
  unfoldable pub build_cookie : Bool → String → String → Option String → String
  build_cookie secure name value max_age =
      (name ++ ("=" ++ encode value))
      ++ ("; Path=/; HttpOnly; SameSite=Lax"
          ++ ((if secure then "; Secure" else "")
              ++ elim max_age [ none ↦ "" | some n ↦ "; Max-Age=" ++ n ]))

  abbrev pub clear_cookie : Bool → String → String
  clear_cookie secure name = build_cookie secure name "" (some "0")

  -- The Set-Cookie headers that `attachAuthCookies` and `clearAuthCookies` append.
  abbrev pub attach_auth_cookies : Bool → String → String → List String
  attach_auth_cookies secure access_token refresh_token =
      build_cookie secure access_cookie access_token (some "900")
      ∷ build_cookie secure refresh_cookie refresh_token (some "604800")
      ∷ []

  abbrev pub clear_auth_cookies : Bool → List String
  clear_auth_cookies secure =
      clear_cookie secure access_cookie ∷ clear_cookie secure refresh_cookie ∷ []

  -- One entry of the loop of `getCookie`, before the others.
  unfoldable pub entry_or : String → Option (String × String) → Option String → Option String
  entry_or name none rest = rest
  entry_or name (some (key, value)) rest = if trim key == name then some (decode value) else rest

  unfoldable pub find_cookie : String → List String → Option String
  unfolding entry_or
  find_cookie name [] = none
  find_cookie name (entry ∷ entries) = entry_or name (split_pair entry) (find_cookie name entries)

  unfoldable pub get_cookie : Headers → String → Option String
  get_cookie h name = find_cookie name (split_on b';' (or_empty h.cookie))

  -- The token of an `authorization` header that starts with `Bearer `.
  abbrev pub bearer : Option String → Option String
  bearer none = none
  bearer (some s) = after_prefix "Bearer " s

  unfoldable pub extract_access_token : Headers → Option String
  unfolding get_cookie
  extract_access_token h =
      let cookie = get_cookie h access_cookie in
      elim (bearer h.authorization) [ none ↦ cookie | some token ↦ some token ]

  unfoldable pub extract_refresh_token : Headers → Option String
  unfolding get_cookie
  extract_refresh_token h =
      let cookie = get_cookie h refresh_cookie in
      elim (or_null h.x_refresh_token) [ none ↦ cookie | some token ↦ some token ]
