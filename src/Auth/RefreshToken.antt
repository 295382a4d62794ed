-- ===== src/Auth/RefreshToken.antt =====
-- session-service.js: `formatRefreshToken` and `parseRefreshToken`.
pub mod RoundTrip
use Prim.Native.String
use Prim.Native.String.{◌++◌}
use Prim.Native.Char.{Char, code}
use hippo_build_x.Prelude.{
  ℕ, String, Bool, true, false, List, [], ◌∷◌, Option, none, some, eqb, split_on, codes,
  if◌then◌else◌,
}
use hippo_build_x.Prelude.Effect.{Result, ok, err}
use hippo_build_x.Shared.Errors.{unauthorized}
use hippo_build_x.Db.Names.{is_tenant_id}

-- `value.split('.')`
unfoldable pub split_dots : String → List String
unfolding split_on
split_dots value = split_on b'.' value

-- `parts.join('.')`
unfoldable pub join_dots : List String → String
join_dots [] = ""
join_dots (part ∷ []) = part
join_dots (part ∷ next ∷ parts) = part ++ ("." ++ join_dots (next ∷ parts))

pub record Parsed : Type 0 where
  pub tenant_id : String
  pub token_body : String

unfoldable pub parse_parts : List String → Result Parsed
unfolding join_dots
parse_parts (id ∷ body ∷ []) =
    if is_tenant_id (codes id)
    then ok (record { tenant_id = id; token_body = body })
    else err (unauthorized "Invalid refresh token")
parse_parts (id ∷ _ ∷ part ∷ parts) =
    if is_tenant_id (codes id)
    then ok (record { tenant_id = id; token_body = join_dots (part ∷ parts) })
    else err (unauthorized "Invalid refresh token")
parse_parts _ = err (unauthorized "Invalid refresh token")

unfoldable pub parse_refresh_token : String → Result Parsed
unfolding split_dots parse_parts
parse_refresh_token value = parse_parts (split_dots value)

unfoldable pub format_refresh_token : String → String → String
format_refresh_token tenant_id raw = tenant_id ++ ("." ++ raw)
