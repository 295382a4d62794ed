-- ===== src/Auth/RefreshToken/RoundTrip.antt =====
-- A refresh token that was issued is read back.
use Prim.Native.String.{◌++◌}
use Prim.Native.Char.{code}
use hippo_build_x.Prelude.{
  split_on, Lacks, split_on-plain, split_on-append, ℕ, String, ◌≡◌, refl, Bool, true, false, [],
  ◌∷◌, eqb, leb, ◌&&◌, ◌||◌, codes, arith,
}
use hippo_build_x.Prelude.Effect.{ok}
use hippo_build_x.Db.Names.{is_tenant_id, is_hex, all}
use hippo_build_x.Auth.RefreshToken.{
  split_dots, parse_parts, parse_refresh_token, format_refresh_token,
}
use text.Mathlib.TextLemmas.{nil-append, cons-append}

-- No character of the text is a dot.
abbrev pub NoDot : String → Type 0
NoDot s = Lacks b'.' s

split_dots_plain : (s : String) → NoDot s → split_dots s ≡ s ∷ []
unfolding split_dots split_on
split_dots_plain s h = split_on-plain b'.' s h

split_dots-append : (s t : String) → NoDot s → split_dots (s ++ ("." ++ t)) ≡ s ∷ split_dots t
unfolding split_dots split_on
split_dots-append s t h = split_on-append b'.' s "." t h dot
  where
    dot : split_on b'.' ("." ++ t) ≡ "" ∷ split_on b'.' t
    dot = unfold split_on in rw cons-append (rw nil-append)

-- A character of a tenant's id: a hexadecimal digit in either case, or a hyphen.
abbrev is_id_code : ℕ → Bool
is_id_code c = is_hex c || (leb b'A' c && leb c b'F') || eqb c b'-'

id_code-not_dot : (c : ℕ) → is_id_code c ≡ true → eqb c b'.' ≡ false
id_code-not_dot c h = ground arith

head-tail : (a b : Bool) → (a && b) ≡ true → (a ≡ true) × (b ≡ true)
head-tail true true h = (refl, refl)
head-tail a b h = ground arith

all-NoDot : (s : String) → all is_id_code (codes s) ≡ true → NoDot s
all-NoDot String.[] h = tt
all-NoDot (String.◌∷◌ c s) h =
    let (first, rest) = head-tail _ _ h in (id_code-not_dot (code c) first, all-NoDot s rest)

is_tenant_id-NoDot : (id : String) → is_tenant_id (codes id) ≡ true → NoDot id
unfolding is_tenant_id
is_tenant_id-NoDot id h = all-NoDot id ((head-tail _ _ h).1)

-- For a tenant id that passes the test, and a random part with no dot, as base64url text has none:
-- what `formatRefreshToken` joins, `parseRefreshToken` takes apart.
pub parse-format :
    (id raw : String)
    → is_tenant_id (codes id) ≡ true
    → NoDot raw
    → parse_refresh_token (format_refresh_token id raw)
      ≡ ok (record { tenant_id = id; token_body = raw })
unfolding parse_refresh_token format_refresh_token parse_parts
parse-format id raw valid k =
    rw (split_dots-append id raw (is_tenant_id-NoDot id valid), split_dots_plain raw k) (rw valid)
