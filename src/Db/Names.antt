-- ===== src/Db/Names.antt =====
-- packages/db/src/migrations/schema-name.js and the tests of packages/db/src/client.js, over code
-- points.
pub mod Safe
use hippo_build_x.Prelude.{
  ℕ, suc, ◌+◌, String, Bool, true, false, not, ◌&&◌, ◌||◌, Option, none, some, List, [], ◌∷◌, ◌++◌,
  map, filter, length, leb, eqb, codes, if◌then◌else◌,
}

abbrev pub is_digit : ℕ → Bool
is_digit c = leb b'0' c && leb c b'9'

abbrev pub is_lower : ℕ → Bool
is_lower c = leb b'a' c && leb c b'z'

abbrev pub is_upper : ℕ → Bool
is_upper c = leb b'A' c && leb c b'Z'

-- `[a-z0-9_]`
abbrev pub is_name_code : ℕ → Bool
is_name_code c = is_lower c || is_digit c || eqb c b'_'

-- `[0-9a-f]`
abbrev pub is_hex : ℕ → Bool
is_hex c = is_digit c || (leb b'a' c && leb c b'f')

abbrev pub all : (ℕ → Bool) → List ℕ → Bool
all p [] = true
all p (c ∷ cs) = p c && all p cs

-- `toLowerCase()`: the letters A to Z, and the two other characters whose lower case holds a letter
-- from a to z (İ and the Kelvin sign). Any other stays outside a to z, and stands for itself.
abbrev pub to_lower : ℕ → List ℕ
to_lower c =
    if is_upper c
    then (c + 32) ∷ []
    else if eqb c 304
    then b'i' ∷ 775 ∷ []
    else if eqb c 8490
    then b'k' ∷ []
    else c ∷ []

abbrev pub lower_case : List ℕ → List ℕ
lower_case [] = []
lower_case (c ∷ cs) = to_lower c ++ lower_case cs

-- `.replace(/[^a-z0-9_]/g, '_')`
abbrev pub mask : ℕ → ℕ
mask c = if is_name_code c then c else b'_'

-- `.replace(/_+/g, '_')`
unfoldable pub collapse : List ℕ → List ℕ
collapse [] = []
collapse (c ∷ []) = c ∷ []
collapse (c ∷ d ∷ cs) =
    let rest = collapse (d ∷ cs) in if eqb c b'_' && eqb d b'_' then rest else c ∷ rest

-- `.replace(/^_+|_+$/g, '')`
abbrev pub drop_leading : List ℕ → List ℕ
drop_leading [] = []
drop_leading (c ∷ cs) = let rest = drop_leading cs in if eqb c b'_' then rest else c ∷ cs

abbrev pub blank : List ℕ → Bool
blank [] = true
blank (c ∷ cs) = eqb c b'_' && blank cs

abbrev pub drop_trailing : List ℕ → List ℕ
drop_trailing [] = []
drop_trailing (c ∷ cs) = if blank (c ∷ cs) then [] else c ∷ drop_trailing cs

abbrev pub prefix : List ℕ
prefix = codes "tenant_"

-- `if (!normalized) throw …; return `tenant_${normalized}`;`, with `none` for the error.
unfoldable pub with_prefix : List ℕ → Option (List ℕ)
with_prefix [] = none
with_prefix (c ∷ cs) = some (prefix ++ c ∷ cs)

-- `toSchemaName`
unfoldable pub to_schema_name : List ℕ → Option (List ℕ)
unfolding collapse with_prefix
to_schema_name slug =
    with_prefix (drop_trailing (drop_leading (collapse (map mask (lower_case slug)))))

-- `toTenantSchemaName`
unfoldable pub to_tenant_schema_name : List ℕ → Option (List ℕ)
to_tenant_schema_name tenant_id =
    let normalized = lower_case (filter (λ c. not (eqb c b'-')) tenant_id) in
    if all is_hex normalized && eqb (length normalized) 32
    then some (prefix ++ normalized)
    else none

-- What follows the prefix of a name is one or more of `[a-z0-9_]`.
abbrev pub after_prefix : List ℕ → List ℕ → Bool
after_prefix [] [] = false
after_prefix [] (c ∷ cs) = all is_name_code (c ∷ cs)
after_prefix (p ∷ ps) [] = false
after_prefix (p ∷ ps) (c ∷ cs) = eqb p c && after_prefix ps cs

-- `/^tenant_[a-z0-9_]+$/`, the test of `assertSafeSchemaName` and of `createTenantSql`.
unfoldable pub is_safe_schema_name : List ℕ → Bool
is_safe_schema_name name = after_prefix prefix name

-- `/^[0-9a-f-]{36}$/i`, of `assertTenantId`.
unfoldable pub is_tenant_id : List ℕ → Bool
is_tenant_id id =
    eqb (length id) 36 && all (λ c. is_hex c || (leb b'A' c && leb c b'F') || eqb c b'-') id
