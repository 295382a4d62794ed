-- ===== src/Rbac/Context.antt =====
-- The part of a request context that packages/rbac/src reads, and the tests on role names that
-- guards/index.js and scope-resolver.js share. A missing list reads as the empty one (`|| []`).
use hippo_build_x.Prelude.{
  ℕ, ◌+◌, String, Bool, true, false, ◌&&◌, ◌||◌, Option, none, some, List, [], ◌∷◌, map, codes, leb,
  eqb, if◌then◌else◌, ◌==◌,
}

-- A string property that may be absent: `undefined` and `null` are two values of `===`.
pub data JsString : Type 0 where
  undefined null : JsString
  str : String → JsString

-- `a === b`
abbrev pub strict_eq : JsString → JsString → Bool
strict_eq undefined undefined = true
strict_eq null null = true
strict_eq (str a) (str b) = a == b
strict_eq _ _ = false

-- Whether `a` is truthy, with the string that it then is.
abbrev pub present : JsString → Option String
present undefined = none
present null = none
present (str a) = if a == "" then none else some a

pub record Ctx : Type 0 where
  pub user_id : JsString
  pub roles : List String
  pub permissions : List String
  pub project_ids : List String
  pub location_ids : List String

-- One character under `toLowerCase`. Only the letters A to Z are changed: no other character maps
-- into the letters of the words that roles are compared with.
abbrev pub lower_code : ℕ → ℕ
lower_code c = if leb b'A' c && leb c b'Z' then c + 32 else c

-- `String(r).toLowerCase()`, as code points.
abbrev pub lower_codes : String → List ℕ
lower_codes r = map lower_code (codes r)

abbrev pub same_codes : List ℕ → List ℕ → Bool
same_codes [] [] = true
same_codes (c ∷ cs) (d ∷ ds) = eqb c d && same_codes cs ds
same_codes _ _ = false

-- `String(r).toLowerCase() === word` for a lower-case ASCII word.
unfoldable pub lower_is : String → String → Bool
lower_is word r = same_codes (lower_codes r) (codes word)

-- `['administrator', 'admin'].includes(String(r).toLowerCase())`
unfoldable pub is_admin_role : String → Bool
unfolding lower_is
is_admin_role r = lower_is "administrator" r || lower_is "admin" r
