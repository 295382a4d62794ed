-- ===== src/Prelude/Text.antt =====
-- Text: code points, parts between separators, and JavaScript's truthiness of a string that may be null.
use Prim.Native.Nat.{ℕ, ◌+◌}
use Prim.Native.Char.{Char, code}
use Prim.Native.String.{String, ◌++◌}
use mathlib.Core.Path.{◌≡◌, refl}
use mathlib.Core.Bool.{Bool, false, not, ◌&&◌, ◌||◌}
use mathlib.Core.Option.{Option, none, some}
use mathlib.Core.List.{List, [], ◌∷◌}
use text.Mathlib.Text.{◌==◌}
use text.Mathlib.TextLemmas.{nil-append, cons-append}
use hippo_build_x.Prelude.Tests.{eqb, leb, ltb, if◌then◌else◌}

-- The code points of a text. `String` has its own `[]` and `∷`.
abbrev pub codes : String → List ℕ
codes String.[] = []
codes (String.◌∷◌ c s) = code c ∷ codes s

-- UTF-16 units, as `length` of a string counts them.
abbrev pub units : List ℕ → ℕ
units [] = 0
units (c ∷ cs) = (if ltb c 65536 then 1 else 2) + units cs

-- `Boolean(value)` of a string that may be null or undefined: the empty string is falsy.
abbrev pub truthy : Option String → Bool
truthy none = false
truthy (some s) = not (s == "")

-- `value || null`
abbrev pub or_null : Option String → Option String
or_null none = none
or_null (some s) = if s == "" then none else some s

-- White space and line ends of ECMAScript.
abbrev pub is_space : ℕ → Bool
is_space c =
    (leb 9 c && leb c 13)
    || (eqb c 32
        || (eqb c 160
            || (eqb c 5760
                || ((leb 8192 c && leb c 8202)
                    || (eqb c 8232
                        || (eqb c 8233
                            || (eqb c 8239 || (eqb c 8287 || (eqb c 12288 || eqb c 65279)))))))))

-- The next character goes in front of the first part.
unfoldable pub extend : Char → List String → List String
extend c [] = (String.◌∷◌ c "") ∷ []
extend c (part ∷ parts) = (String.◌∷◌ c part) ∷ parts

-- `value.split(separator)`, of one character.
unfoldable pub split_on : ℕ → String → List String
unfolding extend
split_on k String.[] = "" ∷ []
split_on k (String.◌∷◌ c s) =
    let parts = split_on k s in if eqb (code c) k then "" ∷ parts else extend c parts

-- The character does not stand in the text.
abbrev pub Lacks : ℕ → String → Type 0
Lacks k String.[] = Unit
Lacks k (String.◌∷◌ c s) = (eqb (code c) k ≡ false) × Lacks k s

pub split_on-plain : (k : ℕ) (s : String) → Lacks k s → split_on k s ≡ s ∷ []
unfolding split_on extend
split_on-plain k String.[] h = refl
split_on-plain k (String.◌∷◌ c s) (h, r) = rw (h, split_on-plain k s r)

-- A separator ends a part.
pub split_on-append :
    (k : ℕ) (s sep t : String)
    → Lacks k s
    → split_on k (sep ++ t) ≡ "" ∷ split_on k t
    → split_on k (s ++ (sep ++ t)) ≡ s ∷ split_on k t
unfolding split_on extend
split_on-append k String.[] sep t h e = rw nil-append e
split_on-append k (String.◌∷◌ c s) sep t (h, r) e =
    rw cons-append (rw (h, split_on-append k s sep t r e))
