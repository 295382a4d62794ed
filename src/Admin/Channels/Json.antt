-- ===== src/Admin/Channels/Json.antt =====
-- JSON values as the channel configuration reads and writes them. A field is looked up by its name;
-- the order of fields that look like array indices, and inherited properties, are not modelled.
use hippo_build_x.Prelude.{
  String, List, [], ◌∷◌, ◌≡◌, ◌≢◌, refl, inl, inr, Bool, true, false, not, Option, none, some,
  Bool-cases, eq_iff, eq_refl, ◌==◌, if◌then◌else◌, arith,
}

mutual
  -- A number and an array hold their text; `zero` is whether the number is falsy.
  pub data Value : Type 0 where
    text : String → Value
    flag : Bool → Value
    null : Value
    number : (zero : Bool) → String → Value
    array : String → Value
    object : Fields → Value

  pub data Fields : Type 0 where
    end : Fields
    field : String → Value → Fields → Fields

-- `Boolean(value)`
unfoldable pub is_truthy : Value → Bool
is_truthy (text s) = not (s == "")
is_truthy (flag b) = b
is_truthy null = false
is_truthy (number zero _) = not zero
is_truthy (array _) = true
is_truthy (object _) = true

-- `fields[name]`, which is undefined for a name that is not there.
unfoldable pub get : String → Fields → Option Value
get name end = none
get name (field j v rest) = if j == name then some v else get name rest

-- `fields[name] = value`
unfoldable pub put : String → Value → Fields → Fields
put name v end = field name v end
put name v (field j w rest) = if j == name then field j v rest else field j w (put name v rest)

-- `{ ...a, ...b }`
unfoldable pub merge : Fields → Fields → Fields
unfolding put
merge a end = a
merge a (field j v rest) = merge (put j v a) rest

-- `Object.keys(fields).length > 0`
unfoldable pub has_keys : Fields → Bool
has_keys end = false
has_keys (field _ _ _) = true

-- `value || undefined`
abbrev pub or_undefined : Option Value → Option Value
or_undefined none = none
or_undefined (some v) = if is_truthy v then some v else none

-- `...(value ? { [name]: value } : {})`
unfoldable pub put_if : String → Option Value → Fields → Fields
unfolding put is_truthy
put_if name none f = f
put_if name (some v) f = if is_truthy v then put name v f else f

pub get-put_same : (name : String) (v : Value) (f : Fields) → get name (put name v f) ≡ some v
unfolding get put
get-put_same name v end = rw (eq_refl name) refl
get-put_same name v (field j w rest) = elim (Bool-cases (j == name)) [
  | inl here ↦ rw here (rw here refl)
  | inr there ↦ rw there (rw there (get-put_same name v rest))
]

pub get-put_other :
    (k name : String) (v : Value) (f : Fields) → name ≢ k → get k (put name v f) ≡ get k f
unfolding get put
get-put_other k name v end ne = ground (arith, eq_iff name k)
get-put_other k name v (field j w rest) ne = elim (Bool-cases (j == name)) [
  | inl here ↦ rw here (ground (arith, eq_iff name k, eq_iff j name, eq_iff j k))
  | inr there ↦ rw there (rw (get-put_other k name v rest ne) refl)
]

-- The fields with these names that an object has: those that are not `undefined`.
unfoldable pub given_fields : List String → Fields → Fields
unfolding get
given_fields [] body = end
given_fields (name ∷ names) body =
    let rest = given_fields names body in
    elim (get name body) [ none ↦ rest | some v ↦ field name v rest ]
