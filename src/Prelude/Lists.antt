-- ===== src/Prelude/Lists.antt =====
-- Lists under native numbers and Boolean tests.
use Prim.Native.Nat.{ℕ, zero, suc, ◌+◌}
use Prim.Native.String.{String}
use mathlib.Core.Path.{◌≡◌, refl, subst}
use mathlib.Core.Logic.{◌⊎◌, inl, inr, ◌↔◌, ◌≢◌}
use mathlib.Core.Bool.{Bool, true, false, ◌||◌}
use mathlib.Core.Option.{Option, none, some, some-injective}
use mathlib.Core.List.{List, [], ◌∷◌, ◌++◌}
use native.Mathlib.Omega.{arith}
use text.Mathlib.Text.{◌==◌}
use text.Mathlib.TextEquality.{eq_iff}
use hippo_build_x.Prelude.Tests.{if◌then◌else◌, Bool-cases}

-- `xs.includes(s)` for strings.
abbrev pub includes : List String → String → Bool
includes [] s = false
includes (x ∷ xs) s = (x == s) || includes xs s

-- A list that holds a value, as a relation.
abbrev pub Holds : {A : Type 0} → List A → A → Type 0
Holds [] s = ⊥
Holds (x ∷ xs) s = (x ≡ s) ⊎ Holds xs s

pub Holds-append :
    {A : Type 0} (xs ys : List A) (a : A) → Holds (xs ++ ys) a ↔ (Holds xs a ⊎ Holds ys a)
Holds-append [] ys a = ground arith
Holds-append (x ∷ xs) ys a = ground (arith, Holds-append xs ys a)

module _ {ℓ} {A : Type ℓ} where
  abbrev pub length : List A → ℕ
  length [] = 0
  length (x ∷ xs) = suc (length xs)

  -- `xs.some(p)`
  abbrev pub any : (A → Bool) → List A → Bool
  any p [] = false
  any p (x ∷ xs) = p x || any p xs

  -- `xs.filter(p)`
  abbrev pub filter : (A → Bool) → List A → List A
  filter p [] = []
  filter p (x ∷ xs) = if p x then x ∷ filter p xs else filter p xs

  -- The first element that passes, as `rows[0]` of a query.
  abbrev pub find : (A → Bool) → List A → Option A
  find p [] = none
  find p (x ∷ xs) = if p x then some x else find p xs

  -- An UPDATE: `f` on the rows that pass.
  abbrev pub update : (A → Bool) → (A → A) → List A → List A
  update p f [] = []
  update p f (x ∷ xs) = (if p x then f x else x) ∷ update p f xs

  -- `P` at each element.
  abbrev pub All {κ} : (A → Type κ) → List A → Type κ
  All P [] = Unit
  All P (x ∷ xs) = P x × All P xs

  pub length-append : (xs ys : List A) → length (xs ++ ys) ≡ length xs + length ys
  length-append [] ys = omega arith
  length-append (x ∷ xs) ys = omega (arith, length-append xs ys)

pub includes_iff : (xs : List String) (s : String) → (includes xs s ≡ true) ↔ Holds xs s
includes_iff [] s = ((λ h. ground arith), (λ h. absurd h))
includes_iff (x ∷ xs) s = ground (arith, eq_iff x s, includes_iff xs s)

module _ {A : Type 0} (key : A → String) (k : String) (f : A → A) (Q : A → Type 0) where
  -- After an UPDATE of the rows with a key, they have what the UPDATE gives to each row.
  pub All-update :
      (xs : List A)
      → ((x : A) → Q (f x))
      → All (λ x. (key x ≢ k) ⊎ Q x) (update (λ x. key x == k) f xs)
  All-update [] h = tt
  All-update (x ∷ xs) h = elim (Bool-cases (key x == k)) [
    | inl same ↦ rw same (inr (h x), All-update xs h)
    | inr differs ↦ rw differs (inl (λ e. ground (arith, eq_iff (key x) k)), All-update xs h)
  ]

module _ {A : Type 0} (p : A → Bool) where
  -- An UPDATE that does not touch what a query tests gives the query the updated row.
  pub find-update :
      (q : A → Bool) (f : A → A) (xs : List A) (x : A)
      → ((y : A) → p (f y) ≡ p y)
      → find p xs ≡ some x
      → find p (update q f xs) ≡ some (if q x then f x else x)
  find-update q f [] x same e = cc
  find-update q f (y ∷ ys) x same e = elim (Bool-cases (p y)) [
    | inl here ↦ elim (Bool-cases (q y)) [
      | inl hit ↦ ground (arith, same y)
      | inr miss ↦ ground arith
    ]
    | inr there ↦ elim (Bool-cases (q y)) [
      | inl hit ↦ ground (arith, same y, find-update q f ys x same)
      | inr miss ↦ ground (arith, find-update q f ys x same)
    ]
  ]

  -- An INSERT does not change the first row that a query finds.
  pub find-append : (xs ys : List A) (x : A) → find p xs ≡ some x → find p (xs ++ ys) ≡ some x
  find-append [] ys x e = cc
  find-append (y ∷ xs) ys x e = ground (arith, find-append xs ys x)

  pub find-holds : (xs : List A) (x : A) → find p xs ≡ some x → p x ≡ true
  find-holds [] x e = cc
  find-holds (y ∷ xs) x e = elim (Bool-cases (p y)) [
    | inl here ↦ ground arith
    | inr there ↦ find-holds xs x (rw there at e)
  ]

  -- A row of an INSERT is found when no row before it is.
  pub find-append_new :
      (xs : List A) (x : A) → any p xs ≡ false → p x ≡ true → find p (xs ++ x ∷ []) ≡ some x
  find-append_new [] x h e = rw e
  find-append_new (y ∷ xs) x h e = ground (arith, find-append_new xs x)

  pub find-none : (xs : List A) → any p xs ≡ false → find p xs ≡ none
  find-none [] h = refl
  find-none (x ∷ xs) h = ground (arith, find-none xs)

  -- After an UPDATE whose rows do not meet its condition any more, no row does.
  pub update-None :
      (f : A → A) (xs : List A)
      → ((x : A) → p (f x) ≡ false)
      → All (λ x. p x ≡ false) (update p f xs)
  update-None f [] h = tt
  update-None f (x ∷ xs) h = elim (Bool-cases (p x)) [
    | inl hit ↦ rw hit (h x, update-None f xs h)
    | inr miss ↦ rw miss (miss, update-None f xs h)
  ]

  -- An UPDATE of rows that another query gives neither before nor after.
  pub filter-update :
      (q : A → Bool) (f : A → A) (xs : List A)
      → ((x : A) → q x ≡ true → (p x ≡ false) × (p (f x) ≡ false))
      → filter p (update q f xs) ≡ filter p xs
  filter-update q f [] h = refl
  filter-update q f (x ∷ xs) h = elim (Bool-cases (q x)) [
    | inl hit ↦ rw hit (rw (h x hit).1 (rw (h x hit).0 (filter-update q f xs h)))
    | inr miss ↦ rw miss (ground (arith, filter-update q f xs h))
  ]

-- Neither part of a disjunction that is false holds.
pub or_false : (a b : Bool) → (a || b) ≡ false → (a ≡ false) × (b ≡ false)
or_false false false h = (refl, refl)
or_false a b h = ground arith

-- What holds at each row holds of the one that a query gives.
pub find-All :
    {A : Type 0} (P : A → Type 0) (p : A → Bool) (xs : List A) (x : A)
    → All P xs
    → find p xs ≡ some x
    → P x
find-All {A = A} P p [] x h e = absurd (missing e)
  where
    missing : ◌≢◌ {A = Option A} none (some x)
    missing k = cc
find-All P p (y ∷ xs) x (h, r) e = elim (Bool-cases (p y)) [
  | inl here ↦ subst P (some-injective _ _ (rw here at e)) h
  | inr there ↦ find-All P p xs x r (rw there at e)
]

module _ {ℓ} {A : Type ℓ} where
  abbrev pub take : ℕ → List A → List A
  take zero xs = []
  take (suc n) [] = []
  take (suc n) (x ∷ xs) = x ∷ take n xs

  abbrev pub drop : ℕ → List A → List A
  drop zero xs = xs
  drop (suc n) [] = []
  drop (suc n) (x ∷ xs) = drop n xs

  pub take-append : (n : ℕ) (xs ys : List A) → length xs ≡ n → take n (xs ++ ys) ≡ xs
  take-append zero [] ys h = refl
  take-append zero (x ∷ xs) ys h = absurd (omega (arith, h))
  take-append (suc n) [] ys h = absurd (omega (arith, h))
  take-append (suc n) (x ∷ xs) ys h = rw (take-append n xs ys (omega (arith, h))) refl

  pub drop-append : (n : ℕ) (xs ys : List A) → length xs ≡ n → drop n (xs ++ ys) ≡ ys
  drop-append zero [] ys h = refl
  drop-append zero (x ∷ xs) ys h = absurd (omega (arith, h))
  drop-append (suc n) [] ys h = absurd (omega (arith, h))
  drop-append (suc n) (x ∷ xs) ys h = drop-append n xs ys (omega (arith, h))

module _ {A : Type 0} (p : A → Bool) where
  -- An UPDATE of the rows that a query tests, when the rows that it gives pass the test too.
  pub find-update_all :
      (f : A → A) (xs : List A)
      → ((x : A) → p (f x) ≡ true)
      → any p xs ≡ true
      → (x : A) × (find p (update p f xs) ≡ some (f x))
  find-update_all f [] h e = cc
  find-update_all f (x ∷ xs) h e = elim (Bool-cases (p x)) [
    | inl hit ↦ (x, rw hit (rw (h x) refl))
    | inr miss ↦
        let (y, found) = find-update_all f xs h (rw miss at e) in (y, rw miss (rw miss found))
  ]

  -- An UPDATE of rows that a query gives neither before nor after.
  pub find-update_other :
      (q : A → Bool) (f : A → A) (xs : List A)
      → ((x : A) → q x ≡ true → (p x ≡ false) × (p (f x) ≡ false))
      → find p (update q f xs) ≡ find p xs
  find-update_other q f [] h = refl
  find-update_other q f (x ∷ xs) h = elim (Bool-cases (q x)) [
    | inl hit ↦ rw hit (rw (h x hit).1 (rw (h x hit).0 (find-update_other q f xs h)))
    | inr miss ↦ rw miss (rw (find-update_other q f xs h) refl)
  ]

  pub find-append_other : (xs : List A) (x : A) → p x ≡ false → find p (xs ++ x ∷ []) ≡ find p xs
  find-append_other [] x h = rw h refl
  find-append_other (y ∷ xs) x h = rw (find-append_other xs x h) refl

pub any-append :
    {A : Type 0} (p : A → Bool) (xs ys : List A) → any p xs ≡ true → any p (xs ++ ys) ≡ true
any-append p [] ys h = absurd (no h)
  where
    no : ◌≡◌ {A = Bool} false true → ⊥
    no k = cc
any-append p (x ∷ xs) ys h = ground (arith, any-append p xs ys)

pub any-last :
    {A : Type 0} (p : A → Bool) (xs : List A) (x : A) → p x ≡ true → any p (xs ++ x ∷ []) ≡ true
any-last p [] x h = rw h refl
any-last p (y ∷ ys) x h = ground (arith, any-last p ys x)

pub any-found :
    {A : Type 0} (p q : A → Bool) (xs : List A) (x : A)
    → find p xs ≡ some x
    → q x ≡ true
    → any q xs ≡ true
any-found p q [] x e h = cc
any-found p q (y ∷ ys) x e h = ground (arith, any-found p q ys x)
