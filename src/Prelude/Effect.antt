-- ===== src/Prelude/Effect.antt =====
-- A service method on a state: it returns or throws, and what it wrote stays written when it
-- throws, except inside a transaction.
use Prim.Native.Nat.{ℕ}
use Prim.Native.String.{String}
use mathlib.Core.Logic.{◌⊎◌, inl, inr}
use mathlib.Core.Path.{◌≡◌, refl, subst}
use mathlib.Core.Bool.{Bool}
use mathlib.Core.Option.{Option, none, some}
use hippo_build_x.Prelude.Tests.{if◌then◌else◌}

-- An `AppError` with its code and HTTP status, or any other thrown `Error`.
pub data Thrown : Type 0 where
  app : (code message : String) (status_code : ℕ) → Thrown
  other : (message : String) → Thrown

pub data Result {ℓ} (A : Type ℓ) : Type ℓ where
  ok : A → Result A
  err : Thrown → Result A

module _ {S : Type 0} where
  -- How a sequence goes on after its first part.
  abbrev pub bind_result : {A B : Type 0} → Result A × S → (A → S → Result B × S) → Result B × S
  bind_result (ok a, s) f = f a s
  bind_result (err e, s) f = (err e, s)

  abbrev pub then_result : {A B : Type 0} → Result A × S → (S → Result B × S) → Result B × S
  then_result (ok a, s) k = k s
  then_result (err e, s) k = (err e, s)

  infixl 5 ◌>>=◌ ◌>>◌
  abbrev pub ◌>>=◌ : {A B : Type 0} → (S → Result A × S) → (A → S → Result B × S) → S → Result B × S
  ◌>>=◌ m f s = bind_result (m s) f

  abbrev pub ◌>>◌ : {A B : Type 0} → (S → Result A × S) → (S → Result B × S) → S → Result B × S
  ◌>>◌ m k s = then_result (m s) k

  abbrev pub pure : {A : Type 0} → A → S → Result A × S
  pure a s = (ok a, s)

  abbrev pub throw : {A : Type 0} → Thrown → S → Result A × S
  throw e s = (err e, s)

  abbrev pub gets : {A : Type 0} → (S → A) → S → Result A × S
  gets f s = (ok (f s), s)

  abbrev pub modify : (S → S) → S → Result (Unit {0}) × S
  modify f s = (ok tt, f s)

  -- `if (condition) throw error`
  abbrev pub throw_if : Bool → Thrown → S → Result (Unit {0}) × S
  throw_if c e s = (if c then err e else ok tt, s)

  -- The first row of a query, or an exception when there is none.
  abbrev pub or_throw : {A : Type 0} → Option A → Thrown → S → Result A × S
  or_throw none e s = (err e, s)
  or_throw (some a) e s = (ok a, s)

  -- `try { m } catch (error) { handler }`, of a block whose value is returned.
  abbrev pub catch_result : {A : Type 0} → Result A × S → (Thrown → S → Result A × S) → Result A × S
  catch_result (ok a, s) handler = (ok a, s)
  catch_result (err e, s) handler = handler e s

  abbrev pub try_catch :
      {A : Type 0} → (S → Result A × S) → (Thrown → S → Result A × S) → S → Result A × S
  try_catch m handler s = catch_result (m s) handler

  -- `sql.begin(...)`: a transaction that throws leaves the state as it found it.
  abbrev pub transaction : {A : Type 0} → (S → Result A × S) → S → Result A × S
  transaction m s = let (r, s') = m s in elim r [ ok a ↦ (ok a, s') | err e ↦ (err e, s) ]

module _ {S : Type 0} {A : Type 0} where
  -- What holds of the state after a call that returns.
  abbrev pub Ensures : (S → Type 0) → Result A × S → Type 0
  Ensures P (ok a, s) = P s
  Ensures P (err e, s) = Unit

  pub Ensures-of_ok :
      (P : S → Type 0) (r : Result A × S) (a : A) (s : S) → Ensures P r → r ≡ (ok a, s) → P s
  Ensures-of_ok P r a s h e = subst (Ensures P) e h

  pub Ensures-self :
      (P : S → Type 0) (r : Result A × S) → ((a : A) (s : S) → r ≡ (ok a, s) → P s) → Ensures P r
  Ensures-self P (ok a, s) h = h a s refl
  Ensures-self P (err e, s) h = tt

module _ {S : Type 0} {A B : Type 0} (P : S → Type 0) where
  seq_result :
      (r : Result A × S) (k : S → Result B × S)
      → ((a : A) (s : S) → r ≡ (ok a, s) → Ensures P (k s))
      → Ensures P (then_result r k)
  seq_result (ok a, s) k h = h a s refl
  seq_result (err e, s) k h = tt

  -- A sequence ensures what its second part ensures after each return of the first.
  pub Ensures->> :
      (m : S → Result A × S) (k : S → Result B × S) (s : S)
      → ((a : A) (s' : S) → m s ≡ (ok a, s') → Ensures P (k s'))
      → Ensures P ((m >> k) s)
  Ensures->> m k s h = seq_result (m s) k h

module _ {S : Type 0} {A B : Type 0} (Q P : S → Type 0) where
  -- A sequence whose second part needs what the first ensures.
  pub Ensures-then :
      (m : S → Result A × S) (k : S → Result B × S) (s : S)
      → Ensures Q (m s)
      → ((s' : S) → Q s' → Ensures P (k s'))
      → Ensures P ((m >> k) s)
  Ensures-then m k s h next =
      Ensures->> P m k s (λ a s' e. next s' (Ensures-of_ok Q (m s) a s' h e))

module _ {S : Type 0} {A : Type 0} (P : S → Type 0) (handler : Thrown → S → Result A × S) where
  -- A handler that throws again leaves what holds after a return as it is.
  pub Ensures-catch :
      (r : Result A × S)
      → Ensures P r
      → ((e : Thrown) (s : S) → Ensures P (handler e s))
      → Ensures P (catch_result r handler)
  Ensures-catch (ok a, s) h k = h
  Ensures-catch (err e, s) h k = k e s

pub Result-cases {ℓ} :
    {A : Type ℓ} (r : Result A) → ((a : A) × (r ≡ ok a)) ⊎ ((e : Thrown) × (r ≡ err e))
Result-cases (ok a) = inl (a, refl)
Result-cases (err e) = inr (e, refl)
