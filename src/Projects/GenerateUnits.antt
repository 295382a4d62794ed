-- ===== src/Projects/GenerateUnits.antt =====
-- apps/web/src/modules/projects/property-service.js, `generateUnits`. Floor numbers are integers, the
-- number of units for each floor is a natural number, and `uuid` gives the ids that PostgreSQL draws.
-- The tables are those of one tenant; of the database's errors only the unique constraints are
-- modelled, `UNIQUE (tower_id, floor_number)` and `UNIQUE (project_id, tower_id, floor_id,
-- unit_number)`. Each statement is its own transaction, so what was inserted before an error stays.
pub mod Growth
pub mod Created
use Prim.Native.String.{◌++◌ as join_text}
use hippo_build_x.Prelude.{
  ℕ, zero, suc, ◌+◌, ◌-◌, ◌/◌, ◌%◌, String, Bool, true, false, not, ◌&&◌, ◌||◌, Option, none, some,
  List, [], ◌∷◌, ◌++◌, any, find, leb, ltb, or_null, if◌then◌else◌, ◌==◌,
}
use hippo_build_x.Prelude.Effect.{Result, ok, err, app, other, bind_result}
use hippo_build_x.Shared.Errors.{validation}
use hippo_build_x.Shared.Errors.ErrorCode

-- Integers: `pos n` is n and `negsuc n` is -(n + 1).
pub data ℤ : Type 0 where
  pos negsuc : ℕ → ℤ

abbrev pub next : ℤ → ℤ
next (pos n) = pos (suc n)
next (negsuc zero) = pos zero
next (negsuc (suc n)) = negsuc n

abbrev pub same_int : ℤ → ℤ → Bool
same_int (pos m) (pos n) = leb m n && leb n m
same_int (negsuc m) (negsuc n) = leb m n && leb n m
same_int _ _ = false

-- `a > b`
abbrev pub above : ℤ → ℤ → Bool
above (pos m) (pos n) = ltb n m
above (pos m) (negsuc n) = true
above (negsuc m) (pos n) = false
above (negsuc m) (negsuc n) = ltb m n

-- How often a loop from the first number up to the second runs, when the first is not above.
abbrev pub span : ℤ → ℤ → ℕ
span (pos m) (pos n) = suc (n - m)
span (negsuc m) (pos n) = suc (suc (m + n))
span (negsuc m) (negsuc n) = suc (m - n)
span (pos m) (negsuc n) = 0

abbrev pub nth_text : List String → ℕ → String
nth_text [] n = ""
nth_text (d ∷ ds) zero = d
nth_text (d ∷ ds) (suc n) = nth_text ds n

abbrev pub digit : ℕ → String
digit n = nth_text ("0" ∷ "1" ∷ "2" ∷ "3" ∷ "4" ∷ "5" ∷ "6" ∷ "7" ∷ "8" ∷ "9" ∷ []) n

unfoldable pub decimal_on : ℕ → ℕ → String
decimal_on zero n = ""
decimal_on (suc fuel) n =
    let tens = decimal_on fuel (n / 10) in
    if ltb n 10 then digit n else join_text tens (digit (n % 10))

-- A number as text; it has no more digits than the number and one.
abbrev pub decimal : ℕ → String
decimal n = decimal_on (suc n) n

abbrev pub int_text : ℤ → String
int_text (pos n) = decimal n
int_text (negsuc n) = join_text "-" (decimal (suc n))

-- `String(index).padStart(2, '0')`
abbrev pub two_digits : ℕ → String
two_digits n = if ltb n 10 then join_text "0" (decimal n) else decimal n

pub record Tower : Type 0 where
  pub id : String
  pub project_id : String
  pub deleted : Bool

pub record Floor : Type 0 where
  pub id : String
  pub project_id : String
  pub tower_id : String
  pub floor_number : ℤ
  pub name : String
  pub created_by : Option String
  pub deleted : Bool

pub record NewUnit : Type 0 where
  pub id : String
  pub project_id : String
  pub tower_id : String
  pub floor_id : String
  pub category_id : Option String
  pub unit_number : String
  pub status : String
  pub created_by : Option String

pub record Structure : Type 0 where
  pub towers : List Tower
  pub floors : List Floor
  pub units : List NewUnit
  pub serial : ℕ

-- The arguments.
pub record Generation : Type 0 where
  pub project_id : String
  pub tower_id : String
  pub category_id : Option String
  pub floor_from : ℤ
  pub floor_to : ℤ
  pub units_per_floor : ℕ
  pub unit_prefix : Option String
  pub user_id : Option String

abbrev pub Step : Type 0 → Type 0
Step A = Structure → Result A × Structure

abbrev pub prefix_text : Option String → String
prefix_text none = ""
prefix_text (some p) = p

-- `unitNumber`
abbrev pub unit_number : Generation → ℤ → ℕ → String
unit_number g floor index =
    join_text (prefix_text g.unit_prefix) (join_text (int_text floor) (two_digits index))

abbrev pub has_number : String → ℤ → Floor → Bool
has_number tower_id n f = f.tower_id == tower_id && same_int f.floor_number n

abbrev pub same_coordinate : Generation → String → String → NewUnit → Bool
same_coordinate g floor_id number u =
    u.project_id == g.project_id
    && (u.tower_id == g.tower_id && (u.floor_id == floor_id && u.unit_number == number))

module _ (uuid : ℕ → String) where
  abbrev pub new_floor : Generation → ℤ → ℕ → Floor
  new_floor g n serial = record {
    id = uuid serial;
    project_id = g.project_id;
    tower_id = g.tower_id;
    floor_number = n;
    name = join_text "Floor " (int_text n);
    created_by = or_null g.user_id;
    deleted = false;
  }

  -- The floor's id: of the live floor with the number, or of a new one.
  unfoldable pub floor_for : Option Floor → Generation → ℤ → Step String
  floor_for (some f) g n s = (ok f.id, s)
  floor_for none g n s =
      if any (has_number g.tower_id n) s.floors
      then (err (other "duplicate key value violates unique constraint"), s)
      else (
        ok (uuid s.serial),
        record s { floors = s.floors ++ new_floor g n s.serial ∷ []; serial = suc s.serial },
      )

  abbrev pub new_unit : Generation → String → String → ℕ → NewUnit
  new_unit g floor_id number serial = record {
    id = uuid serial;
    project_id = g.project_id;
    tower_id = g.tower_id;
    floor_id = floor_id;
    category_id = or_null g.category_id;
    unit_number = number;
    status = "available";
    created_by = or_null g.user_id;
  }

  unfoldable pub insert_unit : Generation → String → String → Step NewUnit
  insert_unit g floor_id number s =
      if any (same_coordinate g floor_id number) s.units
      then (
        err (app ErrorCode.already_exists (join_text "Duplicate unit coordinate: " number) 409),
        s,
      )
      else (
        ok (new_unit g floor_id number s.serial),
        record s {
          units = s.units ++ new_unit g floor_id number s.serial ∷ [];
          serial = suc s.serial;
        },
      )

  -- The inner loop: so many units from the index on.
  unfoldable pub make_units : Generation → ℤ → String → ℕ → ℕ → Step (List NewUnit)
  make_units g n floor_id zero index s = (ok [], s)
  make_units g n floor_id (suc left) index s =
      bind_result (insert_unit g floor_id (unit_number g n index) s) (λ u s'.
        bind_result (make_units g n floor_id left (suc index) s') (λ us s''. (ok (u ∷ us), s'')))

  abbrev pub live_floor : Generation → ℤ → Floor → Bool
  live_floor g n f = has_number g.tower_id n f && not f.deleted

  -- The outer loop: so many floors from the number on.
  unfoldable pub make_floors : Generation → ℕ → ℤ → Step (List NewUnit)
  make_floors g zero n s = (ok [], s)
  make_floors g (suc left) n s =
      bind_result (floor_for (find (live_floor g n) s.floors) g n s) (λ floor_id s1.
        bind_result (make_units g n floor_id g.units_per_floor 1 s1) (λ us s2.
          bind_result (make_floors g left (next n) s2) (λ more s3. (ok (us ++ more), s3))))

  abbrev pub is_tower : Generation → Tower → Bool
  is_tower g t = t.id == g.tower_id && (t.project_id == g.project_id && not t.deleted)

  unfoldable pub generate_units : Generation → Step (List NewUnit)
  generate_units g s =
      if above g.floor_from g.floor_to
      then (err (validation "floorFrom must be <= floorTo"), s)
      else if ltb g.units_per_floor 1 || ltb 50 g.units_per_floor
      then (err (validation "unitsPerFloor must be 1-50"), s)
      else if any (is_tower g) s.towers
      then make_floors g (span g.floor_from g.floor_to) g.floor_from s
      else (err (app ErrorCode.not_found "Tower not found" 404), s)
