-- ===== src/Tests/Projects/Generation.antt =====
-- Generated units on concrete tables.
use Prim.Native.String.{◌++◌ as join_text}
use hippo_build_x.Prelude.{ℕ, String, ◌≡◌, refl, false, none, some, [], ◌∷◌, map}
use hippo_build_x.Prelude.Effect.{err, app}
use hippo_build_x.Shared.Errors.ErrorCode
use hippo_build_x.Projects.GenerateUnits.{
  pos, negsuc, decimal_on, decimal, Structure, Generation, floor_for, insert_unit, make_units,
  make_floors, generate_units,
}
use hippo_build_x.Projects.GenerateUnits.Growth.{PerFloor, Inserts}
use hippo_build_x.Projects.GenerateUnits.Created.{generate_units-Inserts}

abbrev uuid : ℕ → String
uuid n = join_text "id" (decimal n)

abbrev generation : Generation
generation = record {
  project_id = "p1";
  tower_id = "tw";
  category_id = none;
  floor_from = negsuc 0;
  floor_to = pos 1;
  units_per_floor = 2;
  unit_prefix = some "A";
  user_id = none;
}

abbrev structure : Structure
structure = record {
  towers = record { id = "tw"; project_id = "p1"; deleted = false } ∷ [];
  floors = [];
  units = [];
  serial = 0;
}

abbrev built : Structure
built = (generate_units uuid generation structure).1

numbers :
    (map (λ u. u.unit_number) built.units
      ≡ "A-101" ∷ "A-102" ∷ "A001" ∷ "A002" ∷ "A101" ∷ "A102" ∷ [])
    × ((generate_units uuid generation built).0
        ≡ err (app ErrorCode.already_exists "Duplicate unit coordinate: A-101" 409))
unfolding generate_units make_floors make_units floor_for insert_unit decimal_on
numbers = (refl, refl)

generate_units-Inserts_example :
    Inserts generation
      (PerFloor generation 3 (negsuc 0))
      structure
      (generate_units uuid generation structure)
generate_units-Inserts_example = generate_units-Inserts generation uuid structure
