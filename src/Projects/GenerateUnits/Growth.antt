-- ===== src/Projects/GenerateUnits/Growth.antt =====
-- What a generation of units may add to the tables, and how two parts of one compose.
use mathlib.Core.List.{append_assoc, append-nil}
use hippo_build_x.Prelude.{
  ℕ, zero, suc, String, ◌≡◌, refl, sym, ap, ◌∙◌, true, ◌&&◌, List, [], ◌∷◌, ◌++◌, All, any, or_null,
  ◌==◌, not,
}
use hippo_build_x.Prelude.Effect.{Result, ok, err, bind_result}
use hippo_build_x.Projects.GenerateUnits.{
  ℤ, next, Floor, NewUnit, Structure, Generation, has_number, unit_number,
}

All-append : {A : Type 0} (P : A → Type 0) (xs ys : List A) → All P xs → All P ys → All P (xs ++ ys)
All-append P [] ys h k = k
All-append P (x ∷ xs) ys (h, hs) k = (h, All-append P xs ys hs k)

-- A unit of the tower, and one on a floor with a given number.
abbrev pub IsGenerated : Generation → NewUnit → Type 0
IsGenerated g u =
    (u.project_id ≡ g.project_id) × (u.tower_id ≡ g.tower_id) × (u.status ≡ "available")

abbrev pub IsPlaced : Generation → String → String → NewUnit → Type 0
IsPlaced g floor_id number u =
    IsGenerated g u
    × (u.floor_id ≡ floor_id)
    × (u.unit_number ≡ number)
    × (u.category_id ≡ or_null g.category_id)

abbrev pub IsFloor : Generation → Floor → Type 0
IsFloor g f = (f.tower_id ≡ g.tower_id) × (f.project_id ≡ g.project_id)

-- The units of one floor: so many, numbered from the index on.
abbrev pub OnFloor : Generation → ℤ → String → ℕ → ℕ → List NewUnit → Type 0
OnFloor g n floor_id zero index us = us ≡ []
OnFloor g n floor_id (suc left) index us =
    (u : NewUnit) × (rest : List NewUnit) × (us ≡ u ∷ rest)
    × IsPlaced g floor_id (unit_number g n index) u
    × OnFloor g n floor_id left (suc index) rest

-- The table has a floor with this id that is live and has the number in the tower.
abbrev pub HasFloor : Generation → ℤ → String → List Floor → Type 0
HasFloor g n floor_id floors =
    any (λ f. f.id == floor_id && (has_number g.tower_id n f && not f.deleted)) floors ≡ true

-- The units of so many floors from the number on: on each one those of that floor.
abbrev pub PerFloor : Generation → ℕ → ℤ → List NewUnit → List Floor → Type 0
PerFloor g zero n us floors = us ≡ []
PerFloor g (suc left) n us floors =
    (floor_id : String) × (own : List NewUnit) × (others : List NewUnit) × (us ≡ own ++ others)
    × HasFloor g n floor_id floors
    × OnFloor g n floor_id g.units_per_floor 1 own
    × PerFloor g left (next n) others floors

-- These units and some floors of the tower were inserted, and nothing that was there is changed.
pub record Grown (g : Generation) (s s' : Structure) (us : List NewUnit) : Type 0 where
  pub floors : List Floor
  pub units_added : s'.units ≡ s.units ++ us
  pub floors_added : s'.floors ≡ s.floors ++ floors
  pub same_towers : s'.towers ≡ s.towers
  pub generated : All (IsGenerated g) us
  pub of_tower : All (IsFloor g) floors

-- A call that returns has inserted the units that it returns, which are as described; one that throws
-- may have inserted some before.
abbrev pub Inserts :
    Generation
    → (List NewUnit → List Floor → Type 0)
    → Structure
    → Result (List NewUnit) × Structure
    → Type 0
Inserts g D s (ok us, s') = Grown g s s' us × D us s'.floors
Inserts g D s (err e, s') = (us : List NewUnit) × Grown g s s' us

module _ (g : Generation) where
  pub Grown-none : (s : Structure) → Grown g s s []
  Grown-none s = record {
    floors = [];
    units_added = sym (append-nil s.units);
    floors_added = sym (append-nil s.floors);
    same_towers = refl;
    generated = tt;
    of_tower = tt;
  }

  pub Grown-then :
      (s s1 s2 : Structure) (us vs : List NewUnit)
      → Grown g s s1 us
      → Grown g s1 s2 vs
      → Grown g s s2 (us ++ vs)
  Grown-then s s1 s2 us vs h k = record {
    floors = h.floors ++ k.floors;
    units_added = k.units_added ∙ ap (λ l. l ++ vs) h.units_added ∙ append_assoc s.units us vs;
    floors_added =
        k.floors_added
        ∙ ap (λ l. l ++ k.floors) h.floors_added
        ∙ append_assoc s.floors h.floors k.floors;
    same_towers = k.same_towers ∙ h.same_towers;
    generated = All-append (IsGenerated g) us vs h.generated k.generated;
    of_tower = All-append (IsFloor g) h.floors k.floors h.of_tower k.of_tower;
  }

  -- Units that were inserted before those of the rest.
  pub Inserts-more :
      (D E : List NewUnit → List Floor → Type 0) (us : List NewUnit) (s s' : Structure)
      (r : Result (List NewUnit) × Structure)
      → Grown g s s' us
      → ((more : List NewUnit) (s2 : Structure)
          → Grown g s' s2 more
          → D more s2.floors
          → E (us ++ more) s2.floors)
      → Inserts g D s' r
      → Inserts g E s (bind_result r (λ more s''. (ok (us ++ more), s'')))
  Inserts-more D E us s s' (ok more, s'') h extend (k, d) =
      (Grown-then s s' s'' us more h k, extend more s'' k d)
  Inserts-more D E us s s' (err e, s'') h extend (more, k) =
      (us ++ more, Grown-then s s' s'' us more h k)
