-- ===== src/Projects/GenerateUnits/Created.antt =====
-- What a generation of units adds to the tables.
use mathlib.Core.List.{append-nil}
use hippo_build_x.Prelude.{
  ℕ, zero, suc, String, ◌≡◌, refl, sym, inl, inr, true, ◌&&◌, Option, none, some, List, [], ◌∷◌,
  ◌++◌, any, any-append, any-last, any-found, find, find-holds, ltb, ◌||◌, Bool-cases, eq_refl,
  ◌==◌, arith,
}
use hippo_build_x.Prelude.Effect.{Result, ok, err, bind_result}
use hippo_build_x.Projects.GenerateUnits.{
  ℤ, pos, negsuc, next, above, span, same_int, Floor, NewUnit, Structure, Generation, has_number,
  new_floor, floor_for, new_unit, insert_unit, same_coordinate, unit_number, make_units, live_floor,
  make_floors, is_tower, generate_units,
}
use hippo_build_x.Projects.GenerateUnits.Growth.{
  IsGenerated, OnFloor, HasFloor, PerFloor, Grown, Inserts, Grown-none, Grown-then, Inserts-more,
}

module _ (g : Generation) (uuid : ℕ → String) where
  make_units-Inserts :
      (n : ℤ) (floor_id : String) (left index : ℕ) (s : Structure)
      → Inserts g
          (λ us _. OnFloor g n floor_id left index us)
          s
          (make_units uuid g n floor_id left index s)
  unfolding make_units insert_unit
  make_units-Inserts n floor_id zero index s = (Grown-none g s, refl)
  make_units-Inserts n floor_id (suc left) index s =
      elim (Bool-cases (any (same_coordinate g floor_id (unit_number g n index)) s.units)) [
        | inl taken ↦ rw taken ([], Grown-none g s)
        | inr free ↦
            let u = new_unit uuid g floor_id (unit_number g n index) s.serial in
            let s' = record s { units = s.units ++ u ∷ []; serial = suc s.serial } in
            rw free (
              Inserts-more g (λ us _. OnFloor g n floor_id left (suc index) us)
                (λ us _. OnFloor g n floor_id (suc left) index us) (u ∷ []) s s'
                (make_units uuid g n floor_id left (suc index) s') (one u (refl, refl, refl))
                (λ more _ _ d. (u, more, refl, ((refl, refl, refl), refl, refl, refl), d))
                (make_units-Inserts n floor_id left (suc index) s'))
      ]
    where
      one :
          (u : NewUnit)
          → IsGenerated g u
          → Grown g s (record s { units = s.units ++ u ∷ []; serial = suc s.serial }) (u ∷ [])
      one u h = record {
        floors = [];
        units_added = refl;
        floors_added = sym (append-nil s.floors);
        same_towers = refl;
        generated = (h, tt);
        of_tower = tt;
      }

  -- The floor of the units.
  IsReady : ℤ → Structure → Result String × Structure → Type 0
  IsReady n s (ok id, s1) = Grown g s s1 [] × HasFloor g n id s1.floors
  IsReady n s (err e, s1) = Grown g s s1 []

  same_int_refl : (n : ℤ) → same_int n n ≡ true
  same_int_refl (pos n) = ground arith
  same_int_refl (negsuc n) = ground arith

  floor_for-IsReady :
      (found : Option Floor) (n : ℤ) (s : Structure)
      → find (live_floor uuid g n) s.floors ≡ found
      → IsReady n s (floor_for uuid found g n s)
  unfolding floor_for IsReady
  floor_for-IsReady (some f) n s e = (
    Grown-none g s,
    any-found (live_floor uuid g n) (λ k. k.id == f.id && live_floor uuid g n k) s.floors f e
        (rw (eq_refl f.id) (find-holds (live_floor uuid g n) s.floors f e)),
  )
  floor_for-IsReady none n s e = elim (Bool-cases (any (has_number g.tower_id n) s.floors)) [
    | inl taken ↦ rw taken (Grown-none g s)
    | inr free ↦
        let f = new_floor uuid g n s.serial in
        rw free (
          record {
            floors = f ∷ [];
            units_added = sym (append-nil s.units);
            floors_added = refl;
            same_towers = refl;
            generated = tt;
            of_tower = ((refl, refl), tt);
          },
          any-last (λ k. k.id == f.id && live_floor uuid g n k) s.floors f
              (rw (eq_refl f.id, eq_refl g.tower_id, same_int_refl n) refl),
        )
  ]

  lift-HasFloor :
      (n : ℤ) (id : String) (s1 s2 : Structure) (us : List NewUnit)
      → Grown g s1 s2 us
      → HasFloor g n id s1.floors
      → HasFloor g n id s2.floors
  lift-HasFloor n id s1 s2 us k h =
      rw k.floors_added (any-append (λ f. f.id == id && live_floor uuid g n f) s1.floors k.floors h)

  -- One floor, and the others after it.
  floor_more :
      (left : ℕ) (n : ℤ) (s : Structure) (r : Result String × Structure)
      (units : String → Structure → Result (List NewUnit) × Structure)
      (others : Structure → Result (List NewUnit) × Structure)
      → IsReady n s r
      → ((id : String) (s' : Structure)
          → Inserts g (λ us _. OnFloor g n id g.units_per_floor 1 us) s' (units id s'))
      → ((s' : Structure) → Inserts g (PerFloor g left (next n)) s' (others s'))
      → Inserts g (PerFloor g (suc left) n) s (
          bind_result r (λ id s1.
            bind_result
              (units id s1)
              (λ us s2. bind_result (others s2) (λ more s3. (ok (us ++ more), s3)))))
  unfolding IsReady
  floor_more left n s (err e, s1) units others ready h k = ([], ready)
  floor_more left n s (ok id, s1) units others (ready, has) h k =
      after_units (units id s1) (h id s1)
    where
      after_units :
          (u : Result (List NewUnit) × Structure)
          → Inserts g (λ us _. OnFloor g n id g.units_per_floor 1 us) s1 u
          → Inserts g
              (PerFloor g (suc left) n)
              s
              (bind_result u (λ us s2. bind_result (others s2) (λ more s3. (ok (us ++ more), s3))))
      after_units (err e, s2) (us, grown) = (us, Grown-then g s s1 s2 [] us ready grown)
      after_units (ok us, s2) (grown, on) =
          Inserts-more g (PerFloor g left (next n)) (PerFloor g (suc left) n) us s s2 (others s2)
            (Grown-then g s s1 s2 [] us ready grown)
            (λ more s3 later d. (
              id,
              us,
              more,
              refl,
              lift-HasFloor n id s2 s3 more later (lift-HasFloor n id s1 s2 us grown has),
              on,
              d,
            ))
            (k s2)

  make_floors-Inserts :
      (left : ℕ) (n : ℤ) (s : Structure)
      → Inserts g (PerFloor g left n) s (make_floors uuid g left n s)
  unfolding make_floors
  make_floors-Inserts zero n s = (Grown-none g s, refl)
  make_floors-Inserts (suc left) n s =
      floor_more left n s (floor_for uuid (find (live_floor uuid g n) s.floors) g n s)
        (λ id. make_units uuid g n id g.units_per_floor 1) (make_floors uuid g left (next n))
        (floor_for-IsReady (find (live_floor uuid g n) s.floors) n s refl)
        (λ id. make_units-Inserts n id g.units_per_floor 1) (make_floors-Inserts left (next n))

  -- A generation that returns has inserted the units that it returns: floor after floor, from the
  -- first to the last, the given number of units, numbered from 1, each with the id of a live floor of
  -- the tower that has this floor's number. One that throws may have inserted units before. In both
  -- cases all units are of the tower and available, floors of the tower are at most added, and no
  -- unit, floor or tower that was there is changed.
  pub generate_units-Inserts :
      (s : Structure)
      → Inserts g
          (PerFloor g (span g.floor_from g.floor_to) g.floor_from)
          s
          (generate_units uuid g s)
  unfolding generate_units
  generate_units-Inserts s = elim (Bool-cases (above g.floor_from g.floor_to)) [
    | inl wrong ↦ rw wrong ([], Grown-none g s)
    | inr ordered ↦ elim (Bool-cases (ltb g.units_per_floor 1 || ltb 50 g.units_per_floor)) [
      | inl wrong ↦ rw (ordered, wrong) ([], Grown-none g s)
      | inr fine ↦ elim (Bool-cases (any (is_tower uuid g) s.towers)) [
        | inr missing ↦ rw (ordered, fine) (rw missing ([], Grown-none g s))
        | inl there ↦
            rw (ordered, fine)
              (rw there (make_floors-Inserts (span g.floor_from g.floor_to) g.floor_from s))
      ]
    ]
  ]
