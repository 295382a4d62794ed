-- ===== src/Projects/Locations/Laws.antt =====
-- A tower keeps one location, and a code that another project uses is refused.
use hippo_build_x.Prelude.{
  String, ◌≡◌, ◌≢◌, refl, sym, ap, subst, ◌∙◌, inl, inr, Bool, true, Option, none, some, List, [],
  ◌∷◌, ◌++◌, any, any-found, find, find-update, find-holds, Bool-cases, ◌==◌, eq_iff, eq_refl,
  arith,
}
use hippo_build_x.Prelude.Effect.{Result, ok, err, other}
use hippo_build_x.Projects.Locations.{
  Location, Tower, is_location_of, renamed, new_location, insert_location, sync_found,
  sync_location_for_tower,
}

-- The location of a tower has its name.
pub record IsSynced (t : Tower) (id : String) (rows : List Location) : Type 0 where
  pub row : Location
  pub found : find (is_location_of t) rows ≡ some row
  pub same_id : row.id ≡ id
  pub same_name : row.name ≡ t.name

find-new :
    (p : Location → Bool) (rows : List Location) (l : Location)
    → find p rows ≡ none
    → p l ≡ true
    → find p (rows ++ l ∷ []) ≡ some l
find-new p [] l e h = rw h
find-new p (k ∷ ks) l e h = elim (Bool-cases (p k)) [
  | inl here ↦ absurd (none-some (sym e ∙ rw here))
  | inr there ↦ rw there (find-new p ks l (rw there at e) h)
]
  where
    none-some : ◌≢◌ {A = Option Location} none (some k)
    none-some q = cc

new-is_location_of : (id : String) (t : Tower) → is_location_of t (new_location id t) ≡ true
new-is_location_of id t = ground (arith, eq_refl t.project_id, eq_refl t.code)

-- When the call returns, it returns the location of the tower, with the tower's name.
abbrev pub Returned : Tower → Result String × List Location → Type 0
Returned t (ok id, rows) = IsSynced t id rows
Returned t (err _, rows) = Unit

insert_location-Returned :
    (id : String) (t : Tower) (rows : List Location)
    → find (is_location_of t) rows ≡ none
    → Returned t (insert_location id t rows)
unfolding insert_location
insert_location-Returned id t rows e = elim (Bool-cases (any (λ l. l.code == t.code) rows)) [
  | inl taken ↦ rw taken tt
  | inr free ↦ rw free (record {
    row = new_location id t;
    found = find-new (is_location_of t) rows (new_location id t) e (new-is_location_of id t);
    same_id = refl;
    same_name = refl;
  })
]

sync_found-Returned :
    (found : Option Location) (id : String) (t : Tower) (rows : List Location)
    → find (is_location_of t) rows ≡ found
    → Returned t (sync_found found id t rows)
unfolding sync_found
sync_found-Returned none id t rows e = insert_location-Returned id t rows e
sync_found-Returned (some l) id t rows e = record {
  row = renamed t l;
  found =
      find-update (is_location_of t) (λ k. k.id == l.id) (renamed t) rows l (λ k. refl) e
      ∙ rw (eq_refl l.id);
  same_id = refl;
  same_name = refl;
}

pub sync-Returned :
    (id : String) (t : Tower) (rows : List Location)
    → Returned t (sync_location_for_tower id t rows)
unfolding sync_location_for_tower
sync-Returned id t rows = sync_found-Returned (find (is_location_of t) rows) id t rows refl

-- A call that returns gives the id of the tower's location, which has the tower's name; a later call
-- for the same tower, perhaps renamed, returns the same id, whatever id the INSERT would have drawn.
pub sync_location_for_tower-stable :
    (id id' out : String) (t : Tower) (name : String) (rows rows' : List Location)
    → sync_location_for_tower id t rows ≡ (ok out, rows')
    → let again = sync_location_for_tower id' (record t { name = name }) rows' in
      IsSynced t out rows' × (again.0 ≡ ok out) × IsSynced (record t { name = name }) out again.1
unfolding sync_location_for_tower sync_found
sync_location_for_tower-stable id id' out t name rows rows' h =
    let synced = subst (Returned t) h (sync-Returned id t rows) in
    let l = synced.row in
    let t' = record t { name = name } in
    (
      synced,
      rw synced.found (ap ok synced.same_id),
      rw synced.found (record {
        row = renamed t' l;
        found =
            find-update (is_location_of t) (λ k. k.id == l.id) (renamed t') rows' l (λ k. refl)
              synced.found
            ∙ rw (eq_refl l.id);
        same_id = synced.same_id;
        same_name = refl;
      }),
    )

same_code :
    (t t' : Tower) (l : Location)
    → is_location_of t l ≡ true
    → t'.code ≡ t.code
    → (l.code == t'.code) ≡ true
same_code t t' l h e = elim (Bool-cases (l.code == t.code)) [
  | inl equal ↦ (eq_iff l.code t'.code).1 ((eq_iff l.code t.code).0 equal ∙ sym e)
  | inr differs ↦ ground (arith, h, differs)
]

-- When a tower has a location, a tower with the same code in a project with no such location is
-- refused by the constraint UNIQUE (code), and gets none.
pub sync_location_for_tower-taken :
    (id id' out : String) (t t' : Tower) (rows rows' : List Location)
    → sync_location_for_tower id t rows ≡ (ok out, rows')
    → t'.code ≡ t.code
    → find (is_location_of t') rows' ≡ none
    → sync_location_for_tower id' t' rows'
      ≡ (err (other "duplicate key value violates unique constraint"), rows')
unfolding sync_location_for_tower sync_found insert_location
sync_location_for_tower-taken id id' out t t' rows rows' h same absent =
    rw absent (rw (any-found (is_location_of t) (λ l. l.code == t'.code) rows' l synced.found code))
  where
    synced : IsSynced t out rows'
    synced = subst (Returned t) h (sync-Returned id t rows)

    l : Location
    l = synced.row

    code : (l.code == t'.code) ≡ true
    code = same_code t t' l (find-holds (is_location_of t) rows' l synced.found) same
