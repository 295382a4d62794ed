-- ===== src/Projects/TowerRoute/Located.antt =====
-- The location of a new tower.
use mathlib.Core.Option.{some-injective}
use hippo_build_x.Prelude.{
  String, ◌≡◌, refl, subst, inl, inr, Bool, true, false, not, ◌||◌, Option, none, some, List, [],
  ◌∷◌, ◌++◌, any, find, find-holds, or_null, Bool-cases, Option-cases, Holds, any-last, any-found,
  Holds-append, sym, ap, ◌∙◌, ◌≢◌, eq_iff, eq_refl, arith, ◌==◌,
}
use hippo_build_x.Prelude.Effect.{Result, ok, err, other, Result-cases}
use hippo_build_x.Rbac.Context.{Ctx}
use hippo_build_x.Projects.Access.{assert_project_access}
use hippo_build_x.Projects.Locations.{
  Location, Tower, is_location_of, insert_location, sync_found, sync_location_for_tower,
}
use hippo_build_x.Projects.Locations.Laws.{IsSynced, Returned, sync-Returned}
use hippo_build_x.Projects.TowerRoute.{
  TowerRow, Tables, Body, same_code, tower_of, new_tower, insert_tower, with_locations, add_tower,
  post_tower,
}

module _ (admits : TowerRow → Bool) (ctx : Ctx) (tenant_id project_id tower_id location_id : String)
    (b : Body) where
  -- What a tower that the route returns has.
  abbrev pub IsLocated : TowerRow → Tables → Type 0
  IsLocated t s = (id : String) × IsSynced (tower_of ctx tenant_id t) id s.locations

  abbrev Located : Result TowerRow × Tables → Type 0
  Located (ok t, s) = IsLocated t s
  Located (err e, s) = Unit

  synced-Located :
      (t : TowerRow) (s : Tables) (r : Result String × List Location)
      → Returned (tower_of ctx tenant_id t) r
      → Located (with_locations admits ctx tenant_id project_id tower_id location_id t s r)
  synced-Located t s (ok id, locations) h = (id, h)
  synced-Located t s (err e, locations) h = tt

  add_tower-Located :
      (name code : Option String) (s : Tables)
      → Located (add_tower admits ctx tenant_id project_id tower_id location_id b name code s)
  unfolding add_tower insert_tower
  add_tower-Located none code s = tt
  add_tower-Located (some name) none s = tt
  add_tower-Located (some name) (some code) s =
      let t = new_tower admits ctx tenant_id project_id tower_id location_id b name code in
      elim (Bool-cases (any (same_code project_id code) s.towers || not (admits t))) [
        | inl broken ↦ rw broken tt
        | inr fine ↦ rw fine (
            synced-Located t (record s { towers = s.towers ++ t ∷ [] })
              (sync_location_for_tower location_id (tower_of ctx tenant_id t) s.locations)
              (sync-Returned location_id (tower_of ctx tenant_id t) s.locations))
      ]

  post_tower-Located :
      (s : Tables) → Located (post_tower admits ctx tenant_id project_id tower_id location_id b s)
  unfolding post_tower
  post_tower-Located s = elim (Result-cases (assert_project_access ctx project_id)) [
    | inr (_, refused) ↦ rw refused tt
    | inl (_, granted) ↦ rw granted (add_tower-Located (or_null b.name) (or_null b.code) s)
  ]

  -- A tower that the route returns has a location with its project, code and name.
  pub post_tower-IsLocated :
      (s s' : Tables) (t : TowerRow)
      → post_tower admits ctx tenant_id project_id tower_id location_id b s ≡ (ok t, s')
      → IsLocated t s'
  post_tower-IsLocated s s' t h = subst Located h (post_tower-Located s)

-- UNIQUE (code) of the table `locations`.
abbrev pub HasUniqueCodes : List Location → Type 0
HasUniqueCodes rows = (l k : Location) → Holds rows l → Holds rows k → l.code ≡ k.code → l ≡ k

find-Holds :
    (p : Location → Bool) (rows : List Location) (l : Location)
    → find p rows ≡ some l
    → Holds rows l
find-Holds p [] l e = cc
find-Holds p (k ∷ ks) l e = elim (Bool-cases (p k)) [
  | inl here ↦ inl (some-injective k l (rw here at e))
  | inr there ↦ inr (find-Holds p ks l (rw there at e))
]

location_of-parts :
    (t : Tower) (l : Location)
    → is_location_of t l ≡ true
    → (l.project_id ≡ t.project_id) × (l.code ≡ t.code)
location_of-parts t l e = ground (arith, eq_iff l.project_id t.project_id, eq_iff l.code t.code)

-- A location of one tower is none of a tower with the same code in another project.
absent-Located :
    (t t' : Tower) (id : String) (rows : List Location)
    → IsSynced t id rows
    → HasUniqueCodes rows
    → t'.code ≡ t.code
    → t'.project_id ≢ t.project_id
    → find (is_location_of t') rows ≡ none
absent-Located t t' id rows h unique same other_project =
    elim (Option-cases (find (is_location_of t') rows)) [
      | inl none_found ↦ none_found
      | inr (l, found) ↦
          let here = find-holds (is_location_of t') rows l found in
          let there = find-holds (is_location_of t) rows h.row h.found in
          let (project, code) = location_of-parts t' l here in
          let (project', code') = location_of-parts t h.row there in
          absurd (
            other_project (
              sym project
              ∙ ap (λ k. k.project_id)
                  (unique l h.row (find-Holds (is_location_of t') rows l found)
                    (find-Holds (is_location_of t) rows h.row h.found) (code ∙ same ∙ sym code'))
              ∙ project'))
    ]

module _ (admits : TowerRow → Bool) (ctx : Ctx) (tenant_id project_id tower_id location_id : String)
    (b : Body) where
  -- A POST of a tower that the project has.
  repeated-out :
      (s : Tables) (name code : String)
      → assert_project_access ctx project_id ≡ ok tt
      → or_null b.name ≡ some name
      → or_null b.code ≡ some code
      → any (same_code project_id code) s.towers ≡ true
      → post_tower admits ctx tenant_id project_id tower_id location_id b s
        ≡ (err (other "violates constraint"), s)
  unfolding post_tower add_tower insert_tower
  repeated-out s name code granted has_name has_code again =
      rw (granted, has_name, has_code, again) refl

module _ (admits : TowerRow → Bool) (ctx ctx' : Ctx)
    (tenant_id project_id project_id' tower_id tower_id' location_id location_id' : String)
    (b b' : Body) where
  -- The second tower.
  abbrev second_tower : String → String → TowerRow
  second_tower = new_tower admits ctx' tenant_id project_id' tower_id' location_id' b'

  -- A POST whose tower is inserted and whose location is refused.
  taken-out :
      (s : Tables) (name code : String)
      → let t = second_tower name code in
        assert_project_access ctx' project_id' ≡ ok tt
        → or_null b'.name ≡ some name
        → or_null b'.code ≡ some code
        → (any (same_code project_id' code) s.towers || not (admits t)) ≡ false
        → find (is_location_of (tower_of ctx' tenant_id t)) s.locations ≡ none
        → any (λ l. l.code == code) s.locations ≡ true
        → post_tower admits ctx' tenant_id project_id' tower_id' location_id' b' s ≡ (
          err (other "duplicate key value violates unique constraint"),
          record s { towers = s.towers ++ t ∷ [] },
        )
  unfolding post_tower add_tower insert_tower sync_location_for_tower sync_found insert_location
  taken-out s name code granted has_name has_code fine absent taken =
      rw (granted, has_name, has_code, fine, absent, taken) refl

  -- After a POST that returned a tower, take a POST, with a name, of a tower with the same code in another
  -- project, which the context may open, and let no constraint of the table of towers be against it.
  -- The codes of locations are unique, as their table demands. The second POST throws, but its tower
  -- is in the table, without a location, and no location was added; and the same POST sent
  -- again throws too, on the row that the first try left, and changes nothing.
  pub post_tower-taken :
      (s s1 : Tables) (t : TowerRow) (name tower_id3 location_id3 : String)
      → post_tower admits ctx tenant_id project_id tower_id location_id b s ≡ (ok t, s1)
      → project_id' ≢ t.project_id
      → HasUniqueCodes s1.locations
      → assert_project_access ctx' project_id' ≡ ok tt
      → or_null b'.name ≡ some name
      → or_null b'.code ≡ some t.code
      → (any (same_code project_id' t.code) s1.towers || not (admits (second_tower name t.code)))
        ≡ false
      → let t' = second_tower name t.code in
        let out = post_tower admits ctx' tenant_id project_id' tower_id' location_id' b' s1 in
        (out.0 ≡ err (other "duplicate key value violates unique constraint"))
        × Holds out.1.towers t'
        × (find (is_location_of (tower_of ctx' tenant_id t')) out.1.locations ≡ none)
        × (out.1.locations ≡ s1.locations)
        × (post_tower admits ctx' tenant_id project_id' tower_id3 location_id3 b' out.1
            ≡ (err (other "violates constraint"), out.1))
  post_tower-taken s s1 t name tower_id3 location_id3 first other_project unique granted has_name
        has_code fine =
      let (id, synced) =
        post_tower-IsLocated admits ctx tenant_id project_id tower_id location_id b s s1 t first in
      let t' = second_tower name t.code in
      let mine = is_location_of (tower_of ctx tenant_id t) in
      let code =
        (location_of-parts (tower_of ctx tenant_id t) synced.row
          (find-holds mine s1.locations synced.row synced.found)).1 in
      let taken =
        any-found mine (λ l. l.code == t.code) s1.locations synced.row synced.found
          ((eq_iff synced.row.code t.code).1 code) in
      let absent =
        absent-Located (tower_of ctx tenant_id t) (tower_of ctx' tenant_id t') id s1.locations
          synced unique refl other_project in
      let again =
        any-last (same_code project_id' t.code) s1.towers t'
          (rw (eq_refl project_id', eq_refl t.code) refl) in
      rw (taken-out s1 name t.code granted has_name has_code fine absent taken) (
        refl,
        (Holds-append s1.towers (t' ∷ []) t').1 (inr (inl refl)),
        absent,
        refl,
        repeated-out admits ctx' tenant_id project_id' tower_id3 location_id3 b'
            (record s1 { towers = s1.towers ++ t' ∷ [] }) name t.code granted has_name has_code
            again,
      )
