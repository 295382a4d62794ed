-- ===== src/Projects/UnitStatus/History.antt =====
-- The history of a unit's changes against the status of its row.
use hippo_build_x.Prelude.{
  String, ◌≡◌, ◌≢◌, refl, sym, subst, ◌∙◌, ◌⊎◌, inl, inr, Bool, true, false, Option, none, some,
  List, [], ◌∷◌, ◌++◌, find, update, All, arith, Bool-cases, Option-cases, includes, if◌then◌else◌,
  ◌==◌, eq_iff,
}
use hippo_build_x.Projects.UnitStatus.{
  UnitRow, StatusChange, Store, Request, Statements, unit_statuses, is_live, written, history_row,
  set_status, add_change, update_unit, insert_change, write, change_from, change_row,
  change_unit_status,
}
use hippo_build_x.Prelude.Effect.{Thrown, Result, err}
use hippo_build_x.Projects.UnitStatus.Steps.{change_from-cases}
use hippo_build_x.Projects.UnitStatus.Transitions.{
  Status, text, lists, listed-reaches, listed-differs, set_status-found,
}

-- The status of a unit after the changes of the history, from the one that it began with.
abbrev pub last_status : String → String → List StatusChange → String
last_status status id [] = status
last_status status id (h ∷ hs) = last_status (if h.unit_id == id then h.to_status else status) id hs

-- Each change begins at the status that the changes before it left, and ends at another.
abbrev pub Linked : (String → String) → List StatusChange → Type 0
Linked status [] = Unit
Linked status (h ∷ hs) =
    (h.from_status ≡ status h.unit_id)
    × (h.from_status ≢ h.to_status)
    × Linked (λ id. if h.unit_id == id then h.to_status else status id) hs

-- The history accounts for every unit's status, from the statuses `initial` of the units at first.
pub record IsAccounted (initial : String → String) (s : Store) : Type 0 where
  pub current : All (λ u. u.status ≡ last_status (initial u.id) u.id s.history) s.units
  pub linked : Linked initial s.history

last_status-append :
    (status id : String) (hs : List StatusChange) (h : StatusChange)
    → last_status status id (hs ++ h ∷ [])
      ≡ (if h.unit_id == id then h.to_status else last_status status id hs)
last_status-append status id [] h = refl
last_status-append status id (k ∷ hs) h =
    last_status-append (if k.unit_id == id then k.to_status else status) id hs h

Linked-append :
    (status : String → String) (hs : List StatusChange) (h : StatusChange)
    → Linked status hs
    → h.from_status ≡ last_status (status h.unit_id) h.unit_id hs
    → h.from_status ≢ h.to_status
    → Linked status (hs ++ h ∷ [])
Linked-append status [] h l e ne = (e, ne, tt)
Linked-append status (k ∷ hs) h (a, b, l) e ne =
    (a, b, Linked-append (λ id. if k.unit_id == id then k.to_status else status id) hs h l e ne)

-- The rows, after the UPDATE and the new row of the history.
update-current :
    (initial : String → String) (r : Request) (from : String) (hs : List StatusChange) (s : Store)
    (us : List UnitRow)
    → All (λ u. u.status ≡ last_status (initial u.id) u.id hs) us
    → All
        (λ u. u.status ≡ last_status (initial u.id) u.id (hs ++ history_row r from ∷ []))
        (update (λ u. u.id == r.unit_id) (written r s.now) us)
update-current initial r from hs s [] h = tt
update-current initial r from hs s (u ∷ us) (h, k) =
    (one (u.id == r.unit_id) refl, update-current initial r from hs s us k)
  where
    one :
        (b : Bool)
        → (u.id == r.unit_id) ≡ b
        → (if b then written r s.now u else u).status
          ≡ last_status
              (initial (if b then written r s.now u else u).id)
              (if b then written r s.now u else u).id
              (hs ++ history_row r from ∷ [])
    one true e =
        rw last_status-append (ground (arith, eq_iff u.id r.unit_id, eq_iff r.unit_id u.id))
    one false e =
        rw last_status-append (ground (arith, h, eq_iff u.id r.unit_id, eq_iff r.unit_id u.id))

-- The row that the query finds is one of the table's, live and with the id that was asked for.
find-current :
    (initial : String → String) (hs : List StatusChange) (id : String) (us : List UnitRow)
    (u : UnitRow)
    → All (λ v. v.status ≡ last_status (initial v.id) v.id hs) us
    → find (is_live id) us ≡ some u
    → u.status ≡ last_status (initial id) id hs
find-current initial hs id [] u a e = cc
find-current initial hs id (v ∷ us) u (h, a) e = elim (Bool-cases (is_live id v)) [
  | inl live ↦ ground (arith, h, eq_iff v.id id)
  | inr dead ↦ find-current initial hs id us u a (rw dead at e)
]

-- The call whose UPDATE went through and whose INSERT threw: the unit has its new status, and the
-- history has no row of the change.
pub record IsUnrecorded (x : Statements) (r : Request) (s : Store)
    (out : Result (Option UnitRow) × Store) : Type 0 where
  pub unit : UnitRow
  pub error : Thrown
  pub found : find (is_live r.unit_id) s.units ≡ some unit
  pub threw : x.insert_error (history_row r unit.status) ≡ some error
  pub outcome : out ≡ (err error, set_status r s)

module _ (initial : String → String) (x : Statements) (r : Request) (s : Store) where
  write-IsAccounted :
      (u : UnitRow)
      → find (is_live r.unit_id) s.units ≡ some u
      → (u.status == r.to_status) ≡ false
      → IsAccounted initial s
      → IsAccounted initial (write x r u.status s).1 ⊎ IsUnrecorded x r s (write x r u.status s)
  unfolding write update_unit insert_change
  write-IsAccounted u found differs h = elim (Option-cases (x.update_error r)) [
    | inr (e, failed) ↦ rw failed (inl h)
    | inl updated ↦ elim (Option-cases (x.insert_error (history_row r u.status))) [
      | inl inserted ↦ rw (updated, inserted) (inl after)
      | inr (e, threw) ↦ inr (record {
        unit = u;
        error = e;
        found = found;
        threw = threw;
        outcome = rw (updated, threw) refl;
      })
    ]
  ]
    where
      after : IsAccounted initial (add_change (history_row r u.status) (set_status r s))
      after = record {
        current = update-current initial r u.status s.history s s.units h.current;
        linked =
            Linked-append initial s.history (history_row r u.status) h.linked
              (find-current initial s.history r.unit_id s.units u h.current found)
              (λ k. ground (arith, eq_iff u.status r.to_status));
      }

  change_from-IsAccounted :
      (u : UnitRow)
      → find (is_live r.unit_id) s.units ≡ some u
      → IsAccounted initial s
      → IsAccounted initial (change_from x r u s).1 ⊎ IsUnrecorded x r s (change_from x r u s)
  change_from-IsAccounted u found h = elim (change_from-cases x r u s) [
    | inl kept ↦ inl (subst (IsAccounted initial) (sym kept) h)
    | inr (differs, through) ↦
        subst (λ out. IsAccounted initial out.1 ⊎ IsUnrecorded x r s out) (sym through)
          (write-IsAccounted u found differs h)
  ]

  -- Whatever the request, its outcome and what the two statements throw: a history that accounts for
  -- the statuses of the units goes on to do so (each unit's status is the one that its last change
  -- wrote, and each change begins at the status that the changes before it left and ends at
  -- another), unless the INSERT of the history threw, which ended the call with the status written.
  pub change_unit_status-IsAccounted :
      IsAccounted initial s
      → IsAccounted initial (change_unit_status x r s).1
        ⊎ IsUnrecorded x r s (change_unit_status x r s)
  unfolding change_unit_status change_row
  change_unit_status-IsAccounted h = elim (Bool-cases (includes unit_statuses r.to_status)) [
    | inr unknown ↦ rw unknown (inl h)
    | inl known ↦ elim (Option-cases (find (is_live r.unit_id) s.units)) [
      | inl missing ↦ rw (known, missing) (inl h)
      | inr (u, found) ↦ rw (known, found) (change_from-IsAccounted u found h)
    ]
  ]

  -- When the INSERT of a change that LOCKED_FROM lists, of a live unit, throws, the call throws too, the
  -- unit keeps its new status, the history is as it was, and it does not account for the statuses any
  -- more, whichever statuses the units began with.
  pub change_unit_status-unrecorded :
      (a b : Status) (u : UnitRow) (e : Thrown)
      → lists a b ≡ true
      → find (is_live r.unit_id) s.units ≡ some u
      → u.status ≡ text a
      → r.to_status ≡ text b
      → x.update_error r ≡ none
      → x.insert_error (history_row r u.status) ≡ some e
      → IsAccounted initial s
      → let out = change_unit_status x r s in
        (out.0 ≡ err e)
        × (find (is_live r.unit_id) out.1.units ≡ some (written r s.now u))
        × (out.1.history ≡ s.history)
        × ¬ IsAccounted initial out.1
  unfolding write update_unit insert_change
  change_unit_status-unrecorded a b u e listed found ea eb updated threw h =
      rw (listed-reaches x r u s a b listed found ea eb, updated, threw)
        (refl, set_status-found x r u s found, refl, broken)
    where
      broken : ¬ IsAccounted initial (set_status r s)
      broken k = listed-differs a b listed (
          sym ea
          ∙ find-current initial s.history r.unit_id s.units u h.current found
          ∙ sym (
              find-current initial s.history r.unit_id (set_status r s).units (written r s.now u)
                k.current (set_status-found x r u s found))
          ∙ eb)
