-- ===== src/Projects/UnitStatus/Transitions.antt =====
-- The changes of a unit's status against LOCKED_FROM, which the module exports.
use mathlib.Core.Bool.{false≢true}
use hippo_build_x.Prelude.{
  String, ◌≡◌, ◌≢◌, refl, sym, ap, ◌∙◌, Bool, true, false, none, some, List, [], ◌∷◌, find,
  find-holds, find-update, includes, if◌then◌else◌, ◌==◌, arith,
}
use hippo_build_x.Prelude.Effect.{Result, ok, err}
use hippo_build_x.Projects.UnitStatus.{
  UnitRow, Store, Request, Statements, unit_statuses, locked_from, is_live, written, history_row,
  set_status, add_change, update_unit, insert_change, write, change_from, change_row,
  change_unit_status,
}

pub data Status : Type 0 where
  available reserved sold blocked : Status

abbrev pub text : Status → String
text available = "available"
text reserved = "reserved"
text sold = "sold"
text blocked = "blocked"

-- `LOCKED_FROM[to]`
abbrev pub locked_statuses : List (String × List String) → String → List String
locked_statuses [] to = []
locked_statuses ((key, from) ∷ rest) to = if key == to then from else locked_statuses rest to

-- Whether LOCKED_FROM lists the first status for the second.
abbrev pub lists : Status → Status → Bool
lists a b = includes (locked_statuses locked_from (text b)) (text a)

-- Changes that LOCKED_FROM does not list.
pub data Slip : Status → Status → Type 0 where
  blocked_reserved : Slip blocked reserved
  blocked_sold : Slip blocked sold
  reserved_blocked : Slip reserved blocked

abbrev pub is_ok {ℓ} : {A : Type ℓ} → Result A → Bool
is_ok (ok _) = true
is_ok (err _) = false

includes-text : (b : Status) → includes unit_statuses (text b) ≡ true
includes-text available = refl
includes-text reserved = refl
includes-text sold = refl
includes-text blocked = refl

pub listed-differs : (a b : Status) → lists a b ≡ true → text a ≢ text b
listed-differs a b l e =
    absurd
      (false≢true (sym (self b) ∙ ap (includes (locked_statuses locked_from (text b))) (sym e) ∙ l))
  where
    self : (b : Status) → lists b b ≡ false
    self available = refl
    self reserved = refl
    self sold = refl
    self blocked = refl

module _ (x : Statements) (r : Request) (u : UnitRow) (s : Store) where
  writes_listed :
      (a b : Status)
      → lists a b ≡ true
      → u.status ≡ text a
      → r.to_status ≡ text b
      → change_from x r u s ≡ write x r u.status s
  unfolding change_from
  writes_listed available reserved l e f = rw (e, f) refl
  writes_listed available sold l e f = rw (e, f) refl
  writes_listed available blocked l e f = rw (e, f) refl
  writes_listed reserved sold l e f = rw (e, f) refl
  writes_listed available available l e f = absurd (false≢true l)
  writes_listed reserved available l e f = absurd (false≢true l)
  writes_listed reserved reserved l e f = absurd (false≢true l)
  writes_listed reserved blocked l e f = absurd (false≢true l)
  writes_listed sold available l e f = absurd (false≢true l)
  writes_listed sold reserved l e f = absurd (false≢true l)
  writes_listed sold sold l e f = absurd (false≢true l)
  writes_listed sold blocked l e f = absurd (false≢true l)
  writes_listed blocked available l e f = absurd (false≢true l)
  writes_listed blocked reserved l e f = absurd (false≢true l)
  writes_listed blocked sold l e f = absurd (false≢true l)
  writes_listed blocked blocked l e f = absurd (false≢true l)

  -- A change that reaches the two statements.
  pub reaches :
      (b : Status)
      → find (is_live r.unit_id) s.units ≡ some u
      → r.to_status ≡ text b
      → change_from x r u s ≡ write x r u.status s
      → change_unit_status x r s ≡ write x r u.status s
  unfolding change_unit_status change_row
  reaches b found f through = rw (ap (includes unit_statuses) f ∙ includes-text b, found) through

  pub listed-reaches :
      (a b : Status)
      → lists a b ≡ true
      → find (is_live r.unit_id) s.units ≡ some u
      → u.status ≡ text a
      → r.to_status ≡ text b
      → change_unit_status x r s ≡ write x r u.status s
  listed-reaches a b l found e f = reaches b found f (writes_listed a b l e f)

  -- The live row after the UPDATE.
  pub set_status-found :
      find (is_live r.unit_id) s.units ≡ some u
      → find (is_live r.unit_id) (set_status r s).units ≡ some (written r s.now u)
  set_status-found found =
      find-update (is_live r.unit_id) (λ v. v.id == r.unit_id) (written r s.now) s.units u
        (λ v. refl) found
      ∙ rw own refl
    where
      own : (u.id == r.unit_id) ≡ true
      own = let live = find-holds (is_live r.unit_id) s.units u found in ground arith

  -- The call returns, the live row of the unit has the status of the request, the history has one
  -- more row, with the status before and after, and the tables are otherwise as the UPDATE leaves them.
  abbrev pub Becomes : Type 0
  Becomes =
      let out = change_unit_status x r s in
      (is_ok out.0 ≡ true)
      × (out.1 ≡ add_change (history_row r u.status) (set_status r s))
      × (find (is_live r.unit_id) out.1.units ≡ some (written r s.now u))

  write-Becomes :
      find (is_live r.unit_id) s.units ≡ some u
      → x.update_error r ≡ none
      → x.insert_error (history_row r u.status) ≡ none
      → change_unit_status x r s ≡ write x r u.status s
      → Becomes
  unfolding write update_unit insert_change
  write-Becomes found no_update no_insert through =
      rw (through, no_update, no_insert) (refl, refl, set_status-found found)

  -- Every change that LOCKED_FROM lists, of a live unit, goes through when its two statements do.
  pub change_unit_status-listed :
      (a b : Status)
      → lists a b ≡ true
      → find (is_live r.unit_id) s.units ≡ some u
      → u.status ≡ text a
      → r.to_status ≡ text b
      → x.update_error r ≡ none
      → x.insert_error (history_row r u.status) ≡ none
      → Becomes
  change_unit_status-listed a b l found e f no_update no_insert =
      write-Becomes found no_update no_insert (listed-reaches a b l found e f)
