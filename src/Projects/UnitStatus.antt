-- ===== src/Projects/UnitStatus.antt =====
-- property-service.js, `changeUnitStatus`: a unit's status and the history of its changes.
pub mod Steps
pub mod Transitions
pub mod History
use Prim.Native.String.{◌++◌}
use hippo_build_x.Prelude.{
  ℕ, String, Bool, true, false, not, ◌&&◌, ◌||◌, Option, none, some, List, [], ◌∷◌, find, update,
  includes, truthy, or_null, if◌then◌else◌, ◌==◌,
}
use hippo_build_x.Prelude.{◌++◌ as append}
use hippo_build_x.Prelude.Effect.{Thrown, Result, ok, err, app, bind_result}
use hippo_build_x.Shared.Errors.{validation}
use hippo_build_x.Shared.Errors.ErrorCode

-- A row of `units`, without the columns that no status change reads or writes.
pub record UnitRow : Type 0 where
  pub id : String
  pub status : String
  pub deleted_at : Option ℕ
  pub updated_at : ℕ
  pub updated_by : Option String

-- A row of `unit_status_history`.
pub record StatusChange : Type 0 where
  pub tenant_id : String
  pub unit_id : String
  pub from_status : String
  pub to_status : String
  pub reason : Option String
  pub actor_id : Option String
  pub correlation_id : Option String

-- The two tables, the history in the order of insertion, and `NOW()`.
pub record Store : Type 0 where
  pub units : List UnitRow
  pub history : List StatusChange
  pub now : ℕ

pub record Request : Type 0 where
  pub tenant_id : String
  pub unit_id : String
  pub to_status : String
  pub reason : Option String
  pub actor_id : Option String
  pub correlation_id : Option String

abbrev pub unit_statuses : List String
unit_statuses = "available" ∷ "reserved" ∷ "sold" ∷ "blocked" ∷ []

-- Exported by the module; no code reads it.
abbrev pub locked_from : List (String × List String)
locked_from =
    ("reserved", "available" ∷ [])
    ∷ ("sold", "available" ∷ "reserved" ∷ [])
    ∷ ("blocked", "available" ∷ [])
    ∷ []

-- `WHERE id = $1 AND deleted_at IS NULL`
abbrev pub is_live : String → UnitRow → Bool
is_live id u = u.id == id && elim u.deleted_at [ none ↦ true | some _ ↦ false ]

abbrev pub written : Request → ℕ → UnitRow → UnitRow
written r now u = record u {
  status = r.to_status;
  updated_at = now;
  updated_by = or_null r.actor_id;
}

abbrev pub history_row : Request → String → StatusChange
history_row r from = record {
  tenant_id = r.tenant_id;
  unit_id = r.unit_id;
  from_status = from;
  to_status = r.to_status;
  reason = or_null r.reason;
  actor_id = or_null r.actor_id;
  correlation_id = or_null r.correlation_id;
}

-- What the two statements throw, if anything: a row may break a type or a constraint of its table (the
-- history's `correlation_id` is a VARCHAR(100)), and the connection may fail.
pub record Statements : Type 0 where
  pub update_error : Request → Option Thrown
  pub insert_error : StatusChange → Option Thrown

-- A statement that throws leaves the tables as they are.
abbrev pub unless_thrown : {A : Type 0} → Option Thrown → A → Store → Store → Result A × Store
unless_thrown none a s' s = (ok a, s')
unless_thrown (some e) a s' s = (err e, s)

abbrev pub set_status : Request → Store → Store
set_status r s = record s { units = update (λ u. u.id == r.unit_id) (written r s.now) s.units }

abbrev pub add_change : StatusChange → Store → Store
add_change h s = record s { history = append s.history (h ∷ []) }

-- `UPDATE units ... RETURNING *`, with the first row that it gives.
unfoldable pub update_unit : Statements → Request → Store → Result (Option UnitRow) × Store
update_unit x r s =
    let s' = set_status r s in
    unless_thrown (x.update_error r) (find (λ v. v.id == r.unit_id) s'.units) s' s

-- `INSERT INTO unit_status_history`
unfoldable pub insert_change : Statements → StatusChange → Store → Result (Unit {0}) × Store
insert_change x h s = unless_thrown (x.insert_error h) tt (add_change h s) s

-- The two statements, each of which is committed by itself.
unfoldable pub write : Statements → Request → String → Store → Result (Option UnitRow) × Store
unfolding update_unit insert_change
write x r from s = bind_result (update_unit x r s) (λ updated s'.
    bind_result (insert_change x (history_row r from) s') (λ _ s''. (ok updated, s'')))

-- The rest of the function, from the row that the query found.
unfoldable pub change_from :
    Statements → Request → UnitRow → Store → Result (Option UnitRow) × Store
unfolding write
change_from x r u s =
    let from = u.status in
    if from == r.to_status
    then (ok (some u), s)
    else if (from == "reserved" || from == "sold")
        && (r.to_status == "available" && not (truthy r.reason))
    then (err (validation ("Cannot change " ++ (from ++ " to available without a reason"))), s)
    else if from == "sold" && r.to_status == "reserved"
    then (err (validation "Sold units cannot move to reserved"), s)
    else if from == "sold" && r.to_status == "blocked"
    then (err (validation "Sold units cannot be blocked"), s)
    else write x r from s

-- `rows[0]` of the query, or 404.
unfoldable pub change_row :
    Statements → Request → Option UnitRow → Store → Result (Option UnitRow) × Store
unfolding change_from
change_row x r none s = (err (app ErrorCode.not_found "Unit not found" 404), s)
change_row x r (some u) s = change_from x r u s

unfoldable pub change_unit_status : Statements → Request → Store → Result (Option UnitRow) × Store
unfolding change_row
change_unit_status x r s =
    if includes unit_statuses r.to_status
    then change_row x r (find (is_live r.unit_id) s.units) s
    else (err (validation ("Invalid status: " ++ r.to_status)), s)
