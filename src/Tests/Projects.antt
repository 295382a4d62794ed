-- ===== src/Tests/Projects.antt =====
-- property-service.js on concrete tables.
mod Property
mod Generation
mod Tasks
mod Routes
use hippo_build_x.Prelude.{
  String, ◌≡◌, ◌≢◌, refl, sym, ◌∙◌, eq_iff, ◌==◌, if◌then◌else◌, ◌↔◌, inl, inr, true, false, Option,
  none, some, List, [], ◌∷◌, Holds, find, any, ◌⊎◌,
}
use mathlib.Core.Bool.{false≢true}
use hippo_build_x.Prelude.Effect.{Thrown, ok, err, app, other}
use hippo_build_x.Shared.Errors.{validation}
use hippo_build_x.Shared.Errors.ErrorCode
use hippo_build_x.Rbac.Context.{Ctx, str, strict_eq, lower_is, is_admin_role}
use hippo_build_x.Projects.Access.{Project, filter_projects_by_scope, assert_project_access}
use hippo_build_x.Projects.Access.Laws.{listed_iff_granted, own_listed_refused}
use hippo_build_x.Projects.UnitStatus.{
  UnitRow, Store, Request, Statements, is_live, written, history_row, set_status, add_change,
  change_unit_status,
}
use hippo_build_x.Projects.UnitStatus.Transitions.{
  sold, available, Becomes, change_unit_status-listed,
}
use hippo_build_x.Projects.UnitStatus.History.{
  IsAccounted, IsUnrecorded, change_unit_status-IsAccounted, change_unit_status-unrecorded,
}
use hippo_build_x.Projects.Dependencies.{
  Edge, with_new, search, fuel_for, out_of_fuel, assert_no_dependency_cycle, outcome_result,
}
use hippo_build_x.Projects.Dependencies.Graph.{Reach, here, step, Cyclic}
use hippo_build_x.Projects.Dependencies.Search.{search_terminates}
use hippo_build_x.Projects.Dependencies.Cycles.{
  new, assert_no_dependency_cycle_lem, assert_no_dependency_cycle-preserves,
}

abbrev edge : String → String → Edge
edge a b = record { predecessor_id = a; successor_id = b }

abbrev plan : List Edge
plan = edge "a" "b" ∷ []

dependency_runs :
    (assert_no_dependency_cycle plan "b" "c" ≡ ok tt)
    × (assert_no_dependency_cycle plan "b" "a"
        ≡ err (validation "Task dependency would create a cycle"))
    × (assert_no_dependency_cycle plan "a" "a" ≡ err (validation "Task cannot depend on itself"))
unfolding assert_no_dependency_cycle with_new search fuel_for outcome_result
dependency_runs = (refl, refl, refl)

from_b : {u v : String} → u ≡ "b" → Reach plan u v → v ≡ "b"
from_b e here = e
from_b e (step {v} {w} r (inl (p, q))) = absurd (apart (p ∙ from_b e r))
  where
    apart : ◌≢◌ {A = String} "a" "b"
    apart h = absurd (false≢true ((eq_iff "a" "b").1 h))
from_b e (step r (inr n)) = absurd n

plan_is_acyclic : ¬ Cyclic plan
plan_is_acyclic (u, v, inl (p, q), r) =
    absurd (false≢true ((eq_iff "a" "b").1 (p ∙ from_b (sym q) r)))
plan_is_acyclic (u, v, inr n, r) = absurd n

assert_no_dependency_cycle_lem_example :
    ((assert_no_dependency_cycle plan "b" "a" ≡ ok tt)
      ↔ ((◌≢◌ {A = String} "b" "a") × ¬ Reach plan "a" "b"))
    × ((assert_no_dependency_cycle plan "b" "a"
          ≡ err (validation "Task dependency would create a cycle"))
        ↔ ((◌≢◌ {A = String} "b" "a") × Reach plan "a" "b"))
assert_no_dependency_cycle_lem_example = assert_no_dependency_cycle_lem plan "b" "a"

abbrev unit : String → String → UnitRow
unit id status = record {
  id = id;
  status = status;
  deleted_at = none;
  updated_at = 0;
  updated_by = none;
}

abbrev store : Store
store = record {
  units = unit "u1" "sold" ∷ unit "u2" "blocked" ∷ unit "u3" "available" ∷ [];
  history = [];
  now = 5;
}

abbrev request : String → String → Option String → Request
request id to reason = record {
  tenant_id = "t";
  unit_id = id;
  to_status = to;
  reason = reason;
  actor_id = some "me";
  correlation_id = none;
}

-- The statements go through; or the correlation id is one that the history does not take.
abbrev through : Statements
through = record { update_error = λ _. none; insert_error = λ _. none }

abbrev too_long : Option String → Option Thrown
too_long none = none
too_long (some id) =
    if id == "long" then some (other "value too long for type character varying(100)") else none

abbrev limited : Statements
limited = record { update_error = λ _. none; insert_error = λ h. too_long h.correlation_id }

abbrev tagged : Request
tagged = record (request "u3" "sold" none) { correlation_id = some "long" }

unit_runs :
    ((change_unit_status through (request "u1" "available" none) store).0
      ≡ err (validation "Cannot change sold to available without a reason"))
    × ((change_unit_status through (request "u1" "reserved" none) store).0
        ≡ err (validation "Sold units cannot move to reserved"))
    × ((change_unit_status through (request "u9" "sold" none) store).0
        ≡ err (app ErrorCode.not_found "Unit not found" 404))
    × ((change_unit_status through (request "u1" "gone" none) store).0
        ≡ err (validation "Invalid status: gone"))
    × ((change_unit_status through (request "u1" "available" (some "cancelled")) store).1
        ≡ add_change
            (history_row (request "u1" "available" (some "cancelled")) "sold")
            (set_status (request "u1" "available" (some "cancelled")) store))
unfolding change_unit_status
unit_runs = (refl, refl, refl, refl, refl)

abbrev initial : String → String
initial id = if id == "u1" then "sold" else if id == "u2" then "blocked" else "available"

store-IsAccounted : IsAccounted initial store
store-IsAccounted = record { current = (refl, (refl, (refl, tt))); linked = tt }

change_unit_status-IsAccounted_example :
    IsAccounted initial
      (change_unit_status limited (request "u1" "available" (some "cancelled")) store).1
    ⊎ IsUnrecorded limited
        (request "u1" "available" (some "cancelled"))
        store
        (change_unit_status limited (request "u1" "available" (some "cancelled")) store)
change_unit_status-IsAccounted_example =
    change_unit_status-IsAccounted initial limited (request "u1" "available" (some "cancelled"))
      store store-IsAccounted

change_unit_status-unrecorded_example :
    let out = change_unit_status limited tagged store in
    (out.0 ≡ err (other "value too long for type character varying(100)"))
    × (find (is_live "u3") out.1.units ≡ some (written tagged 5 (unit "u3" "available")))
    × (out.1.history ≡ [])
    × ¬ IsAccounted initial out.1
change_unit_status-unrecorded_example =
    change_unit_status-unrecorded initial limited tagged store available sold
      (unit "u3" "available") (other "value too long for type character varying(100)") refl refl
      refl refl refl refl store-IsAccounted

change_unit_status-listed_example :
    Becomes through (request "u3" "sold" none) (unit "u3" "available") store
change_unit_status-listed_example =
    change_unit_status-listed through (request "u3" "sold" none) (unit "u3" "available") store
      available sold refl refl refl refl refl refl

abbrev manager : Ctx
manager = record {
  user_id = str "u1";
  roles = "Manager" ∷ [];
  permissions = [];
  project_ids = "p1" ∷ [];
  location_ids = [];
}

abbrev founder : Ctx
founder = record manager { project_ids = [] }

abbrev projects : List Project
projects =
    record { id = "p1"; created_by = str "u2" } ∷ record { id = "p2"; created_by = str "u1" } ∷ []

founder_is_no_admin : any is_admin_role founder.roles ≡ false
unfolding is_admin_role lower_is
founder_is_no_admin = refl

own_listed_refused_example :
    (Holds (filter_projects_by_scope founder projects) (record { id = "p2"; created_by = str "u1" })
      ↔ (Holds projects (record { id = "p2"; created_by = str "u1" })
          × (strict_eq (str "u1") (str "u1") ≡ true)))
    × (assert_project_access founder "p2"
        ≡ err (app ErrorCode.forbidden "No access to this project" 403))
own_listed_refused_example =
    own_listed_refused founder projects (record { id = "p2"; created_by = str "u1" })
      founder_is_no_admin refl
