-- ===== src/Projects/Dependencies.antt =====
-- property-service.js, `assertNoDependencyCycle`: a breadth-first search from the successor over the
-- dependencies of the project, with the new edge added. The rows of the query are the list of
-- edges; ids are UUIDs, compared as text.
pub mod Graph
pub mod Search
pub mod Cycles
use hippo_build_x.Prelude.{
  ℕ, zero, suc, ◌+◌, String, Bool, true, false, List, [], ◌∷◌, ◌++◌, length, includes,
  if◌then◌else◌, ◌==◌,
}
use hippo_build_x.Prelude.Effect.{Result, ok, err, other}
use hippo_build_x.Shared.Errors.{validation}

pub record Edge : Type 0 where
  pub predecessor_id : String
  pub successor_id : String

-- The `Map` from a task to the list of its successors, in the order of insertion.
abbrev pub Adjacency : Type 0
Adjacency = List (String × List String)

-- `if (!adjacency.has(k)) adjacency.set(k, []); adjacency.get(k).push(v)`
unfoldable pub push : String → String → Adjacency → Adjacency
push k v [] = (k, v ∷ []) ∷ []
push k v ((j, vs) ∷ m) = if j == k then (j, vs ++ v ∷ []) ∷ m else (j, vs) ∷ push k v m

-- `adjacency.get(current) || []`
unfoldable pub targets : Adjacency → String → List String
targets [] k = []
targets ((j, vs) ∷ m) k = if j == k then vs else targets m k

-- The loop over the rows.
unfoldable pub build : List Edge → Adjacency → Adjacency
unfolding push
build [] m = m
build (e ∷ es) m = build es (push e.predecessor_id e.successor_id m)

pub data Outcome : Type 0 where
  cycle no_cycle out_of_fuel : Outcome

-- The `while` loop: `seen` is the set, `queue` the tasks that wait.
unfoldable pub search : Adjacency → String → ℕ → List String → List String → Outcome
unfolding targets
search m goal fuel seen [] = no_cycle
search m goal zero seen (current ∷ queue) = out_of_fuel
search m goal (suc fuel) seen (current ∷ queue) =
    let skip = search m goal fuel seen queue in
    let visit = search m goal fuel (current ∷ seen) (queue ++ targets m current) in
    if current == goal then cycle else if includes seen current then skip else visit

-- All the work there is: an entry of the queue for each edge, and the first one.
unfoldable pub fuel_for : Adjacency → ℕ
fuel_for [] = 1
fuel_for ((_, vs) ∷ m) = length vs + fuel_for m

unfoldable pub outcome_result : Outcome → Result (Unit {0})
outcome_result no_cycle = ok tt
outcome_result cycle = err (validation "Task dependency would create a cycle")
outcome_result out_of_fuel = err (other "out of fuel")

-- The adjacency with the new edge.
unfoldable pub with_new : List Edge → String → String → Adjacency
unfolding build push
with_new edges predecessor successor = push predecessor successor (build edges [])

unfoldable pub assert_no_dependency_cycle : List Edge → String → String → Result (Unit {0})
assert_no_dependency_cycle edges predecessor successor =
    if predecessor == successor
    then err (validation "Task cannot depend on itself")
    else let m = with_new edges predecessor successor in
      outcome_result (search m predecessor (fuel_for m) [] (successor ∷ []))
