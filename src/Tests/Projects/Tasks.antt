-- ===== src/Tests/Projects/Tasks.antt =====
-- Dependencies of tasks on concrete tables.
use hippo_build_x.Prelude.{
  String, ◌≡◌, ◌≢◌, refl, sym, ◌∙◌, inl, false, Option, none, some, [], ◌∷◌, eq_iff, ◌==◌,
  if◌then◌else◌,
}
use mathlib.Core.Bool.{false≢true}
use hippo_build_x.Prelude.Effect.{ok, err}
use hippo_build_x.Shared.Errors.{validation}
use hippo_build_x.Rbac.Context.{Ctx, str, lower_is, is_admin_role}
use hippo_build_x.Rbac.Scope.{resolve_scope}
use hippo_build_x.Projects.Access.{assert_project_access}
use hippo_build_x.Projects.Dependencies.{
  with_new, search, fuel_for, outcome_result, assert_no_dependency_cycle,
}
use hippo_build_x.Projects.Dependencies.Graph.{Reach, here, step, Cyclic}
use hippo_build_x.Projects.TaskDependencies.{
  Task, Dependency, Tables, Body, Ids, edges_of, select_tasks, insert_dependency, link_tasks,
  with_ids, add_predecessor, post_dependency,
}
use hippo_build_x.Projects.TaskDependencies.Acyclic.{IsAcyclic, post_dependency-IsAcyclic}
use hippo_build_x.Projects.TaskDependencies.Gaps.{post_dependency-respelled}
use hippo_build_x.Tests.Projects.{plan_is_acyclic}

abbrev manager : Ctx
manager = record {
  user_id = str "u1";
  roles = "Admin" ∷ [];
  permissions = [];
  project_ids = [];
  location_ids = [];
}

abbrev task : String → Task
task id = record { id = id; project_id = "p1"; deleted = false }

abbrev dependency : String → String → Dependency
dependency a b = record {
  project_id = "p1";
  predecessor_id = a;
  successor_id = b;
  dependency_type = "FS";
}

abbrev tables : Tables
tables = record {
  tasks = task "a" ∷ task "b" ∷ task "c" ∷ [];
  task_dependencies = dependency "a" "b" ∷ [];
}

-- A reading that takes a capital B for the id `b`.
abbrev cast : String → Option String
cast s = some (if s == "B" then "b" else s)

abbrev asked : String → Body
asked predecessor = record { predecessor_id = some predecessor; dependency_type = none }

route_runs :
    ((post_dependency cast manager "c" (asked "b") tables).0 ≡ ok (dependency "b" "c"))
    × ((post_dependency cast manager "a" (asked "b") tables).0
        ≡ err (validation "Task dependency would create a cycle"))
    × ((post_dependency cast manager "b" (asked "a") tables).0
        ≡ err (validation "Dependency already exists"))
unfolding post_dependency add_predecessor with_ids link_tasks insert_dependency select_tasks
    edges_of assert_project_access assert_no_dependency_cycle with_new search fuel_for
    outcome_result resolve_scope is_admin_role lower_is
route_runs = (refl, refl, refl)

acyclic : IsAcyclic "p1" tables
unfolding edges_of
acyclic = plan_is_acyclic

post_dependency-IsAcyclic_example :
    IsAcyclic "p1" (post_dependency cast manager "c" (asked "b") tables).1
post_dependency-IsAcyclic_example =
    post_dependency-IsAcyclic cast manager "c" "b" none "p1" tables refl refl acyclic

abbrev back : Ids
back = record { predecessor = "b"; successor = "a" }

apart : {a b : String} → (a == b) ≡ false → a ≢ b
apart differs e = absurd (false≢true (sym differs ∙ (eq_iff _ _).1 e))

granted : assert_project_access manager "p1" ≡ ok tt
unfolding assert_project_access resolve_scope is_admin_role lower_is
granted = refl

selected : select_tasks "b" "a" tables.tasks ≡ task "a" ∷ task "b" ∷ []
unfolding select_tasks
selected = refl

walk : Reach (edges_of "p1" tables.task_dependencies) "a" "b"
unfolding edges_of
walk = step here (inl (refl, refl))

post_dependency-respelled_example :
    (s' : Tables) × (post_dependency cast manager "a" (asked "B") tables
      ≡ (ok (dependency "b" "a"), s'))
    × Cyclic (edges_of "p1" s'.task_dependencies)
post_dependency-respelled_example =
    post_dependency-respelled cast manager "B" back none (task "a") (task "b") tables
      (record {
        not_blank = apart refl;
        reads_predecessor = refl;
        reads_successor = refl;
        selects = selected;
        granted = granted;
        differs = apart refl;
        fresh = refl;
      })
      refl (apart refl) walk
