-- ===== src/Projects/TaskDependencies.antt =====
-- apps/web/src/app/api/v1/tasks/[id]/dependencies/route.js: a request that makes a task wait for
-- another. Ids in rows are spelled the way PostgreSQL prints a UUID; `cast` stands for its reading of
-- a UUID, which accepts other spellings (capital letters) and fails on other text.
pub mod Acyclic
pub mod Gaps
use hippo_build_x.Prelude.{
  String, Bool, not, ◌&&◌, ◌||◌, Option, none, some, List, [], ◌∷◌, ◌++◌, filter, any,
  if◌then◌else◌, ◌==◌,
}
use hippo_build_x.Prelude.Effect.{Result, ok, err, app, other, bind_result}
use hippo_build_x.Shared.Errors.{validation}
use hippo_build_x.Shared.Errors.ErrorCode
use hippo_build_x.Rbac.Context.{Ctx}
use hippo_build_x.Projects.Access.{assert_project_access}
use hippo_build_x.Projects.Dependencies.{Edge, assert_no_dependency_cycle}

pub record Task : Type 0 where
  pub id : String
  pub project_id : String
  pub deleted : Bool

pub record Dependency : Type 0 where
  pub project_id : String
  pub predecessor_id : String
  pub successor_id : String
  pub dependency_type : String

pub record Tables : Type 0 where
  pub tasks : List Task
  pub task_dependencies : List Dependency

pub record Body : Type 0 where
  pub predecessor_id : Option String
  pub dependency_type : Option String

-- `SELECT predecessor_id, successor_id FROM task_dependencies WHERE project_id = $1`
unfoldable pub edges_of : String → List Dependency → List Edge
edges_of project_id [] = []
edges_of project_id (d ∷ ds) =
    let rest = edges_of project_id ds in
    if d.project_id == project_id
    then record { predecessor_id = d.predecessor_id; successor_id = d.successor_id } ∷ rest
    else rest

-- `SELECT ... WHERE id = ANY($1::uuid[]) AND deleted_at IS NULL`
unfoldable pub select_tasks : String → String → List Task → List Task
select_tasks predecessor successor tasks =
    filter (λ t. (t.id == predecessor || t.id == successor) && not t.deleted) tasks

-- The UNIQUE constraint of two rows.
abbrev pub same_pair : Dependency → Dependency → Bool
same_pair d e = d.predecessor_id == e.predecessor_id && d.successor_id == e.successor_id

-- The INSERT with the two constraints of its table, in the `try` of the route.
unfoldable pub insert_dependency : Dependency → Tables → Result Dependency × Tables
insert_dependency d s =
    if d.predecessor_id == d.successor_id
    then (err (other "violates check constraint"), s)
    else if any (same_pair d) s.task_dependencies
    then (err (validation "Dependency already exists"), s)
    else (ok d, record s { task_dependencies = s.task_dependencies ++ d ∷ [] })

-- `value || 'FS'`
abbrev pub type_or_default : Option String → String
type_or_default none = "FS"
type_or_default (some t) = if t == "" then "FS" else t

-- The two ids as the request spells them.
pub record Ids : Type 0 where
  pub predecessor : String
  pub successor : String

-- From the rows of the tasks on: `read` is the ids that PostgreSQL reads from the `given` ones.
unfoldable pub link_tasks :
    Ctx → Ids → Ids → Option String → List Task → Tables → Result Dependency × Tables
unfolding edges_of
link_tasks ctx given read dependency_type (t ∷ u ∷ []) s =
    bind_result (assert_project_access ctx t.project_id, s)
      (λ _ s.
        bind_result
          (
            assert_no_dependency_cycle (edges_of t.project_id s.task_dependencies) given.predecessor
                given.successor,
            s,
          )
          (λ _. insert_dependency (record {
            project_id = t.project_id;
            predecessor_id = read.predecessor;
            successor_id = read.successor;
            dependency_type = type_or_default dependency_type;
          })))
link_tasks ctx given read dependency_type _ s =
    (err (app ErrorCode.not_found "Task not found" 404), s)

abbrev pub both : Option String → Option String → Option Ids
both (some p) (some q) = some (record { predecessor = p; successor = q })
both _ _ = none

-- From the ids that PostgreSQL reads on.
unfoldable pub with_ids :
    Ctx → Ids → Option String → Option Ids → Tables → Result Dependency × Tables
unfolding select_tasks
with_ids ctx given dependency_type none s = (err (other "invalid input syntax for type uuid"), s)
with_ids ctx given dependency_type (some read) s =
    link_tasks ctx given read dependency_type (select_tasks read.predecessor read.successor s.tasks)
      s

-- From the predecessor of the body on.
unfoldable pub add_predecessor :
    (String → Option String)
    → Ctx
    → String
    → Option String
    → Option String
    → Tables
    → Result Dependency × Tables
add_predecessor cast ctx successor dependency_type none s =
    (err (validation "predecessorId required"), s)
add_predecessor cast ctx successor dependency_type (some predecessor) s =
    if predecessor == ""
    then (err (validation "predecessorId required"), s)
    else with_ids ctx (record { predecessor = predecessor; successor = successor }) dependency_type
        (both (cast predecessor) (cast successor)) s

unfoldable pub post_dependency :
    (String → Option String) → Ctx → String → Body → Tables → Result Dependency × Tables
post_dependency cast ctx successor body =
    add_predecessor cast ctx successor body.dependency_type body.predecessor_id
