-- ===== src/Projects/TaskDependencies/Gaps.antt =====
-- Dependencies that the route that adds one should not accept, and does.
use hippo_build_x.Prelude.{
  String, ◌≡◌, ◌≢◌, refl, sym, subst, ◌∙◌, ◌⊎◌, inl, inr, true, false, Option, some, List, [], ◌∷◌,
  ◌++◌, any, Bool-cases, or_false, eq_iff, eq_refl, ◌==◌, arith,
}
use mathlib.Core.Bool.{false≢true}
use hippo_build_x.Prelude.Effect.{ok}
use hippo_build_x.Rbac.Context.{Ctx}
use hippo_build_x.Projects.Access.{assert_project_access}
use hippo_build_x.Projects.Dependencies.{Edge, assert_no_dependency_cycle}
use hippo_build_x.Projects.Dependencies.Graph.{Links, Reach, here, step, Cyclic}
use hippo_build_x.Projects.Dependencies.Cycles.{assert_no_dependency_cycle_lem}
use hippo_build_x.Projects.TaskDependencies.{
  Task, Dependency, Tables, Ids, edges_of, select_tasks, same_pair, insert_dependency, link_tasks,
  type_or_default, with_ids, add_predecessor, post_dependency,
}
use hippo_build_x.Projects.TaskDependencies.Acyclic.{
  edge_of, edges_of-append, Links-append, Reach-mono,
}

-- The row that a request adds to a project.
abbrev pub row_of : String → Ids → Option String → Dependency
row_of project_id ids type = record {
  project_id = project_id;
  predecessor_id = ids.predecessor;
  successor_id = ids.successor;
  dependency_type = type_or_default type;
}

-- The tables with one more dependency.
abbrev pub with_row : Dependency → Tables → Tables
with_row d s = record s { task_dependencies = s.task_dependencies ++ d ∷ [] }

module _ (cast : String → Option String) (ctx : Ctx) (given read : Ids) (type : Option String)
    (t u : Task) (s : Tables) where
  -- What the route reads and checks before it writes.
  pub record IsAccepted : Type 0 where
    pub not_blank : given.predecessor ≢ ""
    pub reads_predecessor : cast given.predecessor ≡ some read.predecessor
    pub reads_successor : cast given.successor ≡ some read.successor
    pub selects : select_tasks read.predecessor read.successor s.tasks ≡ t ∷ u ∷ []
    pub granted : assert_project_access ctx t.project_id ≡ ok tt
    pub differs : read.predecessor ≢ read.successor
    pub fresh : any (same_pair (row_of t.project_id read type)) s.task_dependencies ≡ false

  abbrev pub Passes : Type 0
  Passes =
      assert_no_dependency_cycle (edges_of t.project_id s.task_dependencies) given.predecessor
        given.successor
      ≡ ok tt

  post_dependency-writes :
      IsAccepted
      → Passes
      → post_dependency cast ctx given.successor
          (record { predecessor_id = some given.predecessor; dependency_type = type })
          s
        ≡ (ok (row_of t.project_id read type), with_row (row_of t.project_id read type) s)
  unfolding post_dependency add_predecessor with_ids link_tasks insert_dependency
  post_dependency-writes h p =
      let blank = test given.predecessor "" h.not_blank in
      let self = test read.predecessor read.successor h.differs in
      rw (blank, h.reads_predecessor, h.reads_successor, h.selects, h.granted, p, self, h.fresh)
        refl
    where
      test : (a b : String) → a ≢ b → (a == b) ≡ false
      test a b ne = ground (arith, eq_iff a b)

no_walk :
    (es : List Edge) (from to : String)
    → from ≢ to
    → ((u : String) → ¬ Links es u to)
    → ¬ Reach es from to
no_walk es from to ne none_in here = ne refl
no_walk es from to ne none_in (step {v} r l) = none_in v l

not_linked :
    (q spelled : String) (ds : List Dependency)
    → any (λ d. d.successor_id == spelled) ds ≡ false
    → (u : String) → ¬ Links (edges_of q ds) u spelled
unfolding edges_of
not_linked q spelled [] h u l = l
not_linked q spelled (d ∷ ds) h u l =
    let (one, rest) = or_false _ _ h in
    elim (Bool-cases (d.project_id == q)) [
      | inl own ↦ elim (own_link own l) [
        | inl (_, e) ↦ absurd (false≢true (sym one ∙ (eq_iff d.successor_id spelled).1 e))
        | inr later ↦ not_linked q spelled ds rest u later
      ]
      | inr elsewhere ↦ not_linked q spelled ds rest u (other_link elsewhere l)
    ]
  where
    own_link :
        (d.project_id == q) ≡ true
        → Links (edges_of q (d ∷ ds)) u spelled
        → ((d.predecessor_id ≡ u) × (d.successor_id ≡ spelled)) ⊎ Links (edges_of q ds) u spelled
    own_link own l = rw own at l

    other_link :
        (d.project_id == q) ≡ false
        → Links (edges_of q (d ∷ ds)) u spelled
        → Links (edges_of q ds) u spelled
    other_link elsewhere l = rw elsewhere at l

abbrev pub respelled : String → Ids → Ids
respelled spelled ids = record ids { predecessor = spelled }

module _ (cast : String → Option String) (ctx : Ctx) (spelled : String) (ids : Ids)
    (type : Option String) (t u : Task) (s : Tables) where
  -- When a request spells its predecessor in a way that no row of a dependency does, and what the
  -- route reads and checks besides the cycle is in order, then dependencies that lead from the
  -- successor to the predecessor do not stop it: the row is written, and makes tasks of the project
  -- wait for themselves.
  pub post_dependency-respelled :
      IsAccepted cast ctx (respelled spelled ids) ids type t u s
      → any (λ d. d.successor_id == spelled) s.task_dependencies ≡ false
      → spelled ≢ ids.successor
      → Reach (edges_of t.project_id s.task_dependencies) ids.successor ids.predecessor
      → (s' : Tables) × (post_dependency cast ctx ids.successor
            (record { predecessor_id = some spelled; dependency_type = type })
            s
          ≡ (ok (row_of t.project_id ids type), s'))
        × Cyclic (edges_of t.project_id s'.task_dependencies)
  post_dependency-respelled h absent ne walk = (
    with_row row s,
    post_dependency-writes cast ctx (respelled spelled ids) ids type t u s h passed,
    subst Cyclic (sym (edges_of-append t.project_id s.task_dependencies row (eq_refl t.project_id)))
        (
          ids.predecessor,
          ids.successor,
          added _ _ (inl (refl, refl)),
          Reach-mono es (es ++ edge_of row ∷ []) (λ u v l. added u v (inr l)) walk,
        ),
  )
    where
      row : Dependency
      row = row_of t.project_id ids type

      es : List Edge
      es = edges_of t.project_id s.task_dependencies

      added : (u v : String) → Links (edge_of row ∷ es) u v → Links (es ++ edge_of row ∷ []) u v
      added u v = (Links-append es (edge_of row) u v).1

      passed : Passes cast ctx (respelled spelled ids) ids type t u s
      passed = (assert_no_dependency_cycle_lem es spelled ids.successor).0.1 (
        ne,
        no_walk es ids.successor spelled (λ e. ne (sym e))
            (not_linked t.project_id spelled s.task_dependencies absent),
      )
