-- ===== src/Projects/TaskDependencies/Acyclic.antt =====
-- The dependencies of a project through the route that adds one.
use hippo_build_x.Prelude.{
  String, ◌≡◌, refl, subst, ◌↔◌, inl, inr, Option, some, List, [], ◌∷◌, ◌++◌, true, false, any,
  Bool-cases, eq_iff, ◌==◌, arith,
}
use hippo_build_x.Prelude.Effect.{ok, Result-cases}
use hippo_build_x.Rbac.Context.{Ctx}
use hippo_build_x.Projects.Access.{assert_project_access}
use hippo_build_x.Projects.Dependencies.{Edge, assert_no_dependency_cycle}
use hippo_build_x.Projects.Dependencies.Graph.{Links, Reach, here, step, Cyclic}
use hippo_build_x.Projects.Dependencies.Cycles.{assert_no_dependency_cycle-preserves}
use hippo_build_x.Projects.TaskDependencies.{
  Task, Dependency, Tables, Ids, edges_of, same_pair, insert_dependency, link_tasks, with_ids,
  add_predecessor, post_dependency,
}

-- The tasks of a project do not wait for themselves.
abbrev pub IsAcyclic : String → Tables → Type 0
IsAcyclic project_id s = ¬ Cyclic (edges_of project_id s.task_dependencies)

module _ (es fs : List Edge) (sub : (u v : String) → Links es u v → Links fs u v) where
  pub Reach-mono : {u v : String} → Reach es u v → Reach fs u v
  Reach-mono here = here
  Reach-mono (step r l) = step (Reach-mono r) (sub _ _ l)

  Cyclic-mono : Cyclic es → Cyclic fs
  Cyclic-mono (u, v, l, r) = (u, v, sub u v l, Reach-mono r)

pub Links-append :
    (es : List Edge) (e : Edge) (u v : String) → Links (es ++ e ∷ []) u v ↔ Links (e ∷ es) u v
Links-append [] e u v = ground arith
Links-append (f ∷ es) e u v = ground (arith, Links-append es e u v)

abbrev pub edge_of : Dependency → Edge
edge_of d = record { predecessor_id = d.predecessor_id; successor_id = d.successor_id }

-- A new row of another project, and one of the project itself.
pub edges_of-append_other :
    (q : String) (ds : List Dependency) (d : Dependency)
    → (d.project_id == q) ≡ false
    → edges_of q (ds ++ d ∷ []) ≡ edges_of q ds
unfolding edges_of
edges_of-append_other q [] d h = rw h refl
edges_of-append_other q (c ∷ ds) d h = rw (edges_of-append_other q ds d h) refl

pub edges_of-append :
    (q : String) (ds : List Dependency) (d : Dependency)
    → (d.project_id == q) ≡ true
    → edges_of q (ds ++ d ∷ []) ≡ edges_of q ds ++ edge_of d ∷ []
unfolding edges_of
edges_of-append q [] d h = rw h refl
edges_of-append q (c ∷ ds) d h = elim (Bool-cases (c.project_id == q)) [
  | inl same ↦ rw (edges_of-append q ds d h) (rw same refl)
  | inr differs ↦ rw (edges_of-append q ds d h) (rw differs refl)
]

insert-IsAcyclic :
    (d : Dependency) (q : String) (s : Tables)
    → IsAcyclic q s
    → assert_no_dependency_cycle
        (edges_of d.project_id s.task_dependencies)
        d.predecessor_id
        d.successor_id
      ≡ ok tt
    → IsAcyclic q (insert_dependency d s).1
unfolding insert_dependency
insert-IsAcyclic d q s h passed = elim (Bool-cases (d.predecessor_id == d.successor_id)) [
  | inl self ↦ rw self h
  | inr apart ↦ elim (Bool-cases (any (same_pair d) s.task_dependencies)) [
    | inl old ↦ rw (apart, old) h
    | inr fresh ↦
        rw (apart, fresh)
          (elim (Bool-cases (d.project_id == q)) [
            | inr elsewhere ↦ rw (edges_of-append_other q s.task_dependencies d elsewhere) h
            | inl own ↦ rw (edges_of-append q s.task_dependencies d own) (added own)
          ])
  ]
]
  where
    es : List Edge
    es = edges_of q s.task_dependencies

    added : (d.project_id == q) ≡ true → ¬ Cyclic (es ++ edge_of d ∷ [])
    added own c =
        assert_no_dependency_cycle-preserves es d.predecessor_id d.successor_id h
          (subst
            (λ p.
              assert_no_dependency_cycle (edges_of p s.task_dependencies) d.predecessor_id
                d.successor_id
              ≡ ok tt)
            ((eq_iff d.project_id q).0 own) passed)
          (Cyclic-mono (es ++ edge_of d ∷ []) (edge_of d ∷ es)
            (λ u v. (Links-append es (edge_of d) u v).0) c)

link-IsAcyclic :
    (ctx : Ctx) (ids : Ids) (type : Option String) (found : List Task) (q : String) (s : Tables)
    → IsAcyclic q s
    → IsAcyclic q (link_tasks ctx ids ids type found s).1
unfolding link_tasks
link-IsAcyclic ctx ids type [] q s h = h
link-IsAcyclic ctx ids type (t ∷ []) q s h = h
link-IsAcyclic ctx ids type (t ∷ u ∷ v ∷ rest) q s h = h
link-IsAcyclic ctx ids type (t ∷ u ∷ []) q s h =
    elim (Result-cases (assert_project_access ctx t.project_id)) [
      | inr (_, refused) ↦ rw refused h
      | inl (_, granted) ↦
          elim (Result-cases (
            assert_no_dependency_cycle (edges_of t.project_id s.task_dependencies) ids.predecessor
              ids.successor)) [
                | inr (_, refused) ↦ rw (granted, refused) h
                | inl (_, passed) ↦ rw (granted, passed) (insert-IsAcyclic _ q s h passed)
              ]
    ]

-- A request that spells its ids as the rows do never makes the tasks of a project wait for
-- themselves, whichever project that is and whatever the request answers.
pub post_dependency-IsAcyclic :
    (cast : String → Option String) (ctx : Ctx) (successor predecessor : String)
    (type : Option String) (q : String) (s : Tables)
    → cast successor ≡ some successor
    → cast predecessor ≡ some predecessor
    → IsAcyclic q s
    → IsAcyclic q
        (post_dependency cast ctx successor
          (record { predecessor_id = some predecessor; dependency_type = type })
          s).1
unfolding post_dependency add_predecessor with_ids
post_dependency-IsAcyclic cast ctx successor predecessor type q s cs cp h =
    elim (Bool-cases (predecessor == "")) [
      | inl blank ↦ rw blank h
      | inr given ↦ rw (given, cs, cp) (link-IsAcyclic ctx _ type _ q s h)
    ]
