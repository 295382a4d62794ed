-- ===== src/Projects/Dependencies/Graph.antt =====
-- Walks over dependencies, and what the adjacency of property-service.js knows of the edges.
use hippo_build_x.Prelude.{String, ◌≡◌, ◌↔◌, ◌⊎◌, List, [], ◌∷◌, Holds, Holds-append, arith, eq_iff}
use hippo_build_x.Projects.Dependencies.{Edge, Adjacency, push, targets, build, with_new}

-- A dependency of the list leads from `u` to `v`.
abbrev pub Links : List Edge → String → String → Type 0
Links [] u v = ⊥
Links (e ∷ es) u v = ((e.predecessor_id ≡ u) × (e.successor_id ≡ v)) ⊎ Links es u v

-- The walks from `u`, with no step or more.
pub data Reach (es : List Edge) (u : String) : String → Type 0 where
  here : Reach es u u
  step : {v w : String} → Reach es u v → Links es v w → Reach es u w

-- A task that depends on itself through one dependency or more.
abbrev pub Cyclic : List Edge → Type 0
Cyclic es = (u v : String) × Links es u v × Reach es v u

targets-push :
    (k v : String) (m : Adjacency) (u w : String)
    → Holds (targets (push k v m) u) w ↔ (Holds (targets m u) w ⊎ (k ≡ u) × (v ≡ w))
unfolding push targets
targets-push k v [] u w = ground (arith, eq_iff k u)
targets-push k v ((j, vs) ∷ m) u w =
    ground (
      arith,
      eq_iff j k,
      eq_iff j u,
      eq_iff k u,
      Holds-append vs (v ∷ []) w,
      targets-push k v m u w,
    )

targets-build :
    (es : List Edge) (m : Adjacency) (u w : String)
    → Holds (targets (build es m) u) w ↔ (Holds (targets m u) w ⊎ Links es u w)
unfolding build
targets-build [] m u w = ground arith
targets-build (e ∷ es) m u w = ground (
  arith,
  targets-build es (push e.predecessor_id e.successor_id m) u w,
  targets-push e.predecessor_id e.successor_id m u w,
)

-- The search follows the edges of the project and the new one.
pub targets-with_new :
    (es : List Edge) (p s u w : String)
    → Holds (targets (with_new es p s) u) w
      ↔ Links (record { predecessor_id = p; successor_id = s } ∷ es) u w
unfolding with_new
targets-with_new es p s u w =
    ground (arith, targets-push p s (build es []) u w, targets-build es [] u w, empty)
  where
    empty : ¬ Holds (targets [] u) w
    empty h = unfold targets in h
