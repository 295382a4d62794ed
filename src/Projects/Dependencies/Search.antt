-- ===== src/Projects/Dependencies/Search.antt =====
-- The breadth-first search of property-service.js ends, and finds exactly the reachable tasks.
use hippo_build_x.Prelude.{
  ℕ, zero, suc, ◌+◌, ◌≤◌, String, ◌≡◌, ◌≢◌, refl, ◌↔◌, ◌⊎◌, inl, inr, false, List, [], ◌∷◌, ◌++◌,
  length, length-append, includes, includes_iff, Holds, Holds-append, arith, Bool-cases, eq_iff,
  if◌then◌else◌, ◌==◌,
}
use hippo_build_x.Projects.Dependencies.{
  Edge, Adjacency, targets, Outcome, cycle, no_cycle, out_of_fuel, search, fuel_for,
}
use hippo_build_x.Projects.Dependencies.Graph.{Links, Reach, here, step}

-- The successors of the tasks that are not yet seen.
waiting : Adjacency → List String → ℕ
waiting [] seen = 0
waiting ((j, vs) ∷ m) seen = (if includes seen j then 0 else length vs) + waiting m seen

waiting_mono :
    (m : Adjacency) (c : String) (seen : List String) → waiting m (c ∷ seen) ≤ waiting m seen
unfolding waiting
waiting_mono [] c seen = omega arith
waiting_mono ((j, vs) ∷ m) c seen = ground (arith, waiting_mono m c seen)

waiting_visit :
    (m : Adjacency) (c : String) (seen : List String)
    → includes seen c ≡ false
    → waiting m (c ∷ seen) + length (targets m c) ≤ waiting m seen
unfolding waiting targets
waiting_visit [] c seen h = omega arith
waiting_visit ((j, vs) ∷ m) c seen h =
    ground (arith, waiting_visit m c seen h, waiting_mono m c seen, eq_iff j c, eq_iff c j)

search_ends :
    (m : Adjacency) (goal : String) (fuel : ℕ) (seen queue : List String)
    → waiting m seen + length queue ≤ fuel
    → search m goal fuel seen queue ≢ out_of_fuel
unfolding search
search_ends m goal fuel seen [] h = cc
search_ends m goal zero seen (c ∷ queue) h = absurd (omega arith)
search_ends m goal (suc fuel) seen (c ∷ queue) h = ground (
  arith,
  search_ends m goal fuel seen queue,
  search_ends m goal fuel (c ∷ seen) (queue ++ targets m c),
  waiting_visit m c seen,
  length-append queue (targets m c),
)

fuel_for-waiting : (m : Adjacency) → fuel_for m ≡ waiting m [] + 1
unfolding fuel_for waiting
fuel_for-waiting [] = refl
fuel_for-waiting ((j, vs) ∷ m) = omega (arith, fuel_for-waiting m)

-- The fuel is enough, whatever the edges.
pub search_terminates :
    (m : Adjacency) (goal start : String) → search m goal (fuel_for m) [] (start ∷ []) ≢ out_of_fuel
search_terminates m goal start =
    search_ends m goal (fuel_for m) [] (start ∷ []) (omega (arith, fuel_for-waiting m))

module _ (m : Adjacency) (es : List Edge)
    (follows : (u w : String) → Holds (targets m u) w ↔ Links es u w) (start goal : String) where
  record Inv (seen queue : List String) : Type 0 where
    source : Holds seen start ⊎ Holds queue start
    avoids : ¬ Holds seen goal
    closed : (u v : String) → Holds seen u → Holds (targets m u) v → Holds seen v ⊎ Holds queue v
    sound : (u : String) → Holds queue u → Reach es start u

  Inv-skip :
      (seen queue : List String) (c : String) → Holds seen c → Inv seen (c ∷ queue) → Inv seen queue
  Inv-skip seen queue c old h = record {
    source = ground (arith, h.source, keep start);
    avoids = h.avoids;
    closed = λ u v s t. ground (arith, h.closed u v s t, keep v);
    sound = λ u q. h.sound u (inr q);
  }
    where
      keep : (v : String) → c ≡ v → Holds seen v
      keep v e = rw (← e) old

  Inv-visit :
      (seen queue : List String) (c : String)
      → c ≢ goal
      → Inv seen (c ∷ queue)
      → Inv (c ∷ seen) (queue ++ targets m c)
  Inv-visit seen queue c ne h = record {
    source = ground (arith, h.source, Holds-append queue (targets m c) start);
    avoids = λ s. elim s [ inl e ↦ ne e | inr s' ↦ h.avoids s' ];
    closed = λ u v s t. elim s [
      | inl e ↦ inr ((Holds-append queue (targets m c) v).1 (inr (rw e t)))
      | inr s' ↦ ground (arith, h.closed u v s' t, Holds-append queue (targets m c) v)
    ];
    sound = λ u q. elim ((Holds-append queue (targets m c) u).0 q) [
      | inl old ↦ h.sound u (inr old)
      | inr new ↦ step (h.sound c (inl refl)) ((follows c u).0 new)
    ];
  }

  -- A walk from the start stays among the seen tasks once the queue is empty.
  Inv-complete : (seen : List String) → Inv seen [] → {v : String} → Reach es start v → Holds seen v
  Inv-complete seen h here = elim h.source [ inl s ↦ s | inr q ↦ absurd q ]
  Inv-complete seen h (step {v} {w} p e) =
      elim (h.closed v w (Inv-complete seen h p) ((follows v w).1 e)) [
        | inl s ↦ s
        | inr q ↦ absurd q
      ]

  abbrev Says : Outcome → Type 0
  Says cycle = Reach es start goal
  Says no_cycle = ¬ Reach es start goal
  Says out_of_fuel = Unit

  search-Says :
      (fuel : ℕ) (seen queue : List String) → Inv seen queue → Says (search m goal fuel seen queue)
  unfolding search
  search-Says zero seen [] h = λ r. h.avoids (Inv-complete seen h r)
  search-Says (suc fuel) seen [] h = λ r. h.avoids (Inv-complete seen h r)
  search-Says zero seen (c ∷ queue) h = tt
  search-Says (suc fuel) seen (c ∷ queue) h = elim (Bool-cases (c == goal)) [
    | inl found ↦ rw found (rw (← (eq_iff c goal).0 found) (h.sound c (inl refl)))
    | inr differs ↦ elim (Bool-cases (includes seen c)) [
      | inl old ↦
          rw (differs, old)
            (search-Says fuel seen queue (Inv-skip seen queue c ((includes_iff seen c).0 old) h))
      | inr new ↦
          rw (differs, new)
            (search-Says fuel (c ∷ seen) (queue ++ targets m c)
              (Inv-visit seen queue c (λ e. ground (arith, eq_iff c goal)) h))
    ]
  ]

  -- The search from the start says whether the goal is reachable.
  pub search_decides :
      (search m goal (fuel_for m) [] (start ∷ []) ≡ cycle → Reach es start goal)
      × (search m goal (fuel_for m) [] (start ∷ []) ≡ no_cycle → ¬ Reach es start goal)
  search_decides = (λ e. rw e at said, λ e. rw e at said)
    where
      initial : Inv [] (start ∷ [])
      initial = record {
        source = inr (inl refl);
        avoids = λ h. h;
        closed = λ u v s t. absurd s;
        sound = λ u q. elim q [ inl e ↦ rw (← e) here | inr n ↦ absurd n ];
      }

      said : Says (search m goal (fuel_for m) [] (start ∷ []))
      said = search-Says (fuel_for m) [] (start ∷ []) initial
