-- ===== src/Graph/Plan/Safe.antt =====
-- The plan of a whole graph, `arena_plan` of `src/graph.c`.
use mathlib.Core.Option
use mathlib.Core.Path.{subst}
use tinyllama_c.Prelude.{
  ℕ, zero, suc, ◌+◌, ◌^◌, ◌≤◌, ◌<◌, ◌≡◌, ap, sym, List, [], ◌∷◌, some, map, length, get_elem?,
  get_or, arith,
}
use tinyllama_c.Graph.{GraphNode, Graph, Session}
use tinyllama_c.Graph.Plan.{
  Slot, Demand, releases, demands, demands_from, arena_plan, empty_sweep, sweep,
}
use tinyllama_c.Graph.Plan.Cover.{slot_cover}
use tinyllama_c.Graph.Plan.Slots.{EveryDemand, total_need, sweep-Apart}
use tinyllama_c.Graph.Plan.Step.{Inside}
use tinyllama_c.Graph.Plan.Release.{releases-own, releases-source, asked, sweep-asked}

get_elem?-map :
    (ts : List Slot) (j : ℕ) (t : Slot)
    → get_elem? ts j ≡ some t
    → get_elem? (map asked ts) j ≡ some (asked t)
get_elem?-map [] j t h = absurd (cc)
get_elem?-map (u ∷ ts) zero t h = ap some (ap asked (Option.some-injective _ _ h))
get_elem?-map (u ∷ ts) (suc j) t h = get_elem?-map ts j t h

-- Every node has one of the three backends.
abbrev pub EveryNodeBackend : List GraphNode → Type 0
EveryNodeBackend [] = Unit {0}
EveryNodeBackend (n ∷ ns) = (n.backend < 3) × EveryNodeBackend ns

module _ (sink dims release : List ℕ) (s : Session) where
  demands_from-every :
      (i : ℕ) (ns : List GraphNode)
      → EveryNodeBackend ns
      → ((j : ℕ) → j < length ns → i + j ≤ get_or release (i + j) 0)
      → EveryDemand i (demands_from i ns sink dims release s)
  unfolding demands_from
  demands_from-every i [] low own = tt
  demands_from-every i (n ∷ ns) (l, low) own =
      let e : i + 0 ≡ i = omega arith in
      let e' : i + 1 ≡ suc i = omega arith in
      (
        (l, rw e at (own 0 (omega arith))),
        subst (λ j. EveryDemand (suc i) (demands_from j ns sink dims release s)) (sym e')
            (demands_from-every (suc i) ns low (λ j h.
              let shift : i + suc j ≡ suc i + j = omega arith in
              rw shift at (own (suc j) (omega arith)))),
      )

  demands_from-release :
      (i : ℕ) (ns : List GraphNode) (j : ℕ) (d : Demand)
      → get_elem? (demands_from i ns sink dims release s) j ≡ some d
      → (d.release ≡ get_or release (i + j) 0) × (j < length ns)
  unfolding demands_from
  demands_from-release i [] j d h = absurd (cc)
  demands_from-release i (n ∷ ns) zero d h =
      let e : i + 0 ≡ i = omega arith in
      (rw e (sym (ap (λ w. w.release) (Option.some-injective _ _ h))), omega arith)
  demands_from-release i (n ∷ ns) (suc j) d h =
      let (same, lt) = demands_from-release (i + 1) ns j d h in
      let shift : i + suc j ≡ i + 1 + j = omega arith in (rw shift same, omega arith)

demands-every : (g : Graph) (s : Session) → EveryNodeBackend g.node → EveryDemand 0 (demands g s)
unfolding demands
demands-every g s low =
    demands_from-every _ _ (releases g.node) s 0 g.node low
      (λ j h. let e : 0 + j ≡ j = omega arith in rw e (releases-own g.node j h))

-- A slot is not released before a consumer of its node.
slot-release :
    (g : Graph) (s : Session) (t : Slot) (a k q : ℕ) (n : GraphNode)
    → get_elem? g.node k ≡ some n
    → get_elem? n.src q ≡ some (some a)
    → get_elem? (sweep (demands g s) empty_sweep).slot a ≡ some t
    → k ≤ t.release
unfolding demands asked empty_sweep releases
slot-release g s t a k q n at_k at_q at_a =
    let all = sweep-asked (demands g s) empty_sweep in
    let d = asked t in
    let at_a' = rw all at (get_elem?-map (sweep (demands g s) empty_sweep).slot a t at_a) in
    let (same, lt) = demands_from-release _ _ (releases g.node) s 0 g.node a d at_a' in
    let e : 0 + a ≡ a = omega arith in
    omega (arith, rw e at same, releases-source g.node k q a n at_k at_q lt)

-- While a node or one of its consumers runs, no other node that was placed since shares a byte of
-- its slot.
abbrev pub Undisturbed : Graph → List Slot → Type 0
Undisturbed g ts =
    (a k m q : ℕ) (n : GraphNode) (t u : Slot) (x : ℕ)
    → get_elem? g.node k ≡ some n
    → get_elem? n.src q ≡ some (some a)
    → get_elem? ts a ≡ some t
    → get_elem? ts m ≡ some u
    → t.backend ≡ u.backend
    → a < m
    → m ≤ k
    → slot_cover x t + slot_cover x u ≤ 1

-- For a graph whose nodes have known backends and ask for fewer than 2^64 bytes together: the plan
-- has a slot for each node, inside the arena of its backend, and until the last consumer of a node
-- has run, no node that is placed after it on its backend, the consumer included, shares a byte of
-- its slot.
pub arena_plan-Undisturbed :
    (g : Graph) (s : Session)
    → EveryNodeBackend g.node
    → total_need (demands g s) < 2 ^ 64
    → (map asked (arena_plan g s).slot ≡ demands g s)
      × Inside (arena_plan g s)
      × Undisturbed g (arena_plan g s).slot
unfolding arena_plan empty_sweep demands
arena_plan-Undisturbed g s low small =
    let (apart, inside) = sweep-Apart (demands g s) (demands-every g s low) small in
    (
      sweep-asked (demands g s) empty_sweep,
      inside,
      λ a k m q n t u x at_k at_q at_a at_m same before late.
          let in_use = slot-release g s t a k q n at_k at_q at_a in
          apart a m t u x at_a at_m before same (omega (arith, in_use)),
    )
