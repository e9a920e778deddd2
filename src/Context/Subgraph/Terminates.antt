-- ===== src/Context/Subgraph/Terminates.antt =====
-- The walk ends: what stands in the queue and what may still be visited shrinks with each entry.
use native.Mathlib.Omega.{arith}
use beadloom.Base.{
  ℕ, zero, suc, ◌+◌, ◌-◌, ◌≤◌, ◌<◌, String, false, not, ◌&&◌, Option, none, some, List, [], ◌∷◌,
  if◌then◌else◌, string_equality, pair_equality, ltb, leb, length, length-append, contains, ◌≡◌,
  refl, sym, ap, ◌∙◌, Bool-cases, inl, inr,
}
use beadloom.Context.Subgraph.{
  NodeInfo, EdgeInfo, Graph, find_info, Walk, nothing, enqueue, seed, neighbors, record_edge,
  visit_one, visit, expand, bfs_fuel, given, bfs_subgraph,
}

-- No more than the limit is visited, and the entries with the visits that are left are at most so many.
abbrev HasRoom : ℕ → ℕ → Walk → Type 0
HasRoom max_nodes n walk =
    (length walk.visited ≤ max_nodes) × (length walk.queue + (max_nodes - length walk.visited) ≤ n)

record_edge-HasRoom :
    (max_nodes n : ℕ) (edge : EdgeInfo) (walk : Walk)
    → HasRoom max_nodes n walk
    → HasRoom max_nodes n (record_edge edge walk)
unfolding record_edge
record_edge-HasRoom max_nodes n edge walk h =
    elim (Bool-cases (contains walk.collected_edges edge)) [ inl e ↦ rw e h | inr e ↦ rw e h ]

enqueue-HasRoom :
    (max_nodes n : ℕ) (rid : String) (depth : ℕ) (row : Option NodeInfo) (walk : Walk)
    → HasRoom max_nodes n walk
    → length walk.visited < max_nodes
    → HasRoom max_nodes n (enqueue rid depth row walk)
unfolding enqueue
enqueue-HasRoom max_nodes n rid depth none walk h l = (omega (arith, l), omega (arith, h.1, l))
enqueue-HasRoom max_nodes n rid depth (some row) walk h l =
    (omega (arith, l), omega (arith, h.1, l, length-append walk.queue ((rid, depth) ∷ [])))

pub visited-record_edge :
    (edge : EdgeInfo) (walk : Walk) → (record_edge edge walk).visited ≡ walk.visited
unfolding record_edge
visited-record_edge edge walk = elim (Bool-cases (contains walk.collected_edges edge)) [
  | inl e ↦ rw e
  | inr e ↦ rw e
]

visit_one-HasRoom :
    (max_nodes n : ℕ) (graph : Graph) (next_depth : ℕ) (rid : String) (edge : EdgeInfo)
    (walk : Walk)
    → HasRoom max_nodes n walk
    → (not (contains walk.visited rid) && leb max_nodes (length walk.visited)) ≡ false
    → HasRoom max_nodes n (visit_one graph next_depth (rid, edge) walk)
unfolding visit_one
visit_one-HasRoom max_nodes n graph next_depth rid edge walk h g =
    let k = record_edge-HasRoom max_nodes n edge walk h in
    elim (Bool-cases (contains walk.visited rid)) [
      | inl e ↦ rw e k
      | inr e ↦
          let short : length walk.visited < max_nodes = ground (arith, e, g) in
          rw e (
            enqueue-HasRoom max_nodes n rid next_depth (find_info rid graph.nodes)
              (record_edge edge walk) k (rw (visited-record_edge edge walk) short))
    ]

visit-HasRoom :
    (max_nodes n : ℕ) (graph : Graph) (next_depth : ℕ) (rest : List (String × EdgeInfo))
    (walk : Walk)
    → HasRoom max_nodes n walk
    → HasRoom max_nodes n (visit graph max_nodes next_depth rest walk)
unfolding visit
visit-HasRoom max_nodes n graph next_depth [] walk h = h
visit-HasRoom max_nodes n graph next_depth ((rid, edge) ∷ rest) walk h =
    elim (Bool-cases (not (contains walk.visited rid) && leb max_nodes (length walk.visited))) [
      | inl e ↦ rw e (record_edge-HasRoom max_nodes n edge walk h)
      | inr e ↦ rw e (
          visit-HasRoom max_nodes n graph next_depth rest
            (visit_one graph next_depth (rid, edge) walk)
            (visit_one-HasRoom max_nodes n graph next_depth rid edge walk h e))
    ]

expand-HasRoom :
    (max_nodes n : ℕ) (graph : Graph) (depth : ℕ) (entry : String × ℕ) (walk : Walk)
    → HasRoom max_nodes n walk
    → HasRoom max_nodes n (expand graph depth max_nodes entry walk)
unfolding expand
expand-HasRoom max_nodes n graph depth (rid, d) walk h = elim (Bool-cases (leb depth d)) [
  | inl e ↦ rw e h
  | inr e ↦ rw e (visit-HasRoom max_nodes n graph (d + 1) (neighbors graph rid) walk h)
]

bfs_fuel_enough :
    (n : ℕ) (graph : Graph) (depth max_nodes : ℕ) (queue : List (String × ℕ)) (walk : Walk)
    → HasRoom max_nodes n (record walk { queue = queue })
    → (result : Walk) × (bfs_fuel n graph depth max_nodes queue walk ≡ some result)
unfolding bfs_fuel
bfs_fuel_enough n graph depth max_nodes [] walk h = (walk, refl)
bfs_fuel_enough zero graph depth max_nodes (entry ∷ queue) walk h = absurd (omega (arith, h.1))
bfs_fuel_enough (suc n) graph depth max_nodes (entry ∷ queue) walk h =
    let rest : Walk = record walk { queue = queue } in
    let next = expand graph depth max_nodes entry rest in
    bfs_fuel_enough n graph depth max_nodes next.queue next
      (expand-HasRoom max_nodes n graph depth entry rest (h.0, omega (arith, h.1)))

seed_one-HasRoom :
    (max_nodes n : ℕ) (rid : String) (row : Option NodeInfo) (walk : Walk)
    → HasRoom max_nodes n walk
    → HasRoom max_nodes n (
        if not (contains walk.visited rid) && ltb (length walk.visited) max_nodes
        then enqueue rid 0 row walk
        else walk)
seed_one-HasRoom max_nodes n rid row walk h =
    elim (Bool-cases (not (contains walk.visited rid) && ltb (length walk.visited) max_nodes)) [
      | inl e ↦ rw e (enqueue-HasRoom max_nodes n rid 0 row walk h (ground (arith, e)))
      | inr e ↦ rw e h
    ]

seed-HasRoom :
    (max_nodes n : ℕ) (graph : Graph) (rids : List String) (walk : Walk)
    → HasRoom max_nodes n walk
    → HasRoom max_nodes n (seed graph max_nodes rids walk)
unfolding seed
seed-HasRoom max_nodes n graph [] walk h = h
seed-HasRoom max_nodes n graph (rid ∷ rids) walk h =
    seed-HasRoom max_nodes n graph rids _
      (seed_one-HasRoom max_nodes n rid (find_info rid graph.nodes) walk h)

-- The walk is over after as many entries as nodes may be visited, and its result is that of `bfs_subgraph`.
pub bfs_subgraph_total :
    (graph : Graph) (focus : List String) (depth max_nodes : ℕ)
    → bfs_fuel max_nodes graph depth max_nodes
        (seed graph max_nodes focus nothing).queue
        (seed graph max_nodes focus nothing)
      ≡ some (bfs_subgraph graph focus depth max_nodes)
unfolding bfs_subgraph
bfs_subgraph_total graph focus depth max_nodes =
    let start = seed graph max_nodes focus nothing in
    let over =
      bfs_fuel_enough max_nodes graph depth max_nodes start.queue start
        (seed-HasRoom max_nodes max_nodes graph focus nothing (omega arith, omega arith)) in
    over.1 ∙ ap (λ o. some (given start o)) (sym over.1)
