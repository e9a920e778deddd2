-- ===== src/Context/Subgraph/Sound.antt =====
-- What the walk collects: few nodes, none twice, all near a focus, and edges of the graph between them.
use native.Mathlib.Omega.{arith}
use beadloom.Base.{
  ℕ, zero, suc, ◌+◌, ◌≤◌, ◌<◌, String, true, false, not, ◌&&◌, ◌||◌, some, List, [], ◌∷◌, ◌++◌,
  if◌then◌else◌, ◌==◌, string_equality, pair_equality, ltb, leb, length, length-append, contains,
  contains-append, All-contains, All-append_iff, ◌≡◌, refl, sym, ap, subst, ◌∙◌, inl, inr,
  Bool-cases, Option-cases, All, IsDuplicateFree, IsDuplicateFree-append, All-sort_by_iff, eq_iff,
}
use beadloom.Context.Subgraph.{
  NodeInfo, EdgeInfo, Graph, find_info, Walk, nothing, enqueue, seed, outgoing, incoming, sooner,
  neighbors, record_edge, visit_one, visit, expand, bfs_fuel, bfs_subgraph,
}
use beadloom.Context.Subgraph.Terminates.{visited-record_edge, bfs_subgraph_total}

-- An edge joins the two names, in one direction or the other.
abbrev pub IsAdjacent : Graph → String → String → Type 0
IsAdjacent graph a b =
    (kind : String) × ((contains graph.edges (a, (b, kind)) || contains graph.edges (b, (a, kind)))
      ≡ true)

-- So many edges lead from a focus to the name.
pub data Reaches (graph : Graph) (focus : List String) : ℕ → String → Type 0 where
  start : (rid : String) → contains focus rid ≡ true → Reaches graph focus 0 rid
  step :
      {d : ℕ} {a : String} (b : String)
      → Reaches graph focus d a
      → IsAdjacent graph a b
      → Reaches graph focus (d + 1) b

abbrev pub names : List NodeInfo → List String
names [] = []
names (row ∷ rows) = row.ref_id ∷ names rows

pub names-append : (xs ys : List NodeInfo) → names (xs ++ ys) ≡ names xs ++ names ys
names-append [] ys = refl
names-append (row ∷ xs) ys = ap (λ rest. row.ref_id ∷ rest) (names-append xs ys)

-- A row that is found has the name.
pub ref_id-find_info :
    (rid : String) (rows : List NodeInfo) (row : NodeInfo)
    → find_info rid rows ≡ some row
    → row.ref_id ≡ rid
unfolding find_info
ref_id-find_info rid [] row h = absurd (ground (arith, h))
ref_id-find_info rid (top ∷ rows) row h = elim (Bool-cases (top.ref_id == rid)) [
  | inl e ↦
      let same : top ≡ row = ground (arith, e, h) in
      subst (λ (r : NodeInfo). r.ref_id ≡ rid) same ((eq_iff top.ref_id rid).0 e)
  | inr e ↦ ref_id-find_info rid rows row (ground (arith, e, h))
]

All-append_one :
    {A : Type 0} (P : A → Type 0) (xs : List A) (y : A) → All P xs → P y → All P (xs ++ y ∷ [])
All-append_one P [] y h k = (k, tt)
All-append_one P (x ∷ xs) y h k = (h.0, All-append_one P xs y h.1 k)

module _ (graph : Graph) (focus : List String) (depth max_nodes : ℕ) where
  abbrev pub IsNear : String → Type 0
  IsNear rid = (d : ℕ) × ((d ≤ depth) × Reaches graph focus d rid)

  abbrev IsQueued : String × ℕ → Type 0
  IsQueued entry = (entry.1 ≤ depth) × Reaches graph focus entry.1 entry.0

  -- Few nodes are collected, none of them twice, and each is visited and near a focus.
  abbrev HasNodes : List String → List NodeInfo → Type 0
  HasNodes visited nodes =
      (length visited ≤ max_nodes)
      × (length nodes ≤ length visited)
      × ((x : String) → contains (names nodes) x ≡ true → contains visited x ≡ true)
      × IsDuplicateFree (names nodes)
      × All (λ (row : NodeInfo). IsNear row.ref_id) nodes

  -- Edges of the graph are collected, none of them twice.
  abbrev pub HasEdges : List EdgeInfo → Type 0
  HasEdges edges = IsDuplicateFree edges × All (λ edge. contains graph.edges edge ≡ true) edges

  -- what each step of the walk keeps
  abbrev IsSound : Walk → Type 0
  IsSound walk =
      HasNodes walk.visited walk.collected_nodes
      × (HasEdges walk.collected_edges × All IsQueued walk.queue)

  record_edge-IsSound :
      (edge : EdgeInfo) (walk : Walk)
      → contains graph.edges edge ≡ true
      → IsSound walk
      → IsSound (record_edge edge walk)
  unfolding record_edge
  record_edge-IsSound edge walk m h = elim (Bool-cases (contains walk.collected_edges edge)) [
    | inl e ↦ rw e h
    | inr e ↦ rw e (
      h.0,
      (
        (
          IsDuplicateFree-append walk.collected_edges edge h.1.0.0 e,
          All-append_one _ walk.collected_edges edge h.1.0.1 m,
        ),
        h.1.1,
      ),
    )
  ]

  HasNodes-enqueue :
      (rid : String) (row : NodeInfo) (visited : List String) (nodes : List NodeInfo)
      → row.ref_id ≡ rid
      → IsNear rid
      → contains visited rid ≡ false
      → length visited < max_nodes
      → HasNodes visited nodes
      → HasNodes (rid ∷ visited) (nodes ++ row ∷ [])
  HasNodes-enqueue rid row visited nodes same near m l (few, fewer, all_visited, free, all_near) =
      let more : names (nodes ++ row ∷ []) ≡ names nodes ++ rid ∷ [] =
        names-append nodes (row ∷ []) ∙ ap (λ x. names nodes ++ x ∷ []) same in
      let new : contains (names nodes) rid ≡ false =
        elim (Bool-cases (contains (names nodes) rid)) [
          | inl e ↦ absurd (ground (arith, all_visited rid e, m))
          | inr e ↦ e
        ] in
      (
        omega (arith, l),
        omega (arith, fewer, length-append nodes (row ∷ [])),
        rw more
            (λ x k. ground (arith, contains-append (names nodes) (rid ∷ []) x, all_visited x, k)),
        rw more (IsDuplicateFree-append (names nodes) rid free new),
        All-append_one (λ (r : NodeInfo). IsNear r.ref_id) nodes row all_near
            (subst IsNear (sym same) near),
      )

  enqueue-IsSound :
      (rid : String) (d : ℕ) (walk : Walk)
      → IsQueued (rid, d)
      → contains walk.visited rid ≡ false
      → length walk.visited < max_nodes
      → IsSound walk
      → IsSound (enqueue rid d (find_info rid graph.nodes) walk)
  unfolding enqueue
  enqueue-IsSound rid d walk q m l h = elim (Option-cases (find_info rid graph.nodes)) [
    | inl e ↦ rw e (
      (omega (arith, l), omega (arith, h.0.1), λ x k. ground (arith, h.0.2 x k), h.0.3, h.0.4),
      h.1,
    )
    | inr (row, e) ↦ rw e (
      HasNodes-enqueue rid row walk.visited walk.collected_nodes
          (ref_id-find_info rid graph.nodes row e) (d, q) m l h.0,
      (h.1.0, All-append_one IsQueued walk.queue (rid, d) h.1.1 q),
    )
  ]

  -- a neighbor at an entry of the queue: the edge is one of the graph's and leads to it
  abbrev IsNext : String → String × EdgeInfo → Type 0
  IsNext a entry = (contains graph.edges entry.1 ≡ true) × IsAdjacent graph a entry.0

  All-outgoing :
      (a : String) (edges : List EdgeInfo)
      → All (λ edge. contains graph.edges edge ≡ true) edges
      → All (IsNext a) (outgoing a edges)
  unfolding outgoing
  All-outgoing a [] h = tt
  All-outgoing a ((src, (dst, kind)) ∷ edges) h = elim (Bool-cases (src == a)) [
    | inl e ↦
        let m : contains graph.edges (a, (dst, kind)) ≡ true =
          subst (λ x. contains graph.edges (x, (dst, kind)) ≡ true) ((eq_iff src a).0 e) h.0 in
        rw e ((h.0, (kind, ground (arith, m))), All-outgoing a edges h.1)
    | inr e ↦ rw e (All-outgoing a edges h.1)
  ]

  All-incoming :
      (a : String) (edges : List EdgeInfo)
      → All (λ edge. contains graph.edges edge ≡ true) edges
      → All (IsNext a) (incoming a edges)
  unfolding incoming
  All-incoming a [] h = tt
  All-incoming a ((src, (dst, kind)) ∷ edges) h = elim (Bool-cases (dst == a)) [
    | inl e ↦
        let m : contains graph.edges (src, (a, kind)) ≡ true =
          subst (λ x. contains graph.edges (src, (x, kind)) ≡ true) ((eq_iff dst a).0 e) h.0 in
        rw e ((h.0, (kind, ground (arith, m))), All-incoming a edges h.1)
    | inr e ↦ rw e (All-incoming a edges h.1)
  ]

  All-neighbors : (a : String) → All (IsNext a) (neighbors graph a)
  unfolding neighbors
  All-neighbors a =
      let own = All-contains graph.edges graph.edges (λ x h. h) in
      (All-sort_by_iff (IsNext a) sooner _).1 (
        (All-append_iff (IsNext a) (outgoing a graph.edges) (incoming a graph.edges)).1
          (All-outgoing a graph.edges own, All-incoming a graph.edges own))

  visit_one-IsSound :
      (a : String) (d : ℕ) (rid : String) (edge : EdgeInfo) (walk : Walk)
      → Reaches graph focus d a
      → d < depth
      → IsNext a (rid, edge)
      → (not (contains walk.visited rid) && leb max_nodes (length walk.visited)) ≡ false
      → IsSound walk
      → IsSound (visit_one graph (d + 1) (rid, edge) walk)
  unfolding visit_one
  visit_one-IsSound a d rid edge walk r l next g h =
      let k = record_edge-IsSound edge walk next.0 h in
      elim (Bool-cases (contains walk.visited rid)) [
        | inl e ↦ rw e k
        | inr e ↦
            let short : length walk.visited < max_nodes = ground (arith, e, g) in
            rw e (
              enqueue-IsSound rid (d + 1) (record_edge edge walk)
                (omega (arith, l), Reaches.step rid r next.1) (rw (visited-record_edge edge walk) e)
                (rw (visited-record_edge edge walk) short) k)
      ]

  visit-IsSound :
      (a : String) (d : ℕ) (rest : List (String × EdgeInfo)) (walk : Walk)
      → Reaches graph focus d a
      → d < depth
      → All (IsNext a) rest
      → IsSound walk
      → IsSound (visit graph max_nodes (d + 1) rest walk)
  unfolding visit
  visit-IsSound a d [] walk r l next h = h
  visit-IsSound a d ((rid, edge) ∷ rest) walk r l next h =
      elim (Bool-cases (not (contains walk.visited rid) && leb max_nodes (length walk.visited))) [
        | inl e ↦ rw e (record_edge-IsSound edge walk next.0.0 h)
        | inr e ↦ rw e (
            visit-IsSound a d rest (visit_one graph (d + 1) (rid, edge) walk) r l next.1
              (visit_one-IsSound a d rid edge walk r l next.0 e h))
      ]

  expand-IsSound :
      (entry : String × ℕ) (walk : Walk)
      → IsQueued entry
      → IsSound walk
      → IsSound (expand graph depth max_nodes entry walk)
  unfolding expand
  expand-IsSound (a, d) walk q h = elim (Bool-cases (leb depth d)) [
    | inl e ↦ rw e h
    | inr e ↦
        rw e
          (visit-IsSound a d (neighbors graph a) walk q.1 (ground (arith, e)) (All-neighbors a) h)
  ]

  bfs_fuel-IsSound :
      (n : ℕ) (queue : List (String × ℕ)) (walk result : Walk)
      → IsSound (record walk { queue = queue })
      → bfs_fuel n graph depth max_nodes queue walk ≡ some result
      → HasNodes result.visited result.collected_nodes × HasEdges result.collected_edges
  unfolding bfs_fuel
  bfs_fuel-IsSound n [] walk result h e =
      let same : walk ≡ result = ground (arith, e) in
      subst (λ (w : Walk). HasNodes w.visited w.collected_nodes × HasEdges w.collected_edges) same
        (h.0, h.1.0)
  bfs_fuel-IsSound zero (entry ∷ queue) walk result h e = absurd (ground (arith, e))
  bfs_fuel-IsSound (suc n) (entry ∷ queue) walk result h e =
      let rest : Walk = record walk { queue = queue } in
      let next = expand graph depth max_nodes entry rest in
      bfs_fuel-IsSound n next.queue next result
        (expand-IsSound entry rest h.1.1.0 (h.0, (h.1.0, h.1.1.1))) e

  seed_one-IsSound :
      (rid : String) (walk : Walk)
      → contains focus rid ≡ true
      → IsSound walk
      → IsSound (
          if not (contains walk.visited rid) && ltb (length walk.visited) max_nodes
          then enqueue rid 0 (find_info rid graph.nodes) walk
          else walk)
  seed_one-IsSound rid walk m h =
      elim (Bool-cases (not (contains walk.visited rid) && ltb (length walk.visited) max_nodes)) [
        | inl e ↦ rw e (
            enqueue-IsSound rid 0 walk (omega arith, Reaches.start rid m) (ground (arith, e))
              (ground (arith, e)) h)
        | inr e ↦ rw e h
      ]

  seed-IsSound :
      (rids : List String) (walk : Walk)
      → All (λ rid. contains focus rid ≡ true) rids
      → IsSound walk
      → IsSound (seed graph max_nodes rids walk)
  unfolding seed
  seed-IsSound [] walk m h = h
  seed-IsSound (rid ∷ rids) walk m h = seed-IsSound rids _ m.1 (seed_one-IsSound rid walk m.0 h)

  -- At most as many nodes are collected as the limit says, none of them twice, and each is at most so many edges
  -- away from a focus as the depth says; the edges that are collected are edges of the graph, none of them twice.
  pub bfs_subgraph-IsNear :
      (length (bfs_subgraph graph focus depth max_nodes).collected_nodes ≤ max_nodes)
      × (IsDuplicateFree (names (bfs_subgraph graph focus depth max_nodes).collected_nodes)
          × (All
                (λ (row : NodeInfo). IsNear row.ref_id)
                (bfs_subgraph graph focus depth max_nodes).collected_nodes
              × HasEdges (bfs_subgraph graph focus depth max_nodes).collected_edges))
  bfs_subgraph-IsNear =
      let start = seed graph max_nodes focus nothing in
      let kept =
        bfs_fuel-IsSound max_nodes start.queue start (bfs_subgraph graph focus depth max_nodes)
          (seed-IsSound focus nothing (All-contains focus focus (λ x h. h))
            ((omega arith, omega arith, λ x k. k, tt, tt), ((tt, tt), tt)))
          (bfs_subgraph_total graph focus depth max_nodes) in
      (omega (arith, kept.0.0, kept.0.1), (kept.0.3, (kept.0.4, kept.1)))
