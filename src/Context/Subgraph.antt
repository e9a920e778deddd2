-- ===== src/Context/Subgraph.antt =====
-- `bfs_subgraph` of src/beadloom/context_oracle/builder.py, and the parts of `build_context` that follow it. The
-- proofs are in the modules below.
pub mod Terminates
pub mod Sound
pub mod Complete
use beadloom.Base.{
  ℕ, zero, suc, ◌+◌, ◌-◌, String, Bool, true, false, not, ◌&&◌, Option, none, some, List, [], ◌∷◌,
  ◌++◌, if◌then◌else◌, ◌==◌, string_equality, pair_equality, ltb, leb, length, contains, keep_if,
  lookup, map, sort_by,
}

-- A row of `nodes`.
pub record NodeInfo : Type 0 where
  pub ref_id : String
  pub kind : String
  pub summary : String

-- A row of `edges`: its source, its target and its kind.
abbrev pub EdgeInfo : Type 0
EdgeInfo = String × (String × String)

pub record Graph : Type 0 where
  pub nodes : List NodeInfo
  pub edges : List EdgeInfo

-- `SELECT ref_id, kind, summary FROM nodes WHERE ref_id = ?`
unfoldable pub find_info : String → List NodeInfo → Option NodeInfo
find_info rid [] = none
find_info rid (row ∷ rows) = if row.ref_id == rid then some row else find_info rid rows

-- `_EDGE_PRIORITY`
abbrev pub edge_priority : List (String × ℕ)
edge_priority =
    ("part_of", 1)
    ∷ ("touches_entity", 2)
    ∷ ("uses", 3)
    ∷ ("implements", 3)
    ∷ ("depends_on", 4)
    ∷ ("touches_code", 5)
    ∷ []

abbrev pub or_default : Option ℕ → ℕ
or_default none = 99
or_default (some n) = n

-- `_EDGE_PRIORITY.get(kind, 99)`
unfoldable pub priority : String → ℕ
priority kind = or_default (lookup kind edge_priority)

-- The locals of `bfs_subgraph`.
pub record Walk : Type 0 where
  pub visited : List String
  pub collected_nodes : List NodeInfo
  pub collected_edges : List EdgeInfo
  pub queue : List (String × ℕ)

abbrev pub nothing : Walk
nothing = record { visited = []; collected_nodes = []; collected_edges = []; queue = [] }

-- A name is visited; if it is a node, it is collected and stands in the queue.
unfoldable pub enqueue : String → ℕ → Option NodeInfo → Walk → Walk
enqueue rid depth none walk = record walk { visited = rid ∷ walk.visited }
enqueue rid depth (some row) walk = record walk {
  visited = rid ∷ walk.visited;
  collected_nodes = walk.collected_nodes ++ row ∷ [];
  queue = walk.queue ++ (rid, depth) ∷ [];
}

-- the loop over the focus nodes
unfoldable pub seed : Graph → ℕ → List String → Walk → Walk
unfolding find_info enqueue
seed graph max_nodes [] walk = walk
seed graph max_nodes (rid ∷ rids) walk = seed graph max_nodes rids (
    if not (contains walk.visited rid) && ltb (length walk.visited) max_nodes
    then enqueue rid 0 (find_info rid graph.nodes) walk
    else walk)

-- `neighbors`: each with the edge that leads to it
unfoldable pub outgoing : String → List EdgeInfo → List (String × EdgeInfo)
outgoing rid edges =
    map (λ (e : EdgeInfo). (e.1.0, e)) (keep_if (λ (e : EdgeInfo). e.0 == rid) edges)

unfoldable pub incoming : String → List EdgeInfo → List (String × EdgeInfo)
incoming rid edges =
    map (λ (e : EdgeInfo). (e.0, e)) (keep_if (λ (e : EdgeInfo). e.1.0 == rid) edges)

abbrev pub sooner : String × EdgeInfo → String × EdgeInfo → Bool
sooner a b = ltb (priority a.1.1.1) (priority b.1.1.1)

unfoldable pub neighbors : Graph → String → List (String × EdgeInfo)
unfolding outgoing incoming sort_by priority
neighbors graph rid = sort_by sooner (outgoing rid graph.edges ++ incoming rid graph.edges)

unfoldable pub record_edge : EdgeInfo → Walk → Walk
record_edge edge walk =
    if contains walk.collected_edges edge
    then walk
    else record walk { collected_edges = walk.collected_edges ++ edge ∷ [] }

-- the body of the loop over the neighbors, behind its `break`
unfoldable pub visit_one : Graph → ℕ → String × EdgeInfo → Walk → Walk
unfolding record_edge enqueue find_info
visit_one graph next_depth (rid, edge) walk =
    if contains walk.visited rid
    then record_edge edge walk
    else enqueue rid next_depth (find_info rid graph.nodes) (record_edge edge walk)

-- the loop over the neighbors
unfoldable pub visit : Graph → ℕ → ℕ → List (String × EdgeInfo) → Walk → Walk
unfolding visit_one record_edge
visit graph max_nodes next_depth [] walk = walk
visit graph max_nodes next_depth ((rid, edge) ∷ rest) walk =
    let on = visit graph max_nodes next_depth rest (visit_one graph next_depth (rid, edge) walk) in
    if not (contains walk.visited rid) && leb max_nodes (length walk.visited)
    then record_edge edge walk
    else on

-- the body of the outer loop, for an entry that has been taken from the queue
unfoldable pub expand : Graph → ℕ → ℕ → String × ℕ → Walk → Walk
unfolding visit neighbors
expand graph depth max_nodes (current_id, current_depth) walk =
    if leb depth current_depth
    then walk
    else visit graph max_nodes (current_depth + 1) (neighbors graph current_id) walk

-- the outer loop, on fuel
unfoldable pub bfs_fuel : ℕ → Graph → ℕ → ℕ → List (String × ℕ) → Walk → Option Walk
unfolding expand
bfs_fuel n graph depth max_nodes [] walk = some walk
bfs_fuel zero graph depth max_nodes (entry ∷ queue) walk = none
bfs_fuel (suc n) graph depth max_nodes (entry ∷ queue) walk =
    let next = expand graph depth max_nodes entry (record walk { queue = queue }) in
    bfs_fuel n graph depth max_nodes next.queue next

abbrev pub given : Walk → Option Walk → Walk
given walk none = walk
given walk (some result) = result

-- `bfs_subgraph`, with all its locals as the result
unfoldable pub bfs_subgraph : Graph → List String → ℕ → ℕ → Walk
unfolding seed bfs_fuel
bfs_subgraph graph focus_ref_ids depth max_nodes =
    let start = seed graph max_nodes focus_ref_ids nothing in
    given start (bfs_fuel max_nodes graph depth max_nodes start.queue start)
