-- ===== src/Context/Subgraph/Complete.antt =====
-- The walk misses nothing: if the limit on the nodes is not reached, every node within the depth is collected.
pub mod Queue
pub mod Growth
pub mod Visits
pub mod Rounds
pub mod Seeds
use native.Mathlib.Omega.{arith}
use beadloom.Base.{
  ℕ, zero, suc, ◌+◌, ◌-◌, ◌≤◌, ◌<◌, String, Bool, true, false, not, ◌&&◌, ◌||◌, Option, none, some,
  List, [], ◌∷◌, ◌++◌, map, if◌then◌else◌, ◌==◌, string_equality, pair_equality, nat_equality, ltb,
  leb, length, length-append, contains, contains-append, contains_self, All-contains,
  All-append_iff, keep_if, ◌≡◌, refl, sym, ap, subst, ◌∙◌, ◌⊎◌, inl, inr, Bool-cases, Option-cases,
  All, Equality, All-map, All-sort_by_iff, eq_iff, beq_refl, beq→eq, sort_by,
}
use beadloom.Context.Subgraph.{
  NodeInfo, EdgeInfo, Graph, find_info, Walk, nothing, enqueue, seed, outgoing, incoming, sooner,
  neighbors, record_edge, visit_one, visit, expand, bfs_fuel, given, bfs_subgraph,
}
use beadloom.Context.Subgraph.Terminates.{visited-record_edge, bfs_subgraph_total}
use beadloom.Context.Subgraph.Sound.{IsAdjacent, names, names-append, ref_id-find_info}
use beadloom.Context.Subgraph.Complete.Queue.{All-member, Leads, IsAt}
use beadloom.Context.Subgraph.Complete.Visits.{IsDone}
use beadloom.Context.Subgraph.Complete.Rounds.{IsReady, bfs_fuel-IsGrown, bfs_fuel-IsReady}
use beadloom.Context.Subgraph.Complete.Seeds.{seed-IsSeeded, IsSeeded-IsReady}
use beadloom.Context.Subgraph.Complete.Growth.{seed-IsGrown}

module _ (graph : Graph) (focus : List String) (depth : ℕ) where
  -- At the end every node on a way from a focus is recorded, no deeper than the way is long.
  Leads-IsAt :
      (history : List (String × ℕ)) (walk : Walk) (d : ℕ) (rid : String)
      → IsReady graph focus depth history [] walk
      → Leads graph focus d rid
      → d ≤ depth
      → (r : ℕ) × ((r ≤ d) × IsAt history rid r)
  Leads-IsAt history walk _ rid ready (Leads.start _ m found) l =
      (0, (omega arith, ready.5 rid m found))
  Leads-IsAt history walk _ rid ready (Leads.step {d} {a} _ way adjacent found) l =
      let (r, (low, at)) = Leads-IsAt history walk d a ready way (omega (arith, l)) in
      elim (All-member (IsDone graph focus depth history []) history (a, r) ready.4 at) [
        | inl m ↦ absurd (ground (arith, m))
        | inr (inl deep) ↦ absurd (omega (arith, deep, low, l))
        | inr (inr closed) ↦
            let (k, (near, there)) = closed rid adjacent found in
            (k, (omega (arith, near, low), there))
      ]

-- If fewer names are visited than the limit allows, every node to which a way over nodes leads from a focus that is
-- not longer than the depth is collected.
pub bfs_subgraph-Leads :
    (graph : Graph) (focus : List String) (depth max_nodes d : ℕ) (rid : String)
    → length (bfs_subgraph graph focus depth max_nodes).visited < max_nodes
    → Leads graph focus d rid
    → d ≤ depth
    → contains (names (bfs_subgraph graph focus depth max_nodes).collected_nodes) rid ≡ true
bfs_subgraph-Leads graph focus depth max_nodes d rid room way l =
    let start = seed graph max_nodes focus nothing in
    let over = bfs_subgraph_total graph focus depth max_nodes in
    let result = bfs_subgraph graph focus depth max_nodes in
    let seeds = seed-IsGrown graph max_nodes focus nothing in
    let grown =
      bfs_fuel-IsGrown graph focus depth max_nodes max_nodes start.queue start result over in
    let (history, seeded) =
      seed-IsSeeded graph focus depth max_nodes [] focus nothing
        ((λ x m _. absurd (ground (arith, m)), tt), tt, tt, tt, tt) in
    let (more, ready) =
      bfs_fuel-IsReady graph focus depth max_nodes max_nodes history start.queue start result over
        room
        (IsSeeded-IsReady graph focus depth history start seeded
          (seeds.1 (omega (arith, grown, room)))) in
    let (r, (_, at)) = Leads-IsAt graph focus depth more result d rid ready way l in
    All-member (λ (h : String × ℕ). contains (names result.collected_nodes) h.0 ≡ true) more
      (rid, r) ready.0.1 at
