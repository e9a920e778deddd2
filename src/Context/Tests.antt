-- ===== src/Context/Tests.antt =====
-- The context of a node in a small graph, and the theorems at it.
use beadloom.Base.{
  ℕ, ◌≤◌, ◌<◌, String, Bool, true, arith, contains, List, [], ◌∷◌, Option, some, ◌≡◌, refl, length,
  All, IsDuplicateFree, string_equality, pair_equality, map,
}
use beadloom.Context.Distance.{codes, levenshtein}
use beadloom.Context.Distance.Alignment.{IsDistance, levenshtein-IsDistance}
use beadloom.Context.Suggest.{suggest_ref_id}
use beadloom.Context.Suggest.Bounds.{IsApt, suggest_ref_id-IsApt}
use beadloom.Context.Subgraph.{find_info, NodeInfo, Graph, nothing, seed, bfs_fuel, bfs_subgraph}
use beadloom.Context.Subgraph.Terminates.{bfs_subgraph_total}
use beadloom.Context.Subgraph.Complete.Queue.{IsFound, Leads}
use beadloom.Context.Subgraph.Complete.{bfs_subgraph-Leads}
use beadloom.Context.Subgraph.Sound.{names, IsNear, HasEdges, bfs_subgraph-IsNear}

abbrev info : String → NodeInfo
info ref_id = record { ref_id = ref_id; kind = "service"; summary = "" }

abbrev shop : Graph
shop = record {
  nodes = map info ("web" ∷ "cart" ∷ "pay" ∷ "mail" ∷ []);
  edges =
      ("web", ("cart", "uses")) ∷ ("cart", ("pay", "depends_on")) ∷ ("pay", ("mail", "uses")) ∷ [];
}

distance_runs : levenshtein "kitten" "sitting" ≡ 3
unfolding levenshtein
distance_runs = refl

suggest_runs : suggest_ref_id ("cart" ∷ "card" ∷ "payment" ∷ []) "carts" ≡ "cart" ∷ "card" ∷ []
unfolding suggest_ref_id beadloom.Base.starts_with beadloom.Base.lower
suggest_runs = refl

subgraph_runs :
    names (bfs_subgraph shop ("web" ∷ []) 2 20).collected_nodes ≡ "web" ∷ "cart" ∷ "pay" ∷ []
unfolding bfs_subgraph
subgraph_runs = refl

limit_runs : names (bfs_subgraph shop ("cart" ∷ []) 2 2).collected_nodes ≡ "cart" ∷ "web" ∷ []
unfolding bfs_subgraph
limit_runs = refl

levenshtein-IsDistance_example :
    IsDistance (levenshtein "kitten" "sitting") (codes "kitten") (codes "sitting")
levenshtein-IsDistance_example = levenshtein-IsDistance "kitten" "sitting"

abbrev ids : List String
ids = "cart" ∷ "card" ∷ "payment" ∷ []

suggest_ref_id-IsApt_example :
    (length (suggest_ref_id ids "carts") ≤ 5)
    × (IsDuplicateFree (suggest_ref_id ids "carts")
        × All (IsApt ids "carts") (suggest_ref_id ids "carts"))
suggest_ref_id-IsApt_example = suggest_ref_id-IsApt ids "carts"

bfs_subgraph_total_example :
    bfs_fuel 20 shop 2 20
      (seed shop 20 ("web" ∷ []) nothing).queue
      (seed shop 20 ("web" ∷ []) nothing)
    ≡ some (bfs_subgraph shop ("web" ∷ []) 2 20)
bfs_subgraph_total_example = bfs_subgraph_total shop ("web" ∷ []) 2 20

bfs_subgraph-IsNear_example :
    (length (bfs_subgraph shop ("web" ∷ []) 2 20).collected_nodes ≤ 20)
    × (IsDuplicateFree (names (bfs_subgraph shop ("web" ∷ []) 2 20).collected_nodes)
        × (All
              (λ (row : NodeInfo). IsNear shop ("web" ∷ []) 2 20 row.ref_id)
              (bfs_subgraph shop ("web" ∷ []) 2 20).collected_nodes
            × HasEdges shop
                ("web" ∷ [])
                2
                20
                (bfs_subgraph shop ("web" ∷ []) 2 20).collected_edges))
bfs_subgraph-IsNear_example = bfs_subgraph-IsNear shop ("web" ∷ []) 2 20

cart_IsFound : IsFound shop "cart"
unfolding find_info
cart_IsFound = (info "cart", refl)

pay_Leads : Leads shop ("web" ∷ []) 2 "pay"
unfolding find_info
pay_Leads =
    Leads.step "pay"
      (Leads.step "cart" (Leads.start "web" refl (info "web", refl)) ("uses", refl) cart_IsFound)
      ("depends_on", refl) (info "pay", refl)

visited_runs : length (bfs_subgraph shop ("web" ∷ []) 2 20).visited ≡ 3
unfolding bfs_subgraph
visited_runs = refl

bfs_subgraph-Leads_example :
    contains (names (bfs_subgraph shop ("web" ∷ []) 2 20).collected_nodes) "pay" ≡ true
bfs_subgraph-Leads_example =
    bfs_subgraph-Leads shop ("web" ∷ []) 2 20 2 "pay" (omega (arith, visited_runs)) pay_Leads
      (omega arith)
