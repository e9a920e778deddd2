-- ===== src/Graph/Rules/Cycles/Tests.antt =====
-- The search in a graph of three services, and the theorems at it.
use beadloom.Base.{
  ◌-◌, String, true, some, List, [], ◌∷◌, ◌≡◌, refl, contains, All, arith, string_equality,
  list_equality, pair_equality,
}
use beadloom.Graph.Rules.Cycles.{
  Adjacency, Found, neighbors, build_adjacency, normalize_cycle, walk_fuel, degree, cost,
  start_frame, walk_cycles, search_rule,
}
use beadloom.Graph.Rules.Types.{CycleRule}
use beadloom.Graph.Rules.Cycles.Terminates.{walk_cycles_total}
use beadloom.Graph.Rules.Cycles.Sound.{IsCycle, search_rule-IsCycle}
use beadloom.Graph.Rules.Cycles.Complete.{search_rule-Records}
use beadloom.Graph.Rules.Cycles.Reports.{
  IsReported, search_rule-IsReported, contains-build_adjacency,
}

abbrev rows : List (String × String)
rows = ("cart", "stock") ∷ ("stock", "bill") ∷ ("bill", "cart") ∷ ("bill", "mail") ∷ []

abbrev adj : Adjacency
adj = ("cart", "stock" ∷ []) ∷ ("stock", "bill" ∷ []) ∷ ("bill", "cart" ∷ "mail" ∷ []) ∷ []

abbrev rule : CycleRule
rule = record {
  name = "no-cycles";
  description = "Services do not depend on themselves.";
  edge_kinds = "depends_on" ∷ [];
  max_depth = 10;
  severity = "error";
}

abbrev nothing : Found
nothing = record { seen_cycles = []; violations = [] }

build_runs : build_adjacency rows ≡ adj
unfolding build_adjacency
build_runs = refl

search_runs : (search_rule adj rule []).seen_cycles ≡ ("bill" ∷ "cart" ∷ "stock" ∷ []) ∷ []
unfolding search_rule neighbors
search_runs = refl

walk_cycles_total_example :
    walk_fuel (cost (degree adj) (rule.max_depth - 1)) rule adj (start_frame "cart" ∷ []) nothing
    ≡ some (walk_cycles "cart" adj rule nothing)
walk_cycles_total_example = walk_cycles_total "cart" adj rule nothing

search_rule-IsCycle_example : All (IsCycle adj) (search_rule adj rule []).seen_cycles
search_rule-IsCycle_example = search_rule-IsCycle adj rule []

search_rule-Records_example :
    contains
      (search_rule adj rule []).seen_cycles
      (normalize_cycle ("cart" ∷ "stock" ∷ "bill" ∷ []))
    ≡ true
unfolding neighbors
search_rule-Records_example =
    search_rule-Records adj rule [] ("cart" ∷ "stock" ∷ "bill" ∷ []) (refl, (refl, refl))
      (refl, (refl, (refl, tt))) (omega arith)

search_rule-IsReported_example : IsReported 0 (search_rule adj rule [])
search_rule-IsReported_example = search_rule-IsReported adj rule []

contains-build_adjacency_example :
    contains (neighbors (build_adjacency rows) "bill") "mail" ≡ contains rows ("bill", "mail")
contains-build_adjacency_example = contains-build_adjacency rows "bill" "mail"
