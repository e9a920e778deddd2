-- ===== src/Graph/Rules/Cycles.antt =====
-- src/beadloom/graph/rules/cycles.py: circular dependencies. The proofs are in the modules below.
pub mod Traversal
pub mod Sound
pub mod Complete
pub mod Bounded
pub mod Terminates
pub mod Invariants
pub mod Reports
mod Tests
use Prim.Native.Nat.{Ordering}
use Prim.Native.String.{compare, ◌++◌ as str_append}
use beadloom.Base.{
  ℕ, zero, suc, ◌+◌, ◌*◌, ◌-◌, String, Bool, true, false, Option, none, some, List, [], ◌∷◌, ◌++◌,
  if◌then◌else◌, ◌==◌, string_equality, list_equality, contains, length, ltb, lookup, insert,
  sort_unique, join,
}
use beadloom.Graph.Rules.Types.{CycleRule, Violation}

-- `adj`: the targets of each source, in the order of the rows.
abbrev pub Adjacency : Type 0
Adjacency = List (String × List String)

abbrev pub targets : Option (List String) → List String
targets none = []
targets (some nodes) = nodes

-- `adj.get(node, [])`
unfoldable pub neighbors : Adjacency → String → List String
neighbors adj node = targets (lookup node adj)

-- the loop of `_build_adjacency`, over the rows of the query
unfoldable pub add_rows : Adjacency → List (String × String) → Adjacency
unfolding insert neighbors
add_rows adj [] = adj
add_rows adj ((src, dst) ∷ rows) = add_rows (insert src (neighbors adj src ++ dst ∷ []) adj) rows

unfoldable pub build_adjacency : List (String × String) → Adjacency
unfolding add_rows
build_adjacency rows = add_rows [] rows

-- `path[:path.index(node)]` and `path[path.index(node):]`
unfoldable pub before_first : String → List String → List String
before_first node [] = []
before_first node (x ∷ path) =
    let rest = before_first node path in if x == node then [] else x ∷ rest

unfoldable pub from_first : String → List String → List String
from_first node [] = []
from_first node (x ∷ path) = let rest = from_first node path in if x == node then x ∷ path else rest

abbrev pub smaller : String → String → String
smaller x y = elim (compare y x) [ Ordering.lt ↦ y | Ordering.eq ↦ x | Ordering.gt ↦ x ]

-- `min` of a list that begins with the item
unfoldable pub least : String → List String → String
least x [] = x
least x (y ∷ path) = least (smaller x y) path

-- `_normalize_cycle`
unfoldable pub normalize_cycle : List String → List String
unfolding before_first from_first least
normalize_cycle [] = []
normalize_cycle (x ∷ path) =
    from_first (least x path) (x ∷ path) ++ before_first (least x path) (x ∷ path)

-- `seen_cycles` and `violations`, which the search of a rule shares.
pub record Found : Type 0 where
  pub seen_cycles : List (List String)
  pub violations : List Violation

abbrev first : List String → Option String
first [] = none
first (x ∷ path) = some x

abbrev last : List String → Option String
last [] = none
last (x ∷ []) = some x
last (x ∷ y ∷ path) = last (y ∷ path)

unfoldable pub cycle_violation : CycleRule → List String → String → Violation
cycle_violation rule cycle closing = record {
  rule_name = rule.name;
  rule_description = rule.description;
  rule_type = "cycle";
  remediation = none;
  severity = rule.severity;
  file_path = none;
  line_number = none;
  from_ref_id = first cycle;
  to_ref_id = last cycle;
  message = str_append "Circular dependency detected: " (
      str_append (join " → " (cycle ++ closing ∷ []))
        (str_append " (rule '" (str_append rule.name "')")));
}

-- the end of `_record_cycle`
unfoldable pub record_path : CycleRule → List String → String → Found → Found
unfolding normalize_cycle cycle_violation
record_path rule cycle closing found =
    if contains found.seen_cycles (normalize_cycle cycle) then found else record found {
      seen_cycles = normalize_cycle cycle ∷ found.seen_cycles;
      violations = found.violations ++ cycle_violation rule cycle closing ∷ [];
    }

-- `_record_cycle`; the closing node stands on the path.
unfoldable pub record_cycle : CycleRule → List String → String → Found → Found
unfolding record_path
record_cycle rule path closing found = record_path rule (from_first closing path) closing found

-- An entry of the stack.
pub record Frame : Type 0 where
  pub node : String
  pub path : List String
  pub path_set : List String

-- The stack, its top first, and what is found.
pub record Search : Type 0 where
  pub stack : List Frame
  pub found : Found

abbrev pub extend : Frame → String → Frame
extend frame neighbor = record {
  node = neighbor;
  path = frame.path ++ neighbor ∷ [];
  path_set = neighbor ∷ frame.path_set;
}

-- the body of the inner loop of `_walk_cycles`
unfoldable pub visit_one : CycleRule → Frame → String → Search → Search
unfolding record_cycle
visit_one rule frame neighbor search =
    if contains frame.path_set neighbor
    then record search { found = record_cycle rule frame.path neighbor search.found }
    else if ltb (length frame.path) rule.max_depth
    then record search { stack = extend frame neighbor ∷ search.stack }
    else search

-- the inner loop of `_walk_cycles`
unfoldable pub visit : CycleRule → Frame → List String → Search → Search
unfolding visit_one
visit rule frame [] search = search
visit rule frame (neighbor ∷ rest) search =
    visit rule frame rest (visit_one rule frame neighbor search)

-- the outer loop of `_walk_cycles`, on fuel
unfoldable pub walk_fuel : ℕ → CycleRule → Adjacency → List Frame → Found → Option Found
unfolding visit
walk_fuel n rule adj [] found = some found
walk_fuel zero rule adj (frame ∷ stack) found = none
walk_fuel (suc n) rule adj (frame ∷ stack) found =
    let search =
      visit rule frame (neighbors adj frame.node) (record { stack = stack; found = found }) in
    walk_fuel n rule adj search.stack search.found

-- the number of targets of all nodes, which bounds those of each
unfoldable pub degree : Adjacency → ℕ
degree [] = 0
degree ((src, nodes) ∷ adj) = length nodes + degree adj

-- the steps that a frame can lead to, from the targets of a node and the length that its path can still gain
unfoldable pub cost : ℕ → ℕ → ℕ
cost d zero = 1
cost d (suc k) = 1 + d * cost d k

abbrev pub start_frame : String → Frame
start_frame node = record { node = node; path = node ∷ []; path_set = node ∷ [] }

abbrev pub given : Found → Option Found → Found
given found none = found
given found (some result) = result

-- `_walk_cycles`
unfoldable pub walk_cycles : String → Adjacency → CycleRule → Found → Found
unfolding walk_fuel degree cost
walk_cycles node adj rule found =
    given found
      (walk_fuel (cost (degree adj) (rule.max_depth - 1)) rule adj (start_frame node ∷ []) found)

-- the loop over the start nodes
unfoldable pub walk_all : List String → Adjacency → CycleRule → Found → Found
unfolding walk_cycles
walk_all [] adj rule found = found
walk_all (node ∷ nodes) adj rule found = walk_all nodes adj rule (walk_cycles node adj rule found)

-- `all_nodes`
unfoldable pub all_nodes : Adjacency → List String
all_nodes [] = []
all_nodes ((src, nodes) ∷ adj) = src ∷ nodes ++ all_nodes adj

-- what the body of the loop of `evaluate_cycle_rules` does with the violations so far
unfoldable pub search_rule : Adjacency → CycleRule → List Violation → Found
unfolding walk_all all_nodes sort_unique
search_rule adj rule violations =
    walk_all (sort_unique (all_nodes adj)) adj rule
      (record { seen_cycles = []; violations = violations })

-- the loop of `evaluate_cycle_rules`; `rows` are those of the query for the kinds of edges.
unfoldable pub evaluate_from :
    (List String → List (String × String)) → List CycleRule → List Violation → List Violation
unfolding search_rule build_adjacency
evaluate_from rows [] violations = violations
evaluate_from rows (rule ∷ rules) violations =
    evaluate_from rows rules
      (search_rule (build_adjacency (rows rule.edge_kinds)) rule violations).violations

-- `evaluate_cycle_rules`
unfoldable pub evaluate_cycle_rules :
    (List String → List (String × String)) → List CycleRule → List Violation
unfolding evaluate_from
evaluate_cycle_rules rows rules = evaluate_from rows rules []
