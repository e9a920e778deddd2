-- ===== src/Graph/Federation.antt =====
-- src/beadloom/graph/federation: exports composed into one graph (reconcile.py), and the gate on its verdicts
-- (gate.py). The proofs are in the modules below.
pub mod Gate
pub mod Verdicts
pub mod Undeclared
pub mod Aggregate
mod Tests
use Prim.Native.Nat.{Ordering}
use Prim.Native.String.{compare, ◌++◌ as str_append}
use beadloom.Base.{
  ℕ, String, Bool, true, false, not, ◌&&◌, ◌||◌, Option, none, some, List, [], ◌∷◌, ◌++◌, map,
  if◌then◌else◌, ◌==◌, string_equality, option_equality, pair_equality, contains, any_of, is_blank,
  strip, lookup, insert, sort_unique, sort_by,
}
use beadloom.Json.{Value, Items, Fields, nil, cons, str, get, py_str, str_or}
use beadloom.Graph.Refs.{namespace, resolve_endpoint, is_foreign_ref}
use beadloom.Graph.Edge.{
  Edge, EdgeVerdict, ok, drift, expected, cleanup_candidate, undeclared, dead, external, unmapped,
}
use beadloom.Graph.Contracts.{Contract, Group, edge_group_key, cross_landscape_keys}
use beadloom.Graph.Contracts.Reconcile.{reconcile_contracts}

-- A node of the union; `fields` are those of the export, behind the two that the hub sets.
pub record Node : Type 0 where
  pub ref_id : String
  pub repo : String
  pub fields : Fields

-- `_verdict_for`
unfoldable pub verdict_for : String → Bool → EdgeVerdict
verdict_for lifecycle target_present =
    if lifecycle == "planned"
    then expected
    else if lifecycle == "dead"
    then dead
    else if lifecycle == "deprecated"
    then (if target_present then cleanup_candidate else expected)
    else if target_present
    then ok
    else drift

-- `_is_external`
unfoldable pub is_external : Option Node → Bool
is_external none = false
is_external (some target) = str_or "" (get "lifecycle" target.fields) == "external"

-- `_is_undescribed`
unfoldable pub is_undescribed : Option Node → Bool
is_undescribed none = false
is_undescribed (some target) = is_blank (strip (str_or "" (get "summary" target.fields)))

-- `_edge_verdict`
unfoldable pub edge_verdict : String → Bool → Option Node → EdgeVerdict
unfolding verdict_for
edge_verdict lifecycle target_present target =
    if lifecycle == "external" || is_external target
    then external
    else if target_present && (lifecycle == "active" && is_undescribed target)
    then unmapped
    else verdict_for lifecycle target_present

-- `{str(node["ref_id"]): node for node in fed.nodes}`: of two nodes of one name the last is kept.
unfoldable pub index_nodes : List (String × Node) → List Node → List (String × Node)
unfolding insert
index_nodes by_id [] = by_id
index_nodes by_id (node ∷ nodes) = index_nodes (insert node.ref_id node by_id) nodes

abbrev pub ids : List Node → List String
ids [] = []
ids (node ∷ nodes) = node.ref_id ∷ ids nodes

-- the verdict that the loop of `_assign_verdicts` gives an edge
unfoldable pub verdict_of : List Node → Edge → EdgeVerdict
unfolding edge_verdict index_nodes
verdict_of nodes edge =
    edge_verdict (py_str edge.lifecycle) (contains (ids nodes) edge.dst)
      (lookup edge.dst (index_nodes [] nodes))

abbrev pub is_open : EdgeVerdict → Bool
is_open drift = true
is_open expected = true
is_open _ = false

-- what the loop of `_assign_verdicts` adds to `unresolved_refs`
unfoldable pub unresolved_of : List Node → Edge → List String
unfolding verdict_of is_foreign_ref
unresolved_of nodes edge =
    if not (contains (ids nodes) edge.dst)
      && (is_foreign_ref edge.dst && is_open (verdict_of nodes edge))
    then edge.dst ∷ []
    else []

unfoldable pub unresolved_refs : List Node → List Edge → List String
unfolding unresolved_of
unresolved_refs nodes [] = []
unresolved_refs nodes (edge ∷ edges) = unresolved_of nodes edge ++ unresolved_refs nodes edges

abbrev pub judged : List Node → Edge → Edge
judged nodes edge = record edge { verdict = some (verdict_of nodes edge) }

-- `_assign_verdicts`, on the edges
unfoldable pub assign_verdicts : List Node → List Edge → List Edge
unfolding verdict_of
assign_verdicts nodes edges = map (judged nodes) edges

abbrev contract_has : String → String → Option Fields → Bool
contract_has key value none = false
contract_has key value (some payload) = elim (get key payload) [
  | none ↦ false
  | some v ↦ elim v [ Value.str s ↦ s == value | _ ↦ false ]
]

-- `contract.get(key) == value` for a text `value`
unfoldable pub contract_says : String → String → Edge → Bool
contract_says key value edge = contract_has key value edge.contract

-- The first loop of `_mark_undeclared`: does an edge of the list consume the group?
unfoldable pub is_consumed : List String → List Edge → Group → Bool
unfolding contract_says
is_consumed cross_keys edges group =
    any_of
      (λ edge.
        edge_group_key cross_keys edge == some group && contract_says "direction" "consumes" edge)
      edges

abbrev pub is_amqp_producer : Edge → Bool
is_amqp_producer edge =
    contract_says "protocol" "amqp" edge && contract_says "direction" "produces" edge

-- The second loop of `_mark_undeclared`, on one edge and its group.
unfoldable pub mark_edge : List String → List Edge → Edge → Option Group → Edge
mark_edge cross_keys edges edge none = edge
mark_edge cross_keys edges edge (some group) =
    if is_amqp_producer edge && not (is_consumed cross_keys edges group)
    then record edge { verdict = some undeclared }
    else edge

unfoldable pub mark_one : List Edge → Edge → Edge
unfolding mark_edge
mark_one edges edge =
    let cross_keys = cross_landscape_keys edges in
    mark_edge cross_keys edges edge (edge_group_key cross_keys edge)

-- `_mark_undeclared`
unfoldable pub mark_undeclared : List Edge → List Edge
unfolding mark_one
mark_undeclared edges = map (mark_one edges) edges
