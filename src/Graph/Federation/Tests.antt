-- ===== src/Graph/Federation/Tests.antt =====
-- A union of two repositories, and the theorems at it.
use mathlib.Core.List.{Perm}
use beadloom.Base.{
  String, false, not, ◌&&◌, ◌||◌, none, some, List, [], ◌∷◌, ◌≡◌, ◌⊎◌, ◌↔◌, refl, contains, any_of,
  lower, string_equality,
}
use beadloom.Json.{Fields, end, field, str, obj, arr, nil, cons}
use beadloom.Graph.Refs.{is_foreign_ref}
use beadloom.Graph.Edge.{Edge, drift}
use beadloom.Graph.Contracts.{Group, Contract, new_contract}
use beadloom.Graph.Federation.{Node, ids, verdict_of, unresolved_refs, mark_one}
use beadloom.Graph.Federation.Verdicts.{
  Verdicts, is_dangling, verdict_of-Verdicts, unresolved_refs_iff,
}
use beadloom.Graph.Federation.Undeclared.{IsAbandoned, marked, mark_one_outcome}
use beadloom.Graph.Federation.Gate.{
  GateFailure, gate_failures, gate_failure_remediation, safe_default_fail_on,
}
use beadloom.Graph.Federation.Gate.Failures.{
  reports, asks_for, edge_judged, contract_judged, gate_failures_iff, default_gate-spares,
  remediation-eq-none_iff,
}
use beadloom.Base.{IsSorted, is_blank}
use beadloom.Graph.Federation.Aggregate.{aggregate_exports, union_nodes, union_edges}
use beadloom.Graph.Federation.Aggregate.Settled.{Settles, listed_edges}
use beadloom.Graph.Federation.Aggregate.Union.{
  aggregate_exports-edges, aggregate_exports-unresolved,
}

abbrev amqp : String → Fields
amqp direction =
    field "protocol" (str "amqp")
      (field "message_type" (str "OrderPlaced") (field "direction" (str direction) end))

abbrev contract_edge : String → String → Edge
contract_edge repo direction = record {
  src = repo;
  dst = "@broker:orders";
  kind = none;
  lifecycle = str "active";
  repo = repo;
  landscape = none;
  contract = some (amqp direction);
  verdict = some drift;
}

abbrev broker : Node
broker = record {
  ref_id = "@broker:orders";
  repo = "broker";
  fields = field "summary" (str "queue") end;
}

abbrev edges : List Edge
edges = contract_edge "@orders:api" "produces" ∷ []

verdict_runs : verdict_of [] (contract_edge "@orders:api" "produces") ≡ drift
unfolding verdict_of beadloom.Json.py_str beadloom.Graph.Federation.is_external
verdict_runs = refl

verdict_of-Verdicts_example :
    Verdicts
      (broker ∷ [])
      (contract_edge "@orders:api" "produces")
      (verdict_of (broker ∷ []) (contract_edge "@orders:api" "produces"))
verdict_of-Verdicts_example =
    verdict_of-Verdicts (broker ∷ []) (contract_edge "@orders:api" "produces")

unresolved_refs_iff_example : contains (unresolved_refs [] edges) "@broker:orders" ≡ (
    is_foreign_ref "@broker:orders"
    && not (contains (ids []) "@broker:orders")
    && any_of (is_dangling [] "@broker:orders") edges)
unresolved_refs_iff_example = unresolved_refs_iff [] edges "@broker:orders"

mark_one_outcome_example :
    ((group : Group) × IsAbandoned edges (contract_edge "@orders:api" "produces") group
      × (mark_one edges (contract_edge "@orders:api" "produces")
          ≡ marked (contract_edge "@orders:api" "produces")))
    ⊎ (((group : Group) → ¬ IsAbandoned edges (contract_edge "@orders:api" "produces") group)
        × (mark_one edges (contract_edge "@orders:api" "produces")
            ≡ contract_edge "@orders:api" "produces"))
mark_one_outcome_example = mark_one_outcome edges (contract_edge "@orders:api" "produces")

abbrev half : Contract
half = new_contract "amqp:*/*:OrderPlaced" "amqp" "OrderPlaced"

gate_failures_iff_example : reports "drift" (gate_failures edges (half ∷ []) (" Drift " ∷ [])) ≡ (
    (not (is_blank "drift") && any_of (asks_for "drift") (" Drift " ∷ []))
    && (any_of (edge_judged "drift") edges || any_of (contract_judged "drift") (half ∷ [])))
gate_failures_iff_example = gate_failures_iff edges (half ∷ []) (" Drift " ∷ []) "drift"

default_gate-spares_example :
    reports "expected" (gate_failures edges (half ∷ []) safe_default_fail_on) ≡ false
default_gate-spares_example = default_gate-spares edges (half ∷ []) "expected" refl

abbrev drifted : GateFailure
drifted = record {
  kind = "edge";
  identity = "@orders:api --> @broker:orders";
  verdict = "drift";
  missing = [];
}

remediation-eq-none_iff_example :
    (gate_failure_remediation drifted ≡ none)
    ↔ (contains safe_default_fail_on (lower "drift") ≡ false)
remediation-eq-none_iff_example = remediation-eq-none_iff drifted

abbrev orders_export : Fields
orders_export = field "repo" (str "orders") (
    field "nodes" (arr (cons (obj (field "ref_id" (str "api") end)) nil)) (
      field "edges"
        (arr (cons (obj (field "src" (str "api") (field "dst" (str "@broker:orders") end))) nil))
        end))

aggregate_runs : (aggregate_exports (orders_export ∷ [])).unresolved ≡ "@broker:orders" ∷ []
unfolding aggregate_exports beadloom.Base.sort_unique unresolved_refs beadloom.Json.get
    beadloom.Graph.Refs.namespace beadloom.Json.str_or beadloom.Graph.Refs.resolve_endpoint
    beadloom.Graph.Refs.parse_ref beadloom.Base.partition beadloom.Base.drop_first
    beadloom.Base.is_blank beadloom.Graph.Federation.is_external
aggregate_runs = refl

aggregate_exports-edges_example :
    (edges : List Edge) × Perm (aggregate_exports (orders_export ∷ [])).edges edges
    × Settles
        (union_nodes (orders_export ∷ []))
        (union_edges (orders_export ∷ []))
        (listed_edges (orders_export ∷ []))
        edges
aggregate_exports-edges_example = aggregate_exports-edges (orders_export ∷ [])

aggregate_exports-unresolved_example :
    IsSorted (aggregate_exports (orders_export ∷ [])).unresolved
    × ((ref : String)
        → contains (aggregate_exports (orders_export ∷ [])).unresolved ref ≡ (
            is_foreign_ref ref
            && not (contains (ids (union_nodes (orders_export ∷ []))) ref)
            && any_of
                (is_dangling (union_nodes (orders_export ∷ [])) ref)
                (union_edges (orders_export ∷ []))))
aggregate_exports-unresolved_example = aggregate_exports-unresolved (orders_export ∷ [])
