-- ===== src/Graph/Contracts/Tests.antt =====
-- Contracts of two repositories, and the theorems at them.
use beadloom.Base.{String, Option, none, some, List, [], ◌∷◌, ◌++◌, ◌≡◌, refl}
use beadloom.Json.{Fields, end, field, str}
use beadloom.Graph.Edge.{Edge}
use beadloom.Graph.Contracts.{
  Contract, ContractEndpoint, new_contract, Group, cross_landscape_keys, classify, confirmed,
}
use beadloom.Graph.Contracts.Classify.{Verdicts, classify-Verdicts}
use beadloom.Graph.Contracts.Reconcile.{reconcile_edges, reconcile_contracts}
use beadloom.Graph.Contracts.Reconcile.Endpoints.{
  endpoints_at, declared, endpoints_at-reconcile_edges, total, contract_edges,
  total-reconcile_edges,
}

abbrev amqp : String → Fields
amqp direction =
    field "protocol" (str "amqp")
      (field "message_type" (str "OrderPlaced") (field "direction" (str direction) end))

abbrev contract_edge : String → String → Edge
contract_edge repo direction = record {
  src = repo;
  dst = "@broker:orders";
  kind = none;
  lifecycle = str "active";
  repo = repo;
  landscape = none;
  contract = some (amqp direction);
  verdict = none;
}

abbrev both_sides : List Edge
both_sides = contract_edge "orders" "produces" ∷ contract_edge "billing" "consumes" ∷ []

abbrev group : Group
group = (none, "amqp:*/*:OrderPlaced")

reconcile_runs :
    endpoints_at group (reconcile_edges [] [] both_sides)
    ≡ record { repo = "orders"; ref_id = "orders"; direction = "produces" }
      ∷ record { repo = "billing"; ref_id = "billing"; direction = "consumes" }
      ∷ []
unfolding reconcile_edges beadloom.Graph.Contracts.reconciled_payload beadloom.Json.str_or
    beadloom.Json.get beadloom.Base.insert beadloom.Graph.Contracts.contract_key
    beadloom.Graph.Contracts.Reconcile.add_edge
    beadloom.Graph.Contracts.Reconcile.accumulate_surface
    beadloom.Graph.Contracts.Reconcile.typed_fields
reconcile_runs = refl

abbrev half : Contract
half = record (new_contract "amqp:*/*:OrderPlaced" "amqp" "OrderPlaced") {
  endpoints = record { repo = "billing"; ref_id = "billing"; direction = "consumes" } ∷ [];
}

classify-Verdicts_example : Verdicts half
classify-Verdicts_example = classify-Verdicts half

endpoints_at-reconcile_edges_example :
    endpoints_at group (reconcile_edges [] [] both_sides)
    ≡ endpoints_at group [] ++ declared [] group both_sides
endpoints_at-reconcile_edges_example = endpoints_at-reconcile_edges [] [] both_sides group

total-reconcile_edges_example :
    total (reconcile_edges (cross_landscape_keys both_sides) [] both_sides)
    ≡ contract_edges both_sides
total-reconcile_edges_example = total-reconcile_edges both_sides
