-- ===== src/Graph/Contracts/Reconcile/Endpoints.antt =====
-- The contract of a group holds an endpoint for each edge of the group, in the order of the edges.
use beadloom.Base.{
  ℕ, ◌+◌, String, Option, none, some, List, [], ◌∷◌, ◌++◌, ◌≡◌, refl, arith, ap, sym, ◌∙◌, inl, inr,
  if◌then◌else◌, ◌==◌, string_equality, option_equality, pair_equality, beq→eq, Bool-cases, lookup,
  insert, lookup-insert, length, length-append,
}
use mathlib.Core.List.{append_assoc, append-nil}
use beadloom.Json.{Value, Fields, field, end}
use beadloom.Graph.Edge.{Edge}
use beadloom.Graph.Contracts.{
  ContractEndpoint, Contract, Group, contract_key, reconciled_payload, group_key, payload_group,
  edge_group_key, cross_landscape_keys,
}
use beadloom.Graph.Contracts.Reconcile.{
  ByGroup, accumulate_body, accumulate_fields, accumulate_surface, endpoint_of, add_edge, opened,
  reconcile_payload, reconcile_edge, reconcile_edges,
}

endpoints-accumulate_body :
    (c : Contract) (payload : Fields) (o : Option Value)
    → (accumulate_body c payload o).endpoints ≡ c.endpoints
unfolding accumulate_body
endpoints-accumulate_body c payload none = refl
endpoints-accumulate_body c payload (some (Value.obj end)) = refl
endpoints-accumulate_body c payload (some (Value.obj (field k v r))) = ground arith
endpoints-accumulate_body c payload (some _) = refl

endpoints-accumulate_fields :
    (c : Contract) (payload : Fields) (typed : List (String × Fields))
    → (accumulate_fields c payload typed).endpoints ≡ c.endpoints
unfolding accumulate_fields
endpoints-accumulate_fields c payload typed = ground arith

endpoints-add_edge :
    (edge : Edge) (payload : Fields) (c : Contract)
    → (add_edge edge payload c).endpoints ≡ c.endpoints ++ endpoint_of edge payload ∷ []
unfolding add_edge accumulate_surface
endpoints-add_edge edge payload c =
    endpoints-accumulate_body _ payload _ ∙ endpoints-accumulate_fields _ payload _

-- The endpoints that the contract of the group holds so far.
abbrev pub endpoints_of : Option Contract → List ContractEndpoint
endpoints_of none = []
endpoints_of (some c) = c.endpoints

abbrev pub endpoints_at : Group → ByGroup → List ContractEndpoint
endpoints_at group by_group = endpoints_of (lookup group by_group)

abbrev pub endpoint_list : Edge → Option Fields → List ContractEndpoint
endpoint_list edge none = []
endpoint_list edge (some payload) = endpoint_of edge payload ∷ []

-- The endpoints of the edges of the group, in their order.
unfoldable pub declared : List String → Group → List Edge → List ContractEndpoint
declared cross_keys group [] = []
declared cross_keys group (edge ∷ edges) =
    let rest = declared cross_keys group edges in
    if edge_group_key cross_keys edge == some group
    then endpoint_list edge (reconciled_payload edge) ++ rest
    else rest

endpoints-opened :
    (edge : Edge) (payload : Fields) (o : Option Contract)
    → (opened edge payload o).endpoints ≡ endpoints_of o
endpoints-opened edge payload none = refl
endpoints-opened edge payload (some c) = refl

-- What one edge adds at a group.
abbrev added : List String → Group → Edge → Option Fields → List ContractEndpoint
added cross_keys group edge o =
    if payload_group cross_keys edge o == some group then endpoint_list edge o else []

endpoints_at-reconcile_payload :
    (cross_keys : List String) (by_group : ByGroup) (edge : Edge) (group : Group)
    (o : Option Fields)
    → endpoints_at group (reconcile_payload cross_keys by_group edge o)
      ≡ endpoints_at group by_group ++ added cross_keys group edge o
unfolding reconcile_payload payload_group
endpoints_at-reconcile_payload cross_keys by_group edge group none = sym (append-nil _)
endpoints_at-reconcile_payload cross_keys by_group edge group (some payload) =
    let key = group_key edge (contract_key payload) cross_keys in
    let contract = add_edge edge payload (opened edge payload (lookup key by_group)) in
    rw (lookup-insert key group contract by_group) (elim (Bool-cases (key == group)) [
      | inl same ↦ rw same (
          endpoints-add_edge edge payload (opened edge payload (lookup key by_group))
          ∙ ap (λ l. l ++ endpoint_of edge payload ∷ [])
              (endpoints-opened edge payload (lookup key by_group)
                ∙ ap (λ k. endpoints_at k by_group) (beq→eq key group same)))
      | inr other ↦ rw (other) (sym (append-nil _))
    ])

declared_cons :
    (cross_keys : List String) (group : Group) (edge : Edge) (edges : List Edge)
    → declared cross_keys group (edge ∷ edges)
      ≡ added cross_keys group edge (reconciled_payload edge) ++ declared cross_keys group edges
unfolding declared edge_group_key
declared_cons cross_keys group edge edges =
    elim (Bool-cases (payload_group cross_keys edge (reconciled_payload edge) == some group)) [
      | inl e ↦ rw e
      | inr e ↦ rw e
    ]

-- From contracts collected so far, the loop leaves in each group the endpoints that were there, and behind them
-- one endpoint for each edge of the group, in the order of the edges.
pub endpoints_at-reconcile_edges :
    (cross_keys : List String) (by_group : ByGroup) (edges : List Edge) (group : Group)
    → endpoints_at group (reconcile_edges cross_keys by_group edges)
      ≡ endpoints_at group by_group ++ declared cross_keys group edges
unfolding reconcile_edges reconcile_edge
endpoints_at-reconcile_edges cross_keys by_group [] group = unfold declared in sym (append-nil _)
endpoints_at-reconcile_edges cross_keys by_group (edge ∷ edges) group =
    endpoints_at-reconcile_edges cross_keys (reconcile_edge cross_keys by_group edge) edges group
    ∙ rw (
      endpoints_at-reconcile_payload cross_keys by_group edge group (reconciled_payload edge),
      declared_cons cross_keys group edge edges,
      append_assoc,
    )

-- All endpoints of the contracts.
unfoldable pub total : ByGroup → ℕ
total [] = 0
total ((group, contract) ∷ by_group) = length contract.endpoints + total by_group

total-insert :
    (group : Group) (contract : Contract) (by_group : ByGroup)
    → total (insert group contract by_group) + length (endpoints_at group by_group)
      ≡ total by_group + length contract.endpoints
unfolding total insert
total-insert group contract [] = omega arith
total-insert group contract ((key, old) ∷ by_group) = elim (Bool-cases (key == group)) [
  | inl e ↦ rw e (omega arith)
  | inr e ↦ rw e (omega (arith, total-insert group contract by_group))
]

total-reconcile_payload :
    (cross_keys : List String) (by_group : ByGroup) (edge : Edge) (o : Option Fields)
    → total (reconcile_payload cross_keys by_group edge o)
      ≡ total by_group + length (endpoint_list edge o)
unfolding reconcile_payload
total-reconcile_payload cross_keys by_group edge none = omega arith
total-reconcile_payload cross_keys by_group edge (some payload) =
    let key = group_key edge (contract_key payload) cross_keys in
    let found = opened edge payload (lookup key by_group) in
    omega (
      arith,
      total-insert key (add_edge edge payload found) by_group,
      ap length (endpoints-add_edge edge payload found),
      length-append found.endpoints (endpoint_of edge payload ∷ []),
      ap length (endpoints-opened edge payload (lookup key by_group)),
    )

-- the edges that carry a contract of a protocol that is reconciled
unfoldable pub contract_edges : List Edge → ℕ
contract_edges [] = 0
contract_edges (edge ∷ edges) =
    length (endpoint_list edge (reconciled_payload edge)) + contract_edges edges

total_from :
    (cross_keys : List String) (by_group : ByGroup) (edges : List Edge)
    → total (reconcile_edges cross_keys by_group edges) ≡ total by_group + contract_edges edges
unfolding reconcile_edges reconcile_edge contract_edges
total_from cross_keys by_group [] = omega arith
total_from cross_keys by_group (edge ∷ edges) = omega (
  arith,
  total_from cross_keys (reconcile_edge cross_keys by_group edge) edges,
  total-reconcile_payload cross_keys by_group edge (reconciled_payload edge),
)

-- The contracts hold together as many endpoints as there are edges that carry a contract of a reconciled
-- protocol: none is lost and none is counted twice.
pub total-reconcile_edges :
    (edges : List Edge)
    → total (reconcile_edges (cross_landscape_keys edges) [] edges) ≡ contract_edges edges
unfolding total
total-reconcile_edges edges = omega (arith, total_from (cross_landscape_keys edges) [] edges)
