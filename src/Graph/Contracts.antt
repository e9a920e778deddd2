-- ===== src/Graph/Contracts.antt =====
-- src/beadloom/graph/contracts.py: contracts between services, reconciled from the edges that carry one.
-- The proofs are in the modules below.
pub mod Classify
pub mod Reconcile
mod Tests
use Prim.Native.String.{◌++◌ as str_append}
use beadloom.Base.{
  ℕ, String, Bool, true, false, not, ◌&&◌, ◌||◌, Option, none, some, List, [], ◌∷◌, ◌++◌, map,
  if◌then◌else◌, ◌==◌, string_equality, option_equality, pair_equality, contains, is_empty, keep_if,
  any_of, ltb, is_blank, starts_with_code, drop_first, partition, lookup, insert, sort_unique,
}
use beadloom.Json.{
  Value, Items, Fields, nil, cons, end, field, str, obj, arr, get, py_str, str_or, truthy, or_else,
}
use beadloom.Graph.GraphqlBreaking.{breaking_field_descriptors}
use beadloom.Graph.AmqpBody.{serialize_body, breaking_body_descriptors}
use beadloom.Graph.Edge.{Edge}

-- `ContractVerdict`
pub data ContractVerdict : Type 0 where
  confirmed drift orphaned_consumer undeclared_producer breaking expected external dead :
      ContractVerdict

-- `ContractEndpoint`; `reconcile_contracts` sets no source file.
pub record ContractEndpoint : Type 0 where
  pub repo : String
  pub ref_id : String
  pub direction : String

-- `Contract`
pub record Contract : Type 0 where
  pub contract_key : String
  pub protocol : String
  pub name : String
  pub endpoints : List ContractEndpoint
  pub lifecycle : String
  pub verdict : Option ContractVerdict
  pub exposed : List String
  pub references : List String
  pub exposed_fields : List (String × Fields)
  pub referenced_fields : List (String × Fields)
  pub exposed_body : Fields
  pub referenced_body : Fields

-- `Contract(contract_key=..., protocol=..., name=...)`
abbrev pub new_contract : String → String → String → Contract
new_contract key protocol name = record {
  contract_key = key;
  protocol = protocol;
  name = name;
  endpoints = [];
  lifecycle = "active";
  verdict = none;
  exposed = [];
  references = [];
  exposed_fields = [];
  referenced_fields = [];
  exposed_body = end;
  referenced_body = end;
}

abbrev pub is_producer : ContractEndpoint → Bool
is_producer e = e.direction == "produces"

abbrev pub is_consumer : ContractEndpoint → Bool
is_consumer e = e.direction == "consumes"

-- `Contract.producers`, `Contract.consumers`
unfoldable pub producers : Contract → List ContractEndpoint
producers c = keep_if is_producer c.endpoints

unfoldable pub consumers : Contract → List ContractEndpoint
consumers c = keep_if is_consumer c.endpoints

abbrev pub is_empty_mapping : Fields → Bool
is_empty_mapping end = true
is_empty_mapping (field _ _ _) = false

-- `Contract._has_typed_surface`
unfoldable pub has_typed_surface : Contract → Bool
has_typed_surface c =
    c.protocol == "graphql" && not (is_empty c.exposed_fields) && not (is_empty c.referenced_fields)

-- `Contract._has_typed_body`
unfoldable pub has_typed_body : Contract → Bool
has_typed_body c =
    c.protocol == "amqp"
    && not (is_empty_mapping c.exposed_body)
    && not (is_empty_mapping c.referenced_body)

-- `Contract.body_breaking_fields`
unfoldable pub body_breaking_fields : Contract → List String
unfolding has_typed_body
body_breaking_fields c =
    if not (has_typed_body c)
    then []
    else breaking_body_descriptors (obj c.exposed_body) (obj c.referenced_body)

-- `Contract.breaking_fields`
unfoldable pub breaking_fields : Contract → List String
unfolding has_typed_surface
breaking_fields c =
    if not (has_typed_surface c)
    then []
    else breaking_field_descriptors c.exposed_fields c.referenced_fields

-- `Contract.missing_references`
unfoldable pub missing_references : Contract → List String
unfolding body_breaking_fields breaking_fields
missing_references c =
    if c.protocol == "amqp"
    then body_breaking_fields c
    else if not (c.protocol == "graphql")
    then []
    else if has_typed_surface c
    then breaking_fields c
    else if is_empty c.references
    then []
    else sort_unique (keep_if (λ name. not (contains c.exposed name)) c.references)

-- `classify`
unfoldable pub classify : Contract → ContractVerdict
unfolding producers consumers
classify c =
    if c.lifecycle == "external"
    then external
    else if c.lifecycle == "dead"
    then dead
    else if c.lifecycle == "planned" || c.lifecycle == "deprecated"
    then expected
    else if not (is_empty (producers c)) && not (is_empty (consumers c))
    then (if (c.protocol == "graphql" || c.protocol == "amqp")
          && not (is_empty (missing_references c))
        then breaking
        else confirmed)
    else if not (is_empty (consumers c))
    then orphaned_consumer
    else undeclared_producer

-- `str(a or default)`
abbrev pub text_or : String → Option Value → String
text_or default o = str_or default (or_else o (some (str default)))

-- `contract_key`
unfoldable pub contract_key : Fields → String
unfolding str_or or_else
contract_key payload =
    let protocol = str_or "" (get "protocol" payload) in
    if protocol == "graphql"
    then str_append "graphql:" (text_or "" (or_else (get "schema" payload) (get "name" payload)))
    else if protocol == "amqp"
    then str_append "amqp:" (
        str_append (text_or "*" (get "exchange" payload)) (
          str_append "/" (
            str_append (text_or "*" (get "routing_key" payload))
              (str_append ":" (str_or "" (get "message_type" payload))))))
    else str_append protocol
        (str_append ":" (text_or "" (or_else (get "message_type" payload) (get "name" payload))))

-- `protocol in _RECONCILED_PROTOCOLS`
unfoldable pub is_reconciled : String → Bool
is_reconciled protocol = protocol == "amqp" || protocol == "graphql"

-- `_edge_contract` and the test of the protocol behind it, which four functions of the source repeat
unfoldable pub checked_payload : Option Fields → Option Fields
unfolding is_reconciled
checked_payload none = none
checked_payload (some payload) =
    if is_reconciled (str_or "" (get "protocol" payload)) then some payload else none

unfoldable pub reconciled_payload : Edge → Option Fields
unfolding checked_payload
reconciled_payload edge = checked_payload edge.contract

-- `_is_explicit_cross_repo`
unfoldable pub is_explicit_cross_repo : Edge → Bool
is_explicit_cross_repo edge =
    let (dst_repo, _) = partition b':' (drop_first edge.dst) in
    if not (starts_with_code b'@' edge.dst)
    then false
    else not (is_blank dst_repo) && not (dst_repo == edge.repo)

-- what one edge adds to the keys
unfoldable pub explicit_keys : Edge → Option Fields → List String
unfolding is_explicit_cross_repo
explicit_keys edge none = []
explicit_keys edge (some payload) =
    if is_explicit_cross_repo edge then contract_key payload ∷ [] else []

-- `_cross_landscape_keys`
unfoldable pub cross_landscape_keys : List Edge → List String
unfolding explicit_keys
cross_landscape_keys [] = []
cross_landscape_keys (edge ∷ edges) =
    explicit_keys edge (reconciled_payload edge) ++ cross_landscape_keys edges

-- a group of reconciliation: a landscape, or none, and a contract key
abbrev pub Group : Type 0
Group = Option String × String

abbrev pub scoped : Option String → Option String
scoped none = none
scoped (some landscape) = if is_blank landscape then none else some landscape

-- `_group_key`
unfoldable pub group_key : Edge → String → List String → Group
group_key edge key cross_keys =
    if contains cross_keys key then (none, key) else (scoped edge.landscape, key)

-- the end of `edge_group_key`, from the payload that is reconciled, if there is one
unfoldable pub payload_group : List String → Edge → Option Fields → Option Group
unfolding group_key
payload_group cross_keys edge none = none
payload_group cross_keys edge (some payload) =
    some (group_key edge (contract_key payload) cross_keys)

-- `edge_group_key`
unfoldable pub edge_group_key : List String → Edge → Option Group
unfolding payload_group
edge_group_key cross_keys edge = payload_group cross_keys edge (reconciled_payload edge)

-- `_LIFECYCLE_SIGNIFICANCE.get(lifecycle, 0)`
unfoldable pub significance : String → ℕ
significance lifecycle =
    if lifecycle == "active"
    then 1
    else if lifecycle == "planned"
    then 2
    else if lifecycle == "deprecated"
    then 3
    else if lifecycle == "dead"
    then 4
    else if lifecycle == "external"
    then 5
    else 0

-- `_more_significant`
unfoldable pub more_significant : String → String → String
unfolding significance
more_significant current candidate =
    if ltb (significance current) (significance candidate) then candidate else current
