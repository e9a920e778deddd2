-- ===== src/Graph/Contracts/Reconcile.antt =====
-- `reconcile_contracts` of src/beadloom/graph/contracts.py: the edges folded into contracts, a group at a
-- time, in the order in which the groups first appear.
pub mod Endpoints
use beadloom.Base.{
  String, Bool, true, false, not, ◌&&◌, Option, none, some, List, [], ◌∷◌, ◌++◌, map, if◌then◌else◌,
  ◌==◌, string_equality, option_equality, pair_equality, is_empty, lookup, insert, sort_unique,
}
use beadloom.Json.{Value, Items, Fields, nil, cons, end, field, str, obj, arr, get, py_str, str_or}
use beadloom.Graph.AmqpBody.{serialize_body}
use beadloom.Graph.Edge.{Edge}
use beadloom.Graph.Contracts.{
  ContractEndpoint, Contract, new_contract, Group, contract_key, reconciled_payload, group_key,
  cross_landscape_keys, more_significant, classify, text_or,
}

abbrev pub items_texts : Items → List String
items_texts nil = []
items_texts (cons v r) = py_str v ∷ items_texts r

-- `_str_list`
unfoldable pub str_list : Option Value → List String
str_list (some (Value.arr xs)) = items_texts xs
str_list _ = []

-- `d[k] = v` on a mapping
unfoldable pub set_field : String → Value → Fields → Fields
set_field k v end = field k v end
set_field k v (field j w r) = if j == k then field k v r else field j w (set_field k v r)

-- A name that `_typed_fields` keeps: a text that is not empty.
unfoldable pub entry_name : Option Value → Option String
entry_name (some (Value.str name)) = if name == "" then none else some name
entry_name _ = none

-- the comprehension over `entry.get("args", [])`, in the order of the list
unfoldable pub typed_args : Items → Fields → Fields
unfolding entry_name set_field
typed_args nil args = args
typed_args (cons (Value.obj a) r) args = typed_args r (elim (entry_name (get "name" a)) [
  | none ↦ args
  | some name ↦ set_field name (str (str_or "" (get "type" a))) args
])
typed_args (cons _ r) args = typed_args r args

-- `entry.get("args", [])`; a value that is no list gives no argument.
abbrev entry_args : Option Value → Fields
entry_args (some (Value.arr xs)) = typed_args xs end
entry_args _ = end

abbrev entry_type : Option Value → String
entry_type (some (Value.str type)) = type
entry_type _ = ""

abbrev typed_field : Fields → Fields
typed_field entry =
    field "type" (str (entry_type (get "type" entry)))
      (field "args" (obj (entry_args (get "args" entry))) end)

-- the loop of `_typed_fields`
unfoldable pub typed_entries : Items → List (String × Fields) → List (String × Fields)
unfolding entry_name typed_args insert
typed_entries nil fields = fields
typed_entries (cons (Value.obj entry) r) fields =
    typed_entries r (elim (entry_name (get "name" entry)) [
      | none ↦ fields
      | some name ↦ insert name (typed_field entry) fields
    ])
typed_entries (cons _ r) fields = typed_entries r fields

-- `_typed_fields`
unfoldable pub typed_fields : Option Value → List (String × Fields)
unfolding typed_entries
typed_fields (some (Value.arr xs)) = typed_entries xs []
typed_fields _ = []

-- `target.update(typed)`
unfoldable pub update : List (String × Fields) → List (String × Fields) → List (String × Fields)
unfolding insert
update target [] = target
update target ((k, v) ∷ typed) = update (insert k v target) typed

abbrev mapping_of : Value → Fields
mapping_of (Value.obj payload) = payload
mapping_of _ = end

-- `_accumulate_body`
unfoldable pub accumulate_body : Contract → Fields → Option Value → Contract
accumulate_body contract payload (some (Value.obj (field k v r))) =
    let normalized = mapping_of (serialize_body (obj (field k v r))) in
    if str_or "" (get "direction" payload) == "produces"
    then record contract { exposed_body = normalized }
    else record contract { referenced_body = normalized }
accumulate_body contract payload _ = contract

-- `sorted(set(old) | set(new))`, where there is something new
abbrev union : List String → List String → List String
union old [] = old
union old (x ∷ new) = sort_unique (old ++ x ∷ new)

-- the typed part of `_accumulate_surface`
unfoldable pub accumulate_fields : Contract → Fields → List (String × Fields) → Contract
unfolding update
accumulate_fields contract payload typed =
    if is_empty typed
    then contract
    else if str_or "" (get "direction" payload) == "produces"
    then record contract { exposed_fields = update contract.exposed_fields typed }
    else record contract { referenced_fields = update contract.referenced_fields typed }

-- `_accumulate_surface`
unfoldable pub accumulate_surface : Contract → Fields → Contract
unfolding accumulate_fields accumulate_body
accumulate_surface contract payload =
    let named = record contract {
      exposed = union contract.exposed (str_list (get "exposed" payload));
      references = union contract.references (str_list (get "references" payload));
    } in
    accumulate_body (accumulate_fields named payload (typed_fields (get "fields" payload))) payload
      (get "body" payload)

-- `_contract_name`
unfoldable pub contract_name : String → Fields → String
contract_name protocol payload =
    if protocol == "graphql"
    then text_or "" (beadloom.Json.or_else (get "schema" payload) (get "name" payload))
    else str_or "" (get "message_type" payload)

-- the endpoint that an edge contributes
unfoldable pub endpoint_of : Edge → Fields → ContractEndpoint
endpoint_of edge payload = record {
  repo = edge.repo;
  ref_id = edge.src;
  direction = str_or "" (get "direction" payload);
}

-- what the body of the loop does to the contract of the edge's group
unfoldable pub add_edge : Edge → Fields → Contract → Contract
unfolding endpoint_of
add_edge edge payload contract =
    let filled =
      accumulate_surface
        (record contract { endpoints = contract.endpoints ++ endpoint_of edge payload ∷ [] })
        payload in
    record filled { lifecycle = more_significant filled.lifecycle (py_str edge.lifecycle) }

abbrev pub opened : Edge → Fields → Option Contract → Contract
opened edge payload (some contract) = contract
opened edge payload none =
    let protocol = str_or "" (get "protocol" payload) in
    new_contract (contract_key payload) protocol (contract_name protocol payload)

abbrev pub ByGroup : Type 0
ByGroup = List (Group × Contract)

-- the body of the loop of `reconcile_contracts`, from the payload that is reconciled, if there is one
unfoldable pub reconcile_payload : List String → ByGroup → Edge → Option Fields → ByGroup
unfolding group_key
reconcile_payload cross_keys by_group edge none = by_group
reconcile_payload cross_keys by_group edge (some payload) =
    let group = group_key edge (contract_key payload) cross_keys in
    insert group (add_edge edge payload (opened edge payload (lookup group by_group))) by_group

unfoldable pub reconcile_edge : List String → ByGroup → Edge → ByGroup
unfolding reconcile_payload
reconcile_edge cross_keys by_group edge =
    reconcile_payload cross_keys by_group edge (reconciled_payload edge)

-- the loop of `reconcile_contracts`
unfoldable pub reconcile_edges : List String → ByGroup → List Edge → ByGroup
unfolding reconcile_edge
reconcile_edges cross_keys by_group [] = by_group
reconcile_edges cross_keys by_group (edge ∷ edges) =
    reconcile_edges cross_keys (reconcile_edge cross_keys by_group edge) edges

abbrev classified : Group × Contract → Contract
classified (_, contract) = record contract { verdict = some (classify contract) }

-- `reconcile_contracts`
unfoldable pub reconcile_contracts : List Edge → List Contract
unfolding reconcile_edges
reconcile_contracts edges = map classified (reconcile_edges (cross_landscape_keys edges) [] edges)
