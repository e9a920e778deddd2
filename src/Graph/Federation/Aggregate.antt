-- ===== src/Graph/Federation/Aggregate.antt =====
-- The composition of the passes by `aggregate_exports` of src/beadloom/graph/federation/reconcile.py. The proofs are
-- in the module below.
pub mod Settled
pub mod Union
use Prim.Native.Nat.{Ordering}
use Prim.Native.String.{compare}
use beadloom.Base.{
  String, Bool, true, false, Option, none, some, List, [], ◌∷◌, ◌++◌, map, if◌then◌else◌, ◌==◌,
  string_equality, is_blank, sort_unique, sort_by, insert, keep_if,
}
use beadloom.Json.{
  Value, Items, Fields, nil, cons, end, field, str, obj, arr, get, py_str, str_or, truthy,
}
use beadloom.Graph.AmqpBody.{serialize_body}
use beadloom.Graph.Refs.{namespace, resolve_endpoint}
use beadloom.Graph.Edge.{Edge}
use beadloom.Graph.Contracts.{Contract, is_empty_mapping}
use beadloom.Graph.Contracts.Reconcile.{set_field, items_texts, entry_name, reconcile_contracts}
use beadloom.Graph.Federation.{Node, assign_verdicts, unresolved_refs, mark_undeclared}

-- the items of a list that are mappings
unfoldable pub mappings : Items → List Fields
mappings nil = []
mappings (cons (Value.obj fields) r) = fields ∷ mappings r
mappings (cons _ r) = mappings r

-- `_export_nodes`, `_export_edges`
unfoldable pub listed : Option Value → List Fields
unfolding mappings
listed (some (Value.arr xs)) = mappings xs
listed _ = []

-- `_export_landscape`
unfoldable pub declared_landscape : Option Value → Option String
declared_landscape (some (Value.str landscape)) =
    if is_blank landscape then none else some landscape
declared_landscape _ = none

abbrev pub to_items : List String → Items
to_items [] = nil
to_items (x ∷ xs) = cons (str x) (to_items xs)

abbrev pub from_fields : List Fields → Items
from_fields [] = nil
from_fields (x ∷ xs) = cons (obj x) (from_fields xs)

-- one key of the loop of `_normalize_contract_surface`, with the value under it
unfoldable pub normalize_names : String → Option Value → Fields → Fields
unfolding set_field
normalize_names key (some (Value.arr xs)) contract =
    set_field key (arr (to_items (sort_unique (items_texts xs)))) contract
normalize_names key _ contract = contract

abbrev pub text_before : String → String → Bool
text_before a b = elim (compare a b) [ Ordering.lt ↦ true | _ ↦ false ]

-- `bool(a.get("name"))`
abbrev pub has_name : Option Value → Bool
has_name none = false
has_name (some name) = truthy name

abbrev pub arg_before : Fields → Fields → Bool
arg_before a b = text_before (str_or "" (get "name" a)) (str_or "" (get "name" b))

abbrev value_or_empty : Option Value → Value
value_or_empty none = str ""
value_or_empty (some v) = v

-- what `_normalize_typed_fields` makes of an entry
unfoldable pub normal_entry : String → Fields → Fields
unfolding listed
normal_entry name entry = field "name" (str name) (
    field "type" (value_or_empty (get "type" entry)) (
      field "args"
        (arr (
          from_fields (
            sort_by arg_before
              (keep_if (λ a. has_name (get "name" a)) (listed (get "args" entry))))))
        end))

-- `normalized[name] = entry`, for an entry that has a name
abbrev pub put_entry : Fields → Option String → List (String × Fields) → List (String × Fields)
put_entry entry none normalized = normalized
put_entry entry (some name) normalized = insert name (normal_entry name entry) normalized

-- the loop of `_normalize_typed_fields`
unfoldable pub collect_entries : List Fields → List (String × Fields) → List (String × Fields)
unfolding entry_name normal_entry insert
collect_entries [] normalized = normalized
collect_entries (entry ∷ entries) normalized =
    collect_entries entries (put_entry entry (entry_name (get "name" entry)) normalized)

abbrev pub name_before : String × Fields → String × Fields → Bool
name_before (a, _) (b, _) = text_before a b

abbrev pub second : String × Fields → Fields
second (_, entry) = entry

-- `_normalize_typed_fields`
unfoldable pub normalize_typed_fields : Items → Items
unfolding collect_entries
normalize_typed_fields xs =
    from_fields (map second (sort_by name_before (collect_entries (mappings xs) [])))

unfoldable pub normalize_fields : Option Value → Fields → Fields
unfolding normalize_typed_fields
normalize_fields (some (Value.arr xs)) contract =
    set_field "fields" (arr (normalize_typed_fields xs)) contract
normalize_fields _ contract = contract

unfoldable pub normalize_body : Option Value → Fields → Fields
normalize_body (some (Value.obj (field k v r))) contract =
    set_field "body" (serialize_body (obj (field k v r))) contract
normalize_body _ contract = contract

-- `_normalize_contract_surface`; no step changes the key that a later step reads.
unfoldable pub normalize_contract_surface : Fields → Fields
unfolding normalize_names normalize_fields normalize_body
normalize_contract_surface contract =
    let exposed = normalize_names "exposed" (get "exposed" contract) contract in
    let named = normalize_names "references" (get "references" exposed) exposed in
    let typed = normalize_fields (get "fields" named) named in
    normalize_body (get "body" typed) typed

-- `_edge_contract_payload`, normalized
unfoldable pub edge_contract : Option Value → Option Fields
unfolding normalize_contract_surface
edge_contract (some (Value.obj contract)) = some (normalize_contract_surface contract)
edge_contract _ = none

abbrev lifecycle_or_active : Option Value → Value
lifecycle_or_active none = str "active"
lifecycle_or_active (some v) = v

-- `_resolve_edge`
unfoldable pub resolve_edge : String → Option String → Fields → Edge
unfolding edge_contract
resolve_edge repo landscape edge = record {
  src = resolve_endpoint repo (str_or "" (get "src" edge));
  dst = resolve_endpoint repo (str_or "" (get "dst" edge));
  kind = get "kind" edge;
  lifecycle = lifecycle_or_active (get "lifecycle" edge);
  repo = repo;
  landscape = landscape;
  contract = edge_contract (get "contract" edge);
  verdict = none;
}

abbrev pub repo_of : Fields → String
repo_of export = str_or "" (get "repo" export)

abbrev pub named_node : String → Fields → Node
named_node repo node = record {
  ref_id = namespace repo (str_or "" (get "ref_id" node));
  repo = repo;
  fields = node;
}

-- the first loop of `aggregate_exports`, on the nodes
unfoldable pub union_nodes : List Fields → List Node
unfolding listed
union_nodes [] = []
union_nodes (export ∷ exports) =
    map (named_node (repo_of export)) (listed (get "nodes" export)) ++ union_nodes exports

-- the second loop of `aggregate_exports`
unfoldable pub union_edges : List Fields → List Edge
unfolding listed resolve_edge declared_landscape
union_edges [] = []
union_edges (export ∷ exports) =
    map (resolve_edge (repo_of export) (declared_landscape (get "landscape" export)))
      (listed (get "edges" export))
    ++ union_edges exports

abbrev then_before : Ordering → Bool → Bool
then_before Ordering.lt rest = true
then_before Ordering.eq rest = rest
then_before Ordering.gt rest = false

abbrev kind_text : Option Value → String
kind_text none = "None"
kind_text (some kind) = py_str kind

-- the order of `(str(e["src"]), str(e["dst"]), str(e["kind"]))`
unfoldable pub edge_before : Edge → Edge → Bool
edge_before a b =
    then_before (compare a.src b.src)
      (then_before (compare a.dst b.dst) (text_before (kind_text a.kind) (kind_text b.kind)))

abbrev pub node_before : Node → Node → Bool
node_before a b = text_before a.ref_id b.ref_id

abbrev pub contract_before : Contract → Contract → Bool
contract_before a b = text_before a.contract_key b.contract_key

-- `FederatedGraph`, without `repos`
pub record FederatedGraph : Type 0 where
  pub nodes : List Node
  pub edges : List Edge
  pub unresolved : List String
  pub contracts : List Contract

-- `aggregate_exports`, without the provenance of the repositories
unfoldable pub aggregate_exports : List Fields → FederatedGraph
unfolding union_nodes union_edges edge_before
aggregate_exports exports =
    let nodes = union_nodes exports in
    let edges = assign_verdicts nodes (union_edges exports) in
    record {
      nodes = sort_by node_before nodes;
      edges = sort_by edge_before (mark_undeclared edges);
      unresolved = sort_unique (unresolved_refs nodes (union_edges exports));
      contracts = sort_by contract_before (reconcile_contracts edges);
    }
