-- ===== src/Graph/Rules/Database.antt =====
-- The tables that the rules of src/beadloom/graph/rules/evaluators.py read, and their queries. A JSON column is
-- decoded already; the tags of a node stand in the order in which its set is walked.
use beadloom.Base.{
  ℕ, String, Bool, ◌&&◌, Option, none, some, List, [], ◌∷◌, if◌then◌else◌, ◌==◌, string_equality,
  contains, any_of,
}
use beadloom.Json.{Value, Fields, end, field}

-- `nodes`
pub record NodeRow : Type 0 where
  pub ref_id : String
  pub kind : String
  pub source : Option String
  pub tags : List String

-- `edges`
pub record EdgeRow : Type 0 where
  pub src_ref_id : String
  pub dst_ref_id : String
  pub kind : String
  pub lifecycle : String

-- `code_imports`
pub record ImportRow : Type 0 where
  pub file_path : String
  pub line_number : ℕ
  pub import_path : String
  pub resolved_ref_id : Option String

-- `code_symbols`; annotations that are missing or no JSON are none.
pub record SymbolRow : Type 0 where
  pub file_path : String
  pub annotations : Option Value

-- `sync_state`
pub record SyncRow : Type 0 where
  pub ref_id : String
  pub status : String

pub record Database : Type 0 where
  pub nodes : List NodeRow
  pub edges : List EdgeRow
  pub code_imports : List ImportRow
  pub code_symbols : List SymbolRow
  pub file_index : List String
  pub sync_state : List SyncRow

-- `SELECT ... FROM nodes WHERE ref_id = ?`; a name stands once in the table.
unfoldable pub find_node : String → List NodeRow → Option NodeRow
find_node ref_id [] = none
find_node ref_id (row ∷ rows) = if row.ref_id == ref_id then some row else find_node ref_id rows

-- `_get_node`
unfoldable pub get_node : Database → String → Option NodeRow
unfolding find_node
get_node db ref_id = find_node ref_id db.nodes

abbrev tags_of : Option NodeRow → List String
tags_of none = []
tags_of (some row) = row.tags

-- `get_node_tags`, through the cache that the evaluators keep
unfoldable pub get_node_tags : Database → String → List String
unfolding get_node
get_node_tags db ref_id = tags_of (get_node db ref_id)

-- `_edge_exists`
unfoldable pub edge_exists : Database → String → String → List String → Bool
edge_exists db src dst allowed_kinds =
    any_of
      (λ row. row.src_ref_id == src && (row.dst_ref_id == dst && contains allowed_kinds row.kind))
      db.edges

abbrev node_or : Option NodeRow → Option String → Option String
node_or none rest = rest
node_or (some row) rest = some row.ref_id

abbrev known : Database → Value → Option String → Option String
known db (Value.str value) rest = node_or (get_node db value) rest
known db _ rest = rest

-- the loop of `_get_file_node` over the annotations of a symbol
unfoldable pub annotated_node : Database → Fields → Option String
unfolding get_node
annotated_node db end = none
annotated_node db (field key value annotations) = known db value (annotated_node db annotations)

abbrev or_next : Option String → Option String → Option String
or_next none rest = rest
or_next (some ref_id) rest = some ref_id

-- `annotations.items()`, of annotations that are a mapping
abbrev pub mapping : Option Value → Fields
mapping (some (Value.obj annotations)) = annotations
mapping _ = end

unfoldable pub file_node_in : Database → String → List SymbolRow → Option String
unfolding annotated_node
file_node_in db file_path [] = none
file_node_in db file_path (row ∷ rows) =
    let rest = file_node_in db file_path rows in
    if row.file_path == file_path
    then or_next (annotated_node db (mapping row.annotations)) rest
    else rest

-- `_get_file_node`
unfoldable pub get_file_node : Database → String → Option String
unfolding file_node_in
get_file_node db file_path = file_node_in db file_path db.code_symbols
