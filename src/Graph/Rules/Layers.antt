-- ===== src/Graph/Rules/Layers.antt =====
-- `evaluate_layer_rules` of src/beadloom/graph/rules/evaluators.py.
use Prim.Native.String.{◌++◌ as str_append}
use beadloom.Base.{
  ℕ, zero, suc, ◌+◌, String, not, ◌&&◌, Option, none, some, List, [], ◌∷◌, if◌then◌else◌, ◌==◌,
  string_equality, nat_equality, ltb, keep_if, lookup, insert, concat_map, contains, show,
}
use beadloom.Graph.Rules.Types.{LayerDef, LayerRule, Violation}
use beadloom.Graph.Rules.Database.{EdgeRow, Database, get_node_tags}

-- `tag_to_index`: of two layers of one tag the last counts.
unfoldable pub tag_to_index : ℕ → List LayerDef → List (String × ℕ) → List (String × ℕ)
unfolding insert
tag_to_index idx [] index = index
tag_to_index idx (layer ∷ layers) index = tag_to_index (idx + 1) layers (insert layer.tag idx index)

abbrev or_else : Option ℕ → Option ℕ → Option ℕ
or_else none rest = rest
or_else (some idx) rest = some idx

-- the loop over the tags of a node: the layer of the first tag that has one
unfoldable pub layer_of : List (String × ℕ) → List String → Option ℕ
layer_of index [] = none
layer_of index (tag ∷ tags) = or_else (lookup tag index) (layer_of index tags)

-- `rule.layers[idx].name`
unfoldable pub layer_name : List LayerDef → ℕ → String
layer_name [] idx = ""
layer_name (layer ∷ layers) zero = layer.name
layer_name (layer ∷ layers) (suc idx) = layer_name layers idx

abbrev quoted_layer : LayerRule → String → ℕ → String
quoted_layer rule ref_id idx = str_append "'" (
    str_append ref_id (
      str_append "' (layer '" (
        str_append (layer_name rule.layers idx)
          (str_append "', index " (str_append (show idx) ")")))))

unfoldable pub layer_violation : LayerRule → EdgeRow → ℕ → ℕ → String → String → Violation
unfolding layer_name
layer_violation rule row src dst opening reason = record {
  rule_name = rule.name;
  rule_description = rule.description;
  rule_type = "layer";
  severity = rule.severity;
  file_path = none;
  line_number = none;
  from_ref_id = some row.src_ref_id;
  to_ref_id = some row.dst_ref_id;
  message = str_append opening (
      str_append (quoted_layer rule row.src_ref_id src) (
        str_append " depends on " (
          str_append (quoted_layer rule row.dst_ref_id dst)
            (str_append reason (str_append " (rule '" (str_append rule.name "')."))))));
  remediation = none;
}

-- what the loop over the edges does with the layers of the two nodes
unfoldable pub layer_between : LayerRule → EdgeRow → Option ℕ → Option ℕ → List Violation
unfolding layer_violation
layer_between rule row (some src) (some dst) =
    if src == dst
    then []
    else if rule.enforce == "top-down" && ltb dst src
    then layer_violation rule row src dst "Layer violation: "
        ". Lower layers must not depend on upper layers"
      ∷ []
    else if not rule.allow_skip && ltb (src + 1) dst
    then layer_violation rule row src dst "Layer skip violation: "
        ". Skipping layers is not allowed"
      ∷ []
    else []
layer_between rule row (some src) none = []
layer_between rule row none dst = []

-- the body of the loop over the edges
unfoldable pub layer_edge : Database → LayerRule → EdgeRow → List Violation
unfolding layer_between layer_of tag_to_index
layer_edge db rule row =
    let index = tag_to_index 0 rule.layers [] in
    layer_between rule row (layer_of index (get_node_tags db row.src_ref_id))
      (layer_of index (get_node_tags db row.dst_ref_id))

-- `_live_lifecycle_clause`, on the edges of some kinds
unfoldable pub live_edges : Database → List String → List EdgeRow
live_edges db kinds =
    keep_if (λ row. contains kinds row.kind && (row.lifecycle == "active")) db.edges

-- `evaluate_layer_rules`
unfoldable pub evaluate_layer_rules : Database → List LayerRule → List Violation
unfolding layer_edge live_edges
evaluate_layer_rules db rules =
    concat_map (λ rule. concat_map (layer_edge db rule) (live_edges db (rule.edge_kind ∷ []))) rules
