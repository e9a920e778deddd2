-- ===== src/Graph/Rules/Require.antt =====
-- `evaluate_require_rules` of src/beadloom/graph/rules/evaluators.py.
use Prim.Native.String.{◌++◌ as str_append}
use beadloom.Base.{
  String, Bool, false, not, ◌||◌, Option, none, some, List, [], ◌∷◌, if◌then◌else◌, ◌==◌,
  string_equality, any_of, keep_if, concat_map,
}
use beadloom.Graph.Rules.Types.{matches, differs, RequireRule, Violation}
use beadloom.Graph.Rules.Database.{NodeRow, EdgeRow, Database, get_node}
use beadloom.Graph.Rules.Deny.{has_tag, loaded}

unfoldable pub require_violation : RequireRule → NodeRow → Violation
require_violation rule node = record {
  rule_name = rule.name;
  rule_description = rule.description;
  rule_type = "require";
  severity = rule.severity;
  file_path = none;
  line_number = none;
  from_ref_id = some node.ref_id;
  to_ref_id = none;
  message = str_append "Node '" (
      str_append node.ref_id (
        str_append "' (kind=" (
          str_append node.kind (
            str_append ") violates require rule '"
              (str_append rule.name (str_append "': " rule.description))))));
  remediation = none;
}

-- the target of an edge against `has_edge_to`, if the target is a node
unfoldable pub target_matches : Bool → Database → RequireRule → Option NodeRow → Bool
target_matches any_tag_rule db rule none = false
target_matches any_tag_rule db rule (some target) =
    matches rule.has_edge_to target.ref_id target.kind (loaded any_tag_rule db target.ref_id)

-- the body of the loop over the edges of a node: whether it ends with `has_match`
unfoldable pub edge_satisfies : Bool → Database → RequireRule → EdgeRow → Bool
unfolding target_matches
edge_satisfies any_tag_rule db rule row =
    if differs rule.edge_kind row.kind
    then false
    else target_matches any_tag_rule db rule (get_node db row.dst_ref_id)

-- `SELECT dst_ref_id, kind FROM edges WHERE src_ref_id = ?`
unfoldable pub edges_from : Database → String → List EdgeRow
edges_from db ref_id = keep_if (λ row. row.src_ref_id == ref_id) db.edges

-- the body of the loop over the nodes
unfoldable pub require_one : Bool → Database → RequireRule → NodeRow → List Violation
unfolding require_violation edge_satisfies edges_from
require_one any_tag_rule db rule node =
    if not (matches rule.for_matcher node.ref_id node.kind (loaded any_tag_rule db node.ref_id))
    then []
    else if any_of (edge_satisfies any_tag_rule db rule) (edges_from db node.ref_id)
    then []
    else require_violation rule node ∷ []

abbrev pub any_require_tag : List RequireRule → Bool
any_require_tag rules =
    any_of (λ (r : RequireRule). has_tag r.for_matcher || has_tag r.has_edge_to) rules

-- `evaluate_require_rules`
unfoldable pub evaluate_require_rules : Database → List RequireRule → List Violation
unfolding require_one
evaluate_require_rules db rules =
    concat_map (λ rule. concat_map (require_one (any_require_tag rules) db rule) db.nodes) rules
