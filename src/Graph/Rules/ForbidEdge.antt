-- ===== src/Graph/Rules/ForbidEdge.antt =====
-- `evaluate_forbid_edge_rules` of src/beadloom/graph/rules/evaluators.py.
use Prim.Native.String.{◌++◌ as str_append}
use beadloom.Base.{
  Bool, not, ◌||◌, Option, none, some, List, [], ◌∷◌, if◌then◌else◌, string_equality, any_of,
  concat_map,
}
use beadloom.Graph.Rules.Types.{matches, differs, ForbidEdgeRule, Violation}
use beadloom.Graph.Rules.Database.{NodeRow, EdgeRow, Database, get_node}
use beadloom.Graph.Rules.Deny.{has_tag, loaded}

unfoldable pub forbid_violation : ForbidEdgeRule → EdgeRow → Violation
forbid_violation rule row = record {
  rule_name = rule.name;
  rule_description = rule.description;
  rule_type = "forbid";
  severity = rule.severity;
  file_path = none;
  line_number = none;
  from_ref_id = some row.src_ref_id;
  to_ref_id = some row.dst_ref_id;
  message = str_append "Edge '" (
      str_append row.src_ref_id (
        str_append "' -> '" (
          str_append row.dst_ref_id (
            str_append "' (kind=" (
              str_append row.kind (
                str_append ") violates forbid rule '"
                  (str_append rule.name (str_append "': " rule.description))))))));
  remediation = none;
}

-- the body of the inner loop
unfoldable pub forbid_one :
    Bool → Database → EdgeRow → NodeRow → NodeRow → ForbidEdgeRule → List Violation
unfolding forbid_violation
forbid_one any_tag_rule db row src dst rule =
    if differs rule.edge_kind row.kind
    then []
    else if not (matches rule.from_matcher src.ref_id src.kind (loaded any_tag_rule db src.ref_id))
    then []
    else if not (matches rule.to_matcher dst.ref_id dst.kind (loaded any_tag_rule db dst.ref_id))
    then []
    else forbid_violation rule row ∷ []

unfoldable pub forbid_between :
    Bool
    → Database
    → EdgeRow
    → List ForbidEdgeRule
    → Option NodeRow
    → Option NodeRow
    → List Violation
unfolding forbid_one
forbid_between any_tag_rule db row rules (some src) (some dst) =
    concat_map (forbid_one any_tag_rule db row src dst) rules
forbid_between any_tag_rule db row rules (some src) none = []
forbid_between any_tag_rule db row rules none dst = []

-- the body of the outer loop
unfoldable pub forbid_edge : Bool → Database → List ForbidEdgeRule → EdgeRow → List Violation
unfolding forbid_between
forbid_edge any_tag_rule db rules row =
    forbid_between any_tag_rule db row rules (get_node db row.src_ref_id)
      (get_node db row.dst_ref_id)

abbrev pub any_forbid_tag : List ForbidEdgeRule → Bool
any_forbid_tag rules =
    any_of (λ (r : ForbidEdgeRule). has_tag r.from_matcher || has_tag r.to_matcher) rules

-- `evaluate_forbid_edge_rules`
unfoldable pub evaluate_forbid_edge_rules : Database → List ForbidEdgeRule → List Violation
unfolding forbid_edge
evaluate_forbid_edge_rules db rules =
    concat_map (forbid_edge (any_forbid_tag rules) db rules) db.edges
