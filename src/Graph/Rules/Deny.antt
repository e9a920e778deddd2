-- ===== src/Graph/Rules/Deny.antt =====
-- `evaluate_deny_rules` of src/beadloom/graph/rules/evaluators.py.
use Prim.Native.String.{◌++◌ as str_append}
use beadloom.Base.{
  String, Bool, true, false, not, ◌&&◌, ◌||◌, Option, none, some, List, [], ◌∷◌, if◌then◌else◌,
  ◌==◌, string_equality, any_of, is_empty, concat_map,
}
use beadloom.Graph.Rules.Types.{NodeMatcher, matches, DenyRule, Violation}
use beadloom.Graph.Rules.Database.{
  NodeRow, ImportRow, Database, get_node, get_node_tags, edge_exists, get_file_node,
}

-- `matcher.tag is not None`
abbrev pub is_some : Option String → Bool
is_some none = false
is_some (some _) = true

abbrev pub has_tag : NodeMatcher → Bool
has_tag m = is_some m.tag

-- The tags of a node, which are loaded only if some rule has a tag.
abbrev pub loaded : Bool → Database → String → Option (List String)
loaded any_tag_rule db ref_id = if any_tag_rule then some (get_node_tags db ref_id) else none

unfoldable pub deny_violation : DenyRule → ImportRow → String → String → Violation
deny_violation rule imp source target = record {
  rule_name = rule.name;
  rule_description = rule.description;
  rule_type = "deny";
  severity = rule.severity;
  file_path = some imp.file_path;
  line_number = some imp.line_number;
  from_ref_id = some source;
  to_ref_id = some target;
  message = str_append "Import from '" (
      str_append source (
        str_append "' to '" (
          str_append target (
            str_append "' violates deny rule '"
              (str_append rule.name (str_append "': " rule.description))))));
  remediation = none;
}

-- the body of the inner loop
unfoldable pub deny_one :
    Bool → Database → ImportRow → NodeRow → NodeRow → DenyRule → List Violation
unfolding deny_violation
deny_one any_tag_rule db imp source target rule =
    if not
      (matches rule.from_matcher source.ref_id source.kind (loaded any_tag_rule db source.ref_id))
    then []
    else if not
        (matches rule.to_matcher target.ref_id target.kind (loaded any_tag_rule db target.ref_id))
    then []
    else if not (is_empty rule.unless_edge)
        && edge_exists db source.ref_id target.ref_id rule.unless_edge
    then []
    else deny_violation rule imp source.ref_id target.ref_id ∷ []

-- the part of the outer loop behind the look-up of the two nodes
unfoldable pub deny_between :
    Bool → Database → ImportRow → List DenyRule → Option NodeRow → Option NodeRow → List Violation
unfolding deny_one
deny_between any_tag_rule db imp rules (some source) (some target) =
    concat_map (deny_one any_tag_rule db imp source target) rules
deny_between any_tag_rule db imp rules (some source) none = []
deny_between any_tag_rule db imp rules none target = []

-- the body of the outer loop, from the node of the file and the target of the import
unfoldable pub deny_resolved :
    Bool → Database → ImportRow → List DenyRule → Option String → Option String → List Violation
unfolding deny_between
deny_resolved any_tag_rule db imp rules (some source) (some target) =
    if source == target
    then []
    else deny_between any_tag_rule db imp rules (get_node db source) (get_node db target)
deny_resolved any_tag_rule db imp rules (some source) none = []
deny_resolved any_tag_rule db imp rules none target = []

unfoldable pub deny_import : Bool → Database → List DenyRule → ImportRow → List Violation
unfolding deny_resolved
deny_import any_tag_rule db rules imp =
    deny_resolved any_tag_rule db imp rules (get_file_node db imp.file_path) imp.resolved_ref_id

abbrev pub any_deny_tag : List DenyRule → Bool
any_deny_tag rules = any_of (λ (r : DenyRule). has_tag r.from_matcher || has_tag r.to_matcher) rules

-- `evaluate_deny_rules`; without rules the loops append nothing.
unfoldable pub evaluate_deny_rules : Database → List DenyRule → List Violation
unfolding deny_import
evaluate_deny_rules db rules =
    concat_map (deny_import (any_deny_tag rules) db rules) db.code_imports
