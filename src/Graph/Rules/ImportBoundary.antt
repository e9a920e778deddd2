-- ===== src/Graph/Rules/ImportBoundary.antt =====
-- `evaluate_import_boundary_rules` of src/beadloom/graph/rules/evaluators.py.
use Prim.Native.String.{◌++◌ as str_append}
use beadloom.Base.{String, not, none, some, List, [], ◌∷◌, if◌then◌else◌, concat_map, replace_code}
use beadloom.Graph.Rules.Types.{ImportBoundaryRule, Violation}
use beadloom.Graph.Rules.Database.{ImportRow, Database}
use beadloom.Graph.Rules.Externals.{Externals}

-- `_import_path_to_file_path`
unfoldable pub import_path_to_file_path : String → String
import_path_to_file_path import_path = replace_code b'.' "/" import_path

unfoldable pub boundary_violation : ImportBoundaryRule → ImportRow → Violation
boundary_violation rule imp = record {
  rule_name = rule.name;
  rule_description = rule.description;
  rule_type = "forbid_import";
  severity = rule.severity;
  file_path = some imp.file_path;
  line_number = some imp.line_number;
  from_ref_id = none;
  to_ref_id = none;
  message = str_append "File '" (
      str_append imp.file_path (
        str_append "' imports '" (
          str_append imp.import_path (
            str_append "' which violates boundary rule '"
              (str_append rule.name (str_append "': " rule.description))))));
  remediation = none;
}

module _ {F : Type 0} (ext : Externals F) where
  -- the body of the inner loop
  unfoldable pub boundary_one : ImportRow → ImportBoundaryRule → List Violation
  unfolding boundary_violation import_path_to_file_path
  boundary_one imp rule =
      if not (ext.fnmatch imp.file_path rule.from_glob)
      then []
      else if not (ext.fnmatch (import_path_to_file_path imp.import_path) rule.to_glob)
      then []
      else boundary_violation rule imp ∷ []

  -- `evaluate_import_boundary_rules`
  unfoldable pub evaluate_import_boundary_rules :
      Database → List ImportBoundaryRule → List Violation
  unfolding boundary_one
  evaluate_import_boundary_rules db rules =
      concat_map (λ imp. concat_map (boundary_one imp) rules) db.code_imports
