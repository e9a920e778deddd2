-- ===== src/Graph/Rules/Modules.antt =====
-- The two rules of src/beadloom/graph/rules/evaluators.py about the files under a directory:
-- `evaluate_unregistered_feature_candidate_rules` and `evaluate_module_coverage_rules`.
pub mod Tallies
use Prim.Native.Nat.{Ordering}
use Prim.Native.String.{compare, ◌++◌ as str_append}
use beadloom.Base.{
  ℕ, ◌+◌, String, Bool, true, false, not, ◌&&◌, ◌||◌, Option, none, some, List, [], ◌∷◌,
  if◌then◌else◌, ◌==◌, string_equality, any_of, contains, keys, ltb, keep_if, lookup, insert,
  sort_by, concat_map, is_blank, starts_with, ends_with_code, drop_size, show,
}
use beadloom.Json.{Value, Fields, get}
use beadloom.Graph.Rules.Types.{matches, FeatureCandidateRule, ModuleCoverageRule, Violation}
use beadloom.Graph.Rules.Database.{NodeRow, SymbolRow, Database, mapping}
use beadloom.Graph.Rules.Externals.{Externals}
use beadloom.Graph.Rules.Cardinality.{source_prefix}

-- What the loops collect of a file: `counts`, and two flags that rows can set.
pub record Tally : Type 0 where
  pub count : ℕ
  pub attributed : Bool
  pub featured : Bool

abbrev pub tally_or_new : Option Tally → Tally
tally_or_new none = record { count = 0; attributed = false; featured = false }
tally_or_new (some tally) = tally

abbrev pub has_key : String → Fields → Bool
has_key key annotations = elim (get key annotations) [ none ↦ false | some _ ↦ true ]

abbrev is_text : String → Option Value → Bool
is_text wanted none = false
is_text wanted (some value) = elim value [ Value.str found ↦ found == wanted | _ ↦ false ]

-- `annotations.get("domain") == domain_ref_id`
abbrev pub is_domain : String → Fields → Bool
is_domain domain annotations = is_text domain (get "domain" annotations)

abbrev pub bump : (Fields → Bool) → (Fields → Bool) → SymbolRow → Tally → Tally
bump attributes features row tally = record {
  count = tally.count + 1;
  attributed = attributes (mapping row.annotations) || tally.attributed;
  featured = features (mapping row.annotations) || tally.featured;
}

-- the loop over the rows of the symbols of a directory
unfoldable pub tally_files :
    (Fields → Bool)
    → (Fields → Bool)
    → List SymbolRow
    → List (String × Tally)
    → List (String × Tally)
unfolding insert
tally_files attributes features [] tallies = tallies
tally_files attributes features (row ∷ rows) tallies = tally_files attributes features rows (
    insert row.file_path
      (bump attributes features row (tally_or_new (lookup row.file_path tallies))) tallies)

abbrev pub file_before : String × Tally → String × Tally → Bool
file_before (a, _) (b, _) = elim (compare a b) [ Ordering.lt ↦ true | _ ↦ false ]

abbrev is_candidate : String × Tally → Bool
is_candidate (_, tally) = tally.attributed && not tally.featured

-- `rel`
unfoldable pub relative_name : String → String → String → String
relative_name node_ref_id prefix file_path =
    if starts_with prefix file_path
    then str_append node_ref_id (str_append "/" (drop_size prefix file_path))
    else file_path

abbrev pub sources : Option String → List String
sources none = []
sources (some source) = if is_blank source || ends_with_code b'/' source then [] else source ∷ []

-- `_node_source_paths`
unfoldable pub node_source_paths : Database → List String
node_source_paths db = concat_map (λ (row : NodeRow). sources row.source) db.nodes

-- the body of the loop of `_node_dir_source_prefixes`
unfoldable pub dir_prefix : String → String → Option String → List String
dir_prefix root kind none = []
dir_prefix root kind (some source) =
    if not (ends_with_code b'/' source) || (kind == "domain")
    then []
    else if source_prefix source == root
    then []
    else source_prefix source ∷ []

-- `_node_dir_source_prefixes`
unfoldable pub node_dir_source_prefixes : Database → String → List String
unfolding dir_prefix
node_dir_source_prefixes db source_root =
    concat_map (λ (row : NodeRow). dir_prefix (source_prefix source_root) row.kind row.source)
      db.nodes

abbrev pub no_flag : Fields → Bool
no_flag annotations = false

abbrev pub is_classified : Fields → Bool
is_classified annotations = has_key "feature" annotations || has_key "component" annotations

-- `candidates[disk_path] = (0, False)`, for the modules on disk that have no symbol
unfoldable pub add_modules : List String → List (String × Tally) → List (String × Tally)
unfolding insert
add_modules [] candidates = candidates
add_modules (path ∷ paths) candidates = add_modules paths (
    if contains (keys candidates) path
    then candidates
    else insert path (tally_or_new none) candidates)

unfoldable pub module_violation : ModuleCoverageRule → String → Tally → Violation
module_violation rule file_path tally = record {
  rule_name = rule.name;
  rule_description = rule.description;
  rule_type = "module_coverage";
  severity = rule.severity;
  file_path = some file_path;
  line_number = none;
  from_ref_id = none;
  to_ref_id = none;
  message = str_append file_path (
      str_append " (" (
        str_append (show tally.count)
          " symbols): not covered by any node and not exempt — classify as a feature/component or add to exempt."));
  remediation = none;
}

unfoldable pub candidate_violation :
    FeatureCandidateRule → NodeRow → String → String → Tally → Violation
unfolding relative_name
candidate_violation rule node prefix file_path tally = record {
  rule_name = rule.name;
  rule_description = rule.description;
  rule_type = "unregistered_feature_candidate";
  severity = rule.severity;
  file_path = some file_path;
  line_number = none;
  from_ref_id = some node.ref_id;
  to_ref_id = none;
  message = str_append (relative_name node.ref_id prefix file_path) (
      str_append " (" (
        str_append (show tally.count) (
          str_append " symbols): domain-only, no feature — candidate unregistered feature (rule '"
            (str_append rule.name "')."))));
  remediation = none;
}

module _ {F : Type 0} (ext : Externals F) where
  -- `SELECT file_path, annotations FROM code_symbols WHERE file_path LIKE ?`
  unfoldable pub symbols_under : Database → String → List SymbolRow
  symbols_under db prefix =
      keep_if (λ (row : SymbolRow). ext.like row.file_path (str_append prefix "%")) db.code_symbols

  -- `_candidate_files_for_domain`, sorted
  unfoldable pub candidate_files : Database → String → String → List (String × Tally)
  unfolding symbols_under tally_files sort_by
  candidate_files db domain prefix = sort_by file_before (
      keep_if is_candidate
        (tally_files (is_domain domain) (has_key "feature") (symbols_under db prefix) []))

  -- the body of the loop over the candidates
  unfoldable pub candidate_one :
      FeatureCandidateRule → NodeRow → String → String × Tally → List Violation
  unfolding candidate_violation
  candidate_one rule node prefix (file_path, tally) =
      if ltb tally.count rule.min_symbols
      then []
      else if any_of (ext.fnmatch file_path) rule.exclude
      then []
      else candidate_violation rule node prefix file_path tally ∷ []

  unfoldable pub candidates_under :
      Database → FeatureCandidateRule → NodeRow → Option String → List Violation
  unfolding candidate_one candidate_files
  candidates_under db rule node none = []
  candidates_under db rule node (some source) =
      concat_map (candidate_one rule node (source_prefix source))
        (candidate_files db node.ref_id (source_prefix source))

  -- the body of the loop over the nodes
  unfoldable pub candidates_of : Database → FeatureCandidateRule → NodeRow → List Violation
  unfolding candidates_under
  candidates_of db rule node =
      if not (matches rule.for_matcher node.ref_id node.kind none)
      then []
      else candidates_under db rule node node.source

  -- `evaluate_unregistered_feature_candidate_rules`
  unfoldable pub evaluate_feature_candidate_rules :
      Database → List FeatureCandidateRule → List Violation
  unfolding candidates_of
  evaluate_feature_candidate_rules db rules =
      concat_map (λ rule. concat_map (candidates_of db rule) db.nodes) rules

  -- `_module_coverage_state`
  unfoldable pub module_coverage_state : Database → String → List (String × Tally)
  unfolding symbols_under tally_files
  module_coverage_state db source_root =
      tally_files is_classified no_flag (symbols_under db source_root) []

  -- the body of the loop over the candidates
  unfoldable pub module_one :
      Database → ModuleCoverageRule → List (String × Tally) → String × Tally → List Violation
  unfolding module_violation node_source_paths node_dir_source_prefixes
  module_one db rule coverage (file_path, tally) =
      if ltb tally.count rule.min_symbols && contains (keys coverage) file_path
      then []
      else if tally.attributed || contains (node_source_paths db) file_path
      then []
      else if any_of (λ prefix. starts_with prefix file_path)
          (node_dir_source_prefixes db rule.source_root)
      then []
      else if any_of (ext.fnmatch file_path) rule.exempt
      then []
      else module_violation rule file_path tally ∷ []

  -- the body of the loop over the rules
  unfoldable pub modules_of : Database → ModuleCoverageRule → List Violation
  unfolding module_one module_coverage_state add_modules sort_by
  modules_of db rule =
      let coverage = module_coverage_state db rule.source_root in
      concat_map (module_one db rule coverage)
        (sort_by file_before (add_modules (ext.disk_modules rule.source_root) coverage))

  -- `evaluate_module_coverage_rules`
  unfoldable pub evaluate_module_coverage_rules :
      Database → List ModuleCoverageRule → List Violation
  unfolding modules_of
  evaluate_module_coverage_rules db rules = concat_map (modules_of db) rules
