-- ===== src/Graph/Rules/Cardinality.antt =====
-- `evaluate_cardinality_rules` of src/beadloom/graph/rules/evaluators.py.
use Prim.Native.String.{◌++◌ as str_append}
use beadloom.Base.{
  ℕ, String, Bool, not, ◌&&◌, Option, none, some, List, [], ◌∷◌, ◌++◌, if◌then◌else◌, ◌==◌,
  string_equality, any_of, length, ltb, keep_if, concat_map, strip_code, show,
}
use beadloom.Graph.Rules.Types.{matches, CardinalityRule, Violation}
use beadloom.Graph.Rules.Database.{NodeRow, SymbolRow, SyncRow, Database}
use beadloom.Graph.Rules.Deny.{has_tag, loaded}
use beadloom.Graph.Rules.Externals.{Externals}

-- `node_source.rstrip("/") + "/"`
abbrev pub source_prefix : String → String
source_prefix source = str_append (strip_code b'/' source) "/"

module _ {F : Type 0} (ext : Externals F) where
  unfoldable pub cardinality_violation : CardinalityRule F → NodeRow → String → Violation
  cardinality_violation rule node found = record {
    rule_name = rule.name;
    rule_description = rule.description;
    rule_type = "cardinality";
    severity = rule.severity;
    file_path = none;
    line_number = none;
    from_ref_id = some node.ref_id;
    to_ref_id = none;
    message = str_append "Node '" (
        str_append node.ref_id (
          str_append "' has "
            (str_append found (str_append ": rule '" (str_append rule.name "'")))));
    remediation = none;
  }

  -- `SELECT COUNT(*) FROM code_symbols WHERE file_path LIKE ?`
  unfoldable pub count_symbols : Database → String → ℕ
  count_symbols db prefix = length (
      keep_if (λ (row : SymbolRow). ext.like row.file_path (str_append prefix "%")) db.code_symbols)

  -- `SELECT COUNT(*) FROM file_index WHERE path LIKE ?`
  unfoldable pub count_files : Database → String → ℕ
  count_files db prefix =
      length (keep_if (λ path. ext.like path (str_append prefix "%")) db.file_index)

  -- one of the two checks of a count against its maximum
  unfoldable pub check_max :
      CardinalityRule F
      → NodeRow
      → String
      → (String → ℕ)
      → Option ℕ
      → Option String
      → List Violation
  unfolding cardinality_violation
  check_max rule node what count (some max) (some source) =
      let found = count (source_prefix source) in
      if ltb max found
      then cardinality_violation rule node (
          str_append (show found)
            (str_append what (str_append " (max " (str_append (show max) ")"))))
        ∷ []
      else []
  check_max rule node what count (some max) none = []
  check_max rule node what count none source = []

  unfoldable pub total_synced : Database → String → ℕ
  total_synced db ref_id = length (keep_if (λ (row : SyncRow). row.ref_id == ref_id) db.sync_state)

  unfoldable pub ok_synced : Database → String → ℕ
  ok_synced db ref_id =
      length
        (keep_if (λ (row : SyncRow). row.ref_id == ref_id && (row.status == "ok")) db.sync_state)

  -- `coverage`
  unfoldable pub doc_coverage : Database → String → F
  unfolding total_synced ok_synced
  doc_coverage db ref_id =
      if ltb 0 (total_synced db ref_id)
      then ext.ratio (ok_synced db ref_id) (total_synced db ref_id)
      else ext.nought

  -- the check of `min_doc_coverage`
  unfoldable pub check_coverage : Database → CardinalityRule F → NodeRow → Option F → List Violation
  unfolding cardinality_violation doc_coverage
  check_coverage db rule node none = []
  check_coverage db rule node (some min) =
      let coverage = doc_coverage db node.ref_id in
      if ext.below coverage min
      then cardinality_violation rule node (
          str_append "doc coverage " (
            str_append (ext.percent coverage)
              (str_append " (min " (str_append (ext.percent min) ")"))))
        ∷ []
      else []

  -- the body of the inner loop
  unfoldable pub cardinality_one : Bool → Database → CardinalityRule F → NodeRow → List Violation
  unfolding check_max check_coverage count_symbols count_files
  cardinality_one any_tag_rule db rule node =
      if not (matches rule.for_matcher node.ref_id node.kind (loaded any_tag_rule db node.ref_id))
      then []
      else check_max rule node " symbols" (count_symbols db) rule.max_symbols node.source
        ++ (check_max rule node " files" (count_files db) rule.max_files node.source
            ++ check_coverage db rule node rule.min_doc_coverage)

  abbrev pub any_cardinality_tag : List (CardinalityRule F) → Bool
  any_cardinality_tag rules = any_of (λ (r : CardinalityRule F). has_tag r.for_matcher) rules

  -- `evaluate_cardinality_rules`
  unfoldable pub evaluate_cardinality_rules : Database → List (CardinalityRule F) → List Violation
  unfolding cardinality_one
  evaluate_cardinality_rules db rules =
      concat_map (λ rule. concat_map (cardinality_one (any_cardinality_tag rules) db rule) db.nodes)
        rules
