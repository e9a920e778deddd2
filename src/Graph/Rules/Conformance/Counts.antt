-- ===== src/Graph/Rules/Conformance/Counts.antt =====
-- Which nodes and files break a rule: `evaluate_cardinality_rules`,
-- `evaluate_unregistered_feature_candidate_rules` and `evaluate_module_coverage_rules` of
-- src/beadloom/graph/rules/evaluators.py.
use mathlib.Core.Logic.Iff
use beadloom.Base.{
  ℕ, ◌<◌, String, Bool, true, false, ◌&&◌, ◌||◌, Option, none, some, List, [], ◌∷◌, ◌≡◌, refl, ◌↔◌,
  ◌⊎◌, string_equality, nat_equality, contains, arith, if◌then◌else◌, ltb, ltb_iff, All, All-iff,
  All-iff_on, any_of_covers, concat_map-eq-nil_iff, append-eq-nil_iff, any_of-false_iff, unless_iff,
  unless-not_iff, unless-one_iff, neither_iff, keys, starts_with, sort_by, All-sort_by_iff,
  All-not_iff,
}
use beadloom.Graph.Rules.Types.{matches, CardinalityRule, FeatureCandidateRule, ModuleCoverageRule}
use beadloom.Graph.Rules.Database.{NodeRow, Database}
use beadloom.Graph.Rules.Externals.{Externals}
use beadloom.Graph.Rules.Deny.{has_tag}
use beadloom.Graph.Rules.Cardinality.{
  source_prefix, count_symbols, count_files, check_max, doc_coverage, check_coverage,
  any_cardinality_tag, cardinality_one, evaluate_cardinality_rules,
}
use beadloom.Graph.Rules.Modules.{
  Tally, candidate_violation, candidate_files, candidate_one, candidates_under, candidates_of,
  evaluate_feature_candidate_rules, node_source_paths, node_dir_source_prefixes, module_violation,
  add_modules, module_coverage_state, module_one, modules_of, evaluate_module_coverage_rules,
  file_before,
}
use beadloom.Graph.Rules.Conformance.Files.{
  Holds, IsSourceOf, node_source_paths_iff, node_dir_source_prefixes_iff, Survives, IsCandidate,
  candidate_files-Any_iff,
}
use beadloom.Graph.Rules.Selection.{Selects, OnBoth, OnOne, matches_iff}

module _ {F : Type 0} (ext : Externals F) where
  -- More than the maximum stands under the directory of the node.
  abbrev pub IsOver : (String → ℕ) → Option ℕ → Option String → Type 0
  IsOver count max source = OnBoth (λ m s. m < count (source_prefix s)) max source

  -- The rule is about the node, which has too many symbols, too many files or too little documentation.
  abbrev pub Exceeds : Database → CardinalityRule F → NodeRow → Type 0
  Exceeds db rule node =
      Selects db rule.for_matcher node.ref_id node.kind
      × (IsOver (count_symbols ext db) rule.max_symbols node.source
          ⊎ (IsOver (count_files ext db) rule.max_files node.source
              ⊎ OnOne (λ min. ext.below (doc_coverage ext db node.ref_id) min ≡ true)
                  rule.min_doc_coverage))

  report_iff :
      {A P : Type 0} (t : Bool) (x : A) → (t ≡ true) ↔ P → ((if t then x ∷ [] else []) ≡ []) ↔ ¬ P
  report_iff true x h = (λ e. absurd (ground (arith, e)), λ n. absurd (n (h.0 refl)))
  report_iff false x h = (λ _ p. absurd (ground (arith, h.1 p)), λ _. refl)

  check_max-eq-nil_iff :
      (rule : CardinalityRule F) (node : NodeRow) (what : String) (count : String → ℕ)
      (max : Option ℕ) (source : Option String)
      → (check_max ext rule node what count max source ≡ []) ↔ ¬ IsOver count max source
  unfolding check_max
  check_max-eq-nil_iff rule node what count (some max) (some source) =
      report_iff _ _ (ltb_iff max (count (source_prefix source)))
  check_max-eq-nil_iff rule node what count (some max) none = (λ _ n. n, λ _. refl)
  check_max-eq-nil_iff rule node what count none source = (λ _ n. n, λ _. refl)

  check_coverage-eq-nil_iff :
      (db : Database) (rule : CardinalityRule F) (node : NodeRow) (min : Option F)
      → (check_coverage ext db rule node min ≡ [])
        ↔ ¬ OnOne (λ m. ext.below (doc_coverage ext db node.ref_id) m ≡ true) min
  unfolding check_coverage
  check_coverage-eq-nil_iff db rule node none = (λ _ n. n, λ _. refl)
  check_coverage-eq-nil_iff db rule node (some min) = report_iff _ _ Iff.rfl

  cardinality_one-eq-nil_iff :
      (any_tag_rule : Bool) (db : Database) (rule : CardinalityRule F) (node : NodeRow)
      → (has_tag rule.for_matcher ≡ true → any_tag_rule ≡ true)
      → (cardinality_one ext any_tag_rule db rule node ≡ []) ↔ ¬ Exceeds db rule node
  unfolding cardinality_one
  cardinality_one-eq-nil_iff any_tag_rule db rule node h =
      unless-not_iff _ _ (matches_iff db rule.for_matcher any_tag_rule node.ref_id node.kind h) (
        Iff.trans (append-eq-nil_iff _ _) (
          Iff.trans
            (Iff.and
              (check_max-eq-nil_iff rule node " symbols" (count_symbols ext db) rule.max_symbols
                node.source)
              (Iff.trans (append-eq-nil_iff _ _) (
                Iff.trans
                  (Iff.and
                    (check_max-eq-nil_iff rule node " files" (count_files ext db) rule.max_files
                      node.source)
                    (check_coverage-eq-nil_iff db rule node rule.min_doc_coverage))
                  neither_iff)))
            neither_iff))

  -- Nothing is reported exactly when no node exceeds what a rule allows.
  pub evaluate_cardinality_rules-eq-nil_iff :
      (db : Database) (rules : List (CardinalityRule F))
      → (evaluate_cardinality_rules ext db rules ≡ [])
        ↔ All (λ rule. All (λ node. ¬ Exceeds db rule node) db.nodes) rules
  unfolding evaluate_cardinality_rules
  evaluate_cardinality_rules-eq-nil_iff db rules = Iff.trans (concat_map-eq-nil_iff _ rules) (
      All-iff_on
        (λ rule h.
          Iff.trans
            (concat_map-eq-nil_iff (cardinality_one ext (any_cardinality_tag ext rules) db rule)
              db.nodes)
            (All-iff
              (λ node. cardinality_one-eq-nil_iff (any_cardinality_tag ext rules) db rule node h)
              db.nodes))
        rules (any_of_covers _ rules))

  -- The rule is about the node, and a file under its directory is a candidate.
  abbrev pub HasCandidate : Database → FeatureCandidateRule → NodeRow → Type 0
  HasCandidate db rule node =
      (matches rule.for_matcher node.ref_id node.kind none ≡ true)
      × OnOne
          (λ source.
            (file : String) × IsCandidate ext db rule node.ref_id (source_prefix source) file)
          node.source

  candidate_one-eq-nil_iff :
      (rule : FeatureCandidateRule) (node : NodeRow) (prefix : String) (file : String × Tally)
      → (candidate_one ext rule node prefix file ≡ []) ↔ ¬ Survives ext rule file.0 file.1.count
  unfolding candidate_one
  candidate_one-eq-nil_iff rule node prefix (file_path, tally) = unless_iff _ _ Iff.rfl (
      unless-one_iff _ (candidate_violation rule node prefix file_path tally)
        (any_of-false_iff (ext.fnmatch file_path) rule.exclude))

  negated_iff : {P Q : Type 0} → P ↔ Q → (¬ P) ↔ (¬ Q)
  negated_iff h = (λ n q. n (h.1 q), λ n p. n (h.0 p))

  candidates_under-eq-nil_iff :
      (db : Database) (rule : FeatureCandidateRule) (node : NodeRow) (source : Option String)
      → (candidates_under ext db rule node source ≡ [])
        ↔ ¬ OnOne
            (λ s. (file : String) × IsCandidate ext db rule node.ref_id (source_prefix s) file)
            source
  unfolding candidates_under
  candidates_under-eq-nil_iff db rule node none = (λ _ n. n, λ _. refl)
  candidates_under-eq-nil_iff db rule node (some source) =
      let files = candidate_files ext db node.ref_id (source_prefix source) in
      Iff.trans (concat_map-eq-nil_iff (candidate_one ext rule node (source_prefix source)) files) (
        Iff.trans (All-iff (candidate_one-eq-nil_iff rule node (source_prefix source)) files) (
          Iff.trans
            (All-not_iff (λ (file : String × Tally). Survives ext rule file.0 file.1.count) files)
            (negated_iff (candidate_files-Any_iff ext db rule node.ref_id (source_prefix source)))))

  -- Nothing is reported exactly when no node that a rule is about has a candidate.
  pub evaluate_feature_candidate_rules-eq-nil_iff :
      (db : Database) (rules : List FeatureCandidateRule)
      → (evaluate_feature_candidate_rules ext db rules ≡ [])
        ↔ All (λ rule. All (λ node. ¬ HasCandidate db rule node) db.nodes) rules
  unfolding evaluate_feature_candidate_rules candidates_of
  evaluate_feature_candidate_rules-eq-nil_iff db rules = Iff.trans (concat_map-eq-nil_iff _ rules) (
      All-iff
        (λ rule. Iff.trans (concat_map-eq-nil_iff (candidates_of ext db rule) db.nodes) (
          All-iff
            (λ node.
              unless-not_iff _ _ Iff.rfl (candidates_under-eq-nil_iff db rule node node.source))
            db.nodes))
        rules)

  -- The file has enough symbols or none, and neither an annotation nor a node nor the rule accounts for it. A node
  -- accounts for its source, or for what its directory holds.
  abbrev pub IsUncovered : Database → ModuleCoverageRule → String × Tally → Type 0
  IsUncovered db rule (file_path, tally) =
      ((ltb tally.count rule.min_symbols
          && contains (keys (module_coverage_state ext db rule.source_root)) file_path)
        ≡ false)
      × (((tally.attributed ≡ false) × All (λ node. ¬ IsSourceOf file_path node) db.nodes)
          × (All (λ node. ¬ Holds rule.source_root file_path node) db.nodes
              × All (λ pattern. ext.fnmatch file_path pattern ≡ false) rule.exempt))

  -- the files of the database and of the disk
  abbrev pub files_of : Database → ModuleCoverageRule → List (String × Tally)
  files_of db rule =
      add_modules (ext.disk_modules rule.source_root)
        (module_coverage_state ext db rule.source_root)

  or-eq-false_iff : (b c : Bool) → ((b || c) ≡ false) ↔ ((b ≡ false) × (c ≡ false))
  or-eq-false_iff b c = ground arith

  module_one-eq-nil_iff :
      (db : Database) (rule : ModuleCoverageRule) (file : String × Tally)
      → (module_one ext db rule (module_coverage_state ext db rule.source_root) file ≡ [])
        ↔ ¬ IsUncovered db rule file
  unfolding module_one
  module_one-eq-nil_iff db rule (file_path, tally) = unless_iff _ _ Iff.rfl (
      unless_iff _ _
        (Iff.trans (or-eq-false_iff tally.attributed (contains (node_source_paths db) file_path))
          (Iff.and Iff.rfl (node_source_paths_iff db file_path)))
        (unless_iff _ _
          (Iff.trans
            (any_of-false_iff (λ prefix. starts_with prefix file_path)
              (node_dir_source_prefixes db rule.source_root))
            (node_dir_source_prefixes_iff db rule.source_root file_path))
          (unless-one_iff _ (module_violation rule file_path tally)
            (any_of-false_iff (ext.fnmatch file_path) rule.exempt))))

  -- Nothing is reported exactly when every file is accounted for.
  pub evaluate_module_coverage_rules-eq-nil_iff :
      (db : Database) (rules : List ModuleCoverageRule)
      → (evaluate_module_coverage_rules ext db rules ≡ [])
        ↔ All (λ rule. All (λ file. ¬ IsUncovered db rule file) (files_of db rule)) rules
  unfolding evaluate_module_coverage_rules modules_of
  evaluate_module_coverage_rules-eq-nil_iff db rules =
      Iff.trans (concat_map-eq-nil_iff (modules_of ext db) rules) (
        All-iff
          (λ rule. Iff.trans (concat_map-eq-nil_iff _ (sort_by file_before (files_of db rule))) (
            Iff.trans
              (All-iff (module_one-eq-nil_iff db rule) (sort_by file_before (files_of db rule)))
              (All-sort_by_iff _ file_before (files_of db rule))))
          rules)
