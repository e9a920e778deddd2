-- ===== src/Graph/Rules/Evaluate.antt =====
-- `evaluate_all` of src/beadloom/graph/rules/__init__.py: every rule against the database, with a hint for each
-- violation, in one order. The proofs are in the modules below.
use Prim.Native.Nat.{Ordering}
use Prim.Native.String.{compare, ◌++◌ as str_append}
use beadloom.Base.{
  String, Bool, true, false, ◌||◌, Option, none, some, List, [], ◌∷◌, ◌++◌, map, if◌then◌else◌,
  ◌==◌, string_equality, is_blank, sort_by, concat_map,
}
use beadloom.Graph.Rules.Types.{
  DenyRule, RequireRule, CycleRule, ImportBoundaryRule, ForbidEdgeRule, LayerRule, CardinalityRule,
  FeatureCandidateRule, ModuleCoverageRule, Rule, deny, require, cycle, import_boundary,
  forbid_edge, layer, cardinality, feature_candidate, module_coverage, Violation,
}
use beadloom.Graph.Rules.Database.{EdgeRow, Database}
use beadloom.Graph.Rules.Externals.{Externals}
use beadloom.Graph.Rules.Deny.{evaluate_deny_rules}
use beadloom.Graph.Rules.Require.{evaluate_require_rules}
use beadloom.Graph.Rules.ForbidEdge.{evaluate_forbid_edge_rules}
use beadloom.Graph.Rules.ImportBoundary.{evaluate_import_boundary_rules}
use beadloom.Graph.Rules.Layers.{live_edges, evaluate_layer_rules}
use beadloom.Graph.Rules.Cardinality.{evaluate_cardinality_rules}
use beadloom.Graph.Rules.Modules.{evaluate_feature_candidate_rules, evaluate_module_coverage_rules}
use beadloom.Graph.Rules.Cycles.{evaluate_cycle_rules}

-- `a or default`
abbrev text_or : Option String → String → String
text_or none default = default
text_or (some a) default = if is_blank a then default else a

abbrev quoted : String → String
quoted s = str_append "`" (str_append s "`")

abbrev arrow : String → String → String
arrow src dst = quoted (str_append src (str_append " -> " dst))

-- `_remediation_for`
unfoldable pub remediation_for : String → Violation → Option String
remediation_for rule_type v =
    let src = text_or v.from_ref_id "<source>" in
    let dst = text_or v.to_ref_id "<target>" in
    let loc = text_or v.file_path src in
    if rule_type == "deny" || rule_type == "forbid_import"
    then some (
        str_append "remove the import " (
          str_append (arrow src dst) (
            str_append " in "
              (str_append (quoted loc) ", or route it through an allowed intermediary"))))
    else if rule_type == "forbid"
    then some (
        str_append "remove the edge "
          (str_append (arrow src dst) ", or route it via an allowed node"))
    else if rule_type == "cycle"
    then some (str_append "break the cycle by removing the edge " (arrow src dst))
    else if rule_type == "layer"
    then some (
        str_append (quoted src) (
          str_append " must not depend on upper-layer "
            (str_append (quoted dst) "; invert the dependency or extract a shared abstraction")))
    else if rule_type == "cardinality"
    then some (
        str_append (quoted src) (
          str_append " exceeds its limit ("
            (str_append v.message "); split it into smaller nodes")))
    else if rule_type == "require"
    then some (
        str_append "add the required edge from "
          (str_append (quoted src) " to a matching target node"))
    else if rule_type == "unregistered_feature_candidate"
    then some (
        str_append "model " (
          str_append (quoted loc)
            " as a feature (add a node + `# beadloom:feature=` annotation + SPEC.md), or accept it as domain-level plumbing (list it in the domain README and add it to the rule's `exclude`)"))
    else if rule_type == "module_coverage"
    then some (
        str_append "classify " (
          str_append (quoted loc)
            ": model it as a feature or component (add a node + `# beadloom:feature=`/`# beadloom:component=` annotation + a doc), or add its path to the rule's `exempt` list if it is trivial glue"))
    else none

-- `_with_remediation`
unfoldable pub with_remediation : Violation → Violation
unfolding remediation_for
with_remediation v = record v { remediation = remediation_for v.rule_type v }

module _ {F : Type 0} where
  abbrev pub deny_of : Rule F → List DenyRule
  deny_of (deny r) = r ∷ []
  deny_of _ = []

  abbrev pub require_of : Rule F → List RequireRule
  require_of (require r) = r ∷ []
  require_of _ = []

  abbrev pub cycle_of : Rule F → List CycleRule
  cycle_of (cycle r) = r ∷ []
  cycle_of _ = []

  abbrev pub boundary_of : Rule F → List ImportBoundaryRule
  boundary_of (import_boundary r) = r ∷ []
  boundary_of _ = []

  abbrev pub forbid_of : Rule F → List ForbidEdgeRule
  forbid_of (forbid_edge r) = r ∷ []
  forbid_of _ = []

  abbrev pub layer_rule_of : Rule F → List LayerRule
  layer_rule_of (layer r) = r ∷ []
  layer_rule_of _ = []

  abbrev pub cardinality_of : Rule F → List (CardinalityRule F)
  cardinality_of (cardinality r) = r ∷ []
  cardinality_of _ = []

  abbrev pub candidate_of : Rule F → List FeatureCandidateRule
  candidate_of (feature_candidate r) = r ∷ []
  candidate_of _ = []

  abbrev pub coverage_of : Rule F → List ModuleCoverageRule
  coverage_of (module_coverage r) = r ∷ []
  coverage_of _ = []

-- The rows of the query of `_build_adjacency`.
abbrev pub live_rows : Database → List String → List (String × String)
live_rows db kinds = map (λ (row : EdgeRow). (row.src_ref_id, row.dst_ref_id)) (live_edges db kinds)

abbrev before : Ordering → Bool → Bool
before Ordering.lt rest = true
before Ordering.eq rest = rest
before Ordering.gt rest = false

-- the order of `(v.rule_name, v.file_path or "")`
unfoldable pub violation_before : Violation → Violation → Bool
violation_before v w =
    before (compare v.rule_name w.rule_name)
      (before (compare (text_or v.file_path "") (text_or w.file_path "")) false)

module _ {F : Type 0} (ext : Externals F) where
  -- The violations before they are sorted and get their hints.
  unfoldable pub found_violations : Database → List (Rule F) → List Violation
  found_violations db rules =
      evaluate_deny_rules db (concat_map deny_of rules)
      ++ (evaluate_require_rules db (concat_map require_of rules)
          ++ (evaluate_cycle_rules (live_rows db) (concat_map cycle_of rules)
              ++ (evaluate_import_boundary_rules ext db (concat_map boundary_of rules)
                  ++ (evaluate_forbid_edge_rules db (concat_map forbid_of rules)
                      ++ (evaluate_layer_rules db (concat_map layer_rule_of rules)
                          ++ (evaluate_cardinality_rules ext db (concat_map cardinality_of rules)
                              ++ (evaluate_feature_candidate_rules ext db
                                    (concat_map candidate_of rules)
                                  ++ evaluate_module_coverage_rules ext db
                                      (concat_map coverage_of rules))))))))

  -- `evaluate_all`
  unfoldable pub evaluate_all : Database → List (Rule F) → List Violation
  unfolding found_violations violation_before with_remediation
  evaluate_all db rules =
      sort_by violation_before (map with_remediation (found_violations db rules))
