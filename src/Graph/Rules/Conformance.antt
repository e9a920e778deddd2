-- ===== src/Graph/Rules/Conformance.antt =====
-- What `evaluate_all` of src/beadloom/graph/rules/__init__.py promises: a specification of each kind of rule as a
-- relation on the tables, against which the evaluators are checked.
pub mod Imports
pub mod Edges
pub mod Counts
pub mod Files
mod Tests
use native.Mathlib.Omega.{arith}
use mathlib.Core.Logic.Iff
use beadloom.Base.{
  String, List, [], ◌∷◌, ◌++◌, ◌≡◌, refl, ◌↔◌, All, All-iff, All-concat_map_iff, map,
  map-eq-nil_iff, concat_map, append-both_iff, sort_by-eq-nil_iff,
}
use beadloom.Graph.Rules.Types.{
  Rule, deny, require, cycle, import_boundary, forbid_edge, layer, cardinality, feature_candidate,
  module_coverage, CycleRule, LayerRule, Violation,
}
use beadloom.Graph.Rules.Database.{NodeRow, EdgeRow, ImportRow, Database}
use beadloom.Graph.Rules.Externals.{Externals}
use beadloom.Graph.Rules.Cycles.{build_adjacency}
use beadloom.Graph.Rules.Cycles.Bounded.{IsShortCycle, evaluate_cycle_rules-eq-nil_iff}
use beadloom.Graph.Rules.Evaluate.{
  live_rows, deny_of, require_of, cycle_of, boundary_of, forbid_of, layer_rule_of, cardinality_of,
  candidate_of, coverage_of, violation_before, with_remediation, found_violations, evaluate_all,
}
use beadloom.Graph.Rules.Conformance.Imports.{
  IsDenied, Crosses, evaluate_deny_rules-eq-nil_iff, evaluate_import_boundary_rules-eq-nil_iff,
}
use beadloom.Graph.Rules.Conformance.Edges.{
  IsUnserved, IsForbidden, BreaksLayers, evaluate_require_rules-eq-nil_iff,
  evaluate_forbid_edge_rules-eq-nil_iff, evaluate_layer_rules-eq-nil_iff,
}
use beadloom.Graph.Rules.Conformance.Counts.{
  Exceeds, HasCandidate, IsUncovered, files_of, evaluate_cardinality_rules-eq-nil_iff,
  evaluate_feature_candidate_rules-eq-nil_iff, evaluate_module_coverage_rules-eq-nil_iff,
}

module _ {F : Type 0} (ext : Externals F) where
  -- What a rule asks of the tables.
  abbrev pub Conforms : Database → Rule F → Type 0
  Conforms db (deny r) = All (λ (imp : ImportRow). ¬ IsDenied db r imp) db.code_imports
  Conforms db (require r) = All (λ (node : NodeRow). ¬ IsUnserved db r node) db.nodes
  Conforms db (cycle r) =
      (nodes : List String) → ¬ IsShortCycle (build_adjacency (live_rows db r.edge_kinds)) r nodes
  Conforms db (import_boundary r) = All (λ (imp : ImportRow). ¬ Crosses ext r imp) db.code_imports
  Conforms db (forbid_edge r) = All (λ (row : EdgeRow). ¬ IsForbidden db r row) db.edges
  Conforms db (layer r) = All (λ (row : EdgeRow). ¬ BreaksLayers db r row) db.edges
  Conforms db (cardinality r) = All (λ (node : NodeRow). ¬ Exceeds ext db r node) db.nodes
  Conforms db (feature_candidate r) =
      All (λ (node : NodeRow). ¬ HasCandidate ext db r node) db.nodes
  Conforms db (module_coverage r) = All (λ file. ¬ IsUncovered ext db r file) (files_of ext db r)

  rules_iff :
      {R : Type 0} (P : R → Type 0) (part : Rule F → List R) (rules : List (Rule F)) {Q : Type 0}
      → Q ↔ All P (concat_map part rules)
      → Q ↔ All (λ rule. All P (part rule)) rules
  rules_iff P part rules h = Iff.trans h (All-concat_map_iff P part rules)

  -- The requirements of the parts, of which a rule belongs to one.
  parts_iff :
      (db : Database) (rule : Rule F)
      → (All (λ r. All (λ imp. ¬ IsDenied db r imp) db.code_imports) (deny_of rule)
          × (All (λ r. All (λ node. ¬ IsUnserved db r node) db.nodes) (require_of rule)
              × (All
                    (λ (r : CycleRule).
                      (nodes : List String)
                      → ¬ IsShortCycle (build_adjacency (live_rows db r.edge_kinds)) r nodes)
                    (cycle_of rule)
                  × (All (λ r. All (λ imp. ¬ Crosses ext r imp) db.code_imports) (boundary_of rule)
                      × (All (λ r. All (λ row. ¬ IsForbidden db r row) db.edges) (forbid_of rule)
                          × (All
                                (λ (r : LayerRule). All (λ row. ¬ BreaksLayers db r row) db.edges)
                                (layer_rule_of rule)
                              × (All
                                    (λ r. All (λ node. ¬ Exceeds ext db r node) db.nodes)
                                    (cardinality_of rule)
                                  × (All
                                        (λ r. All (λ node. ¬ HasCandidate ext db r node) db.nodes)
                                        (candidate_of rule)
                                      × All
                                          (λ r.
                                            All
                                              (λ file. ¬ IsUncovered ext db r file)
                                              (files_of ext db r))
                                          (coverage_of rule)))))))))
        ↔ Conforms db rule
  parts_iff db (deny r) = (λ h. h.0.0, λ h. ((h, tt), (tt, (tt, (tt, (tt, (tt, (tt, (tt, tt)))))))))
  parts_iff db (require r) =
      (λ h. h.1.0.0, λ h. (tt, ((h, tt), (tt, (tt, (tt, (tt, (tt, (tt, tt)))))))))
  parts_iff db (cycle r) =
      (λ h. h.1.1.0.0, λ h. (tt, (tt, ((h, tt), (tt, (tt, (tt, (tt, (tt, tt)))))))))
  parts_iff db (import_boundary r) =
      (λ h. h.1.1.1.0.0, λ h. (tt, (tt, (tt, ((h, tt), (tt, (tt, (tt, (tt, tt)))))))))
  parts_iff db (forbid_edge r) =
      (λ h. h.1.1.1.1.0.0, λ h. (tt, (tt, (tt, (tt, ((h, tt), (tt, (tt, (tt, tt)))))))))
  parts_iff db (layer r) =
      (λ h. h.1.1.1.1.1.0.0, λ h. (tt, (tt, (tt, (tt, (tt, ((h, tt), (tt, (tt, tt)))))))))
  parts_iff db (cardinality r) =
      (λ h. h.1.1.1.1.1.1.0.0, λ h. (tt, (tt, (tt, (tt, (tt, (tt, ((h, tt), (tt, tt)))))))))
  parts_iff db (feature_candidate r) =
      (λ h. h.1.1.1.1.1.1.1.0.0, λ h. (tt, (tt, (tt, (tt, (tt, (tt, (tt, ((h, tt), tt)))))))))
  parts_iff db (module_coverage r) =
      (λ h. h.1.1.1.1.1.1.1.1.0, λ h. (tt, (tt, (tt, (tt, (tt, (tt, (tt, (tt, (h, tt))))))))))

  found_violations-eq-nil_iff :
      (db : Database) (rules : List (Rule F))
      → (found_violations ext db rules ≡ []) ↔ All (Conforms db) rules
  unfolding found_violations
  found_violations-eq-nil_iff db rules =
      Iff.trans
        (append-both_iff _ _ rules (rules_iff _ deny_of rules (evaluate_deny_rules-eq-nil_iff db _))
          (append-both_iff _ _ rules
            (rules_iff _ require_of rules (evaluate_require_rules-eq-nil_iff db _))
            (append-both_iff _ _ rules
              (rules_iff _ cycle_of rules (evaluate_cycle_rules-eq-nil_iff (live_rows db) _))
              (append-both_iff _ _ rules
                (rules_iff _ boundary_of rules (evaluate_import_boundary_rules-eq-nil_iff ext db _))
                (append-both_iff _ _ rules
                  (rules_iff _ forbid_of rules (evaluate_forbid_edge_rules-eq-nil_iff db _))
                  (append-both_iff _ _ rules
                    (rules_iff _ layer_rule_of rules (evaluate_layer_rules-eq-nil_iff db _))
                    (append-both_iff _ _ rules
                      (rules_iff _ cardinality_of rules
                        (evaluate_cardinality_rules-eq-nil_iff ext db _))
                      (append-both_iff _ _ rules
                        (rules_iff _ candidate_of rules
                          (evaluate_feature_candidate_rules-eq-nil_iff ext db _))
                        (rules_iff _ coverage_of rules
                          (evaluate_module_coverage_rules-eq-nil_iff ext db _))))))))))
        (All-iff (parts_iff db) rules)

  -- The evaluators report nothing exactly when the tables satisfy the specification of every rule: imports and
  -- edges join no nodes that a rule keeps apart, each node has the edges that a rule requires, the live edges form
  -- no simple cycle of at most as many nodes as the depth of a rule, or one, no live edge runs against the layers, no
  -- node exceeds its limits, and no file is an unregistered candidate or unaccounted for.
  pub evaluate_all-Conforms :
      (db : Database) (rules : List (Rule F))
      → (evaluate_all ext db rules ≡ []) ↔ All (Conforms db) rules
  unfolding evaluate_all
  evaluate_all-Conforms db rules =
      let found = found_violations ext db rules in
      Iff.trans (sort_by-eq-nil_iff violation_before (map with_remediation found))
        (Iff.trans (map-eq-nil_iff with_remediation found) (found_violations-eq-nil_iff db rules))
