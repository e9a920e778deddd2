-- ===== src/Graph/Rules/Conformance/Imports.antt =====
-- Which imports break a rule: `evaluate_deny_rules` and `evaluate_import_boundary_rules` of
-- src/beadloom/graph/rules/evaluators.py.
use mathlib.Core.Logic.Iff
use beadloom.Base.{
  String, Bool, true, false, not, ◌&&◌, ◌||◌, Option, none, some, List, [], ◌∷◌, ◌≡◌, refl, ◌≢◌,
  ◌↔◌, inl, inr, ◌==◌, string_equality, eq_iff, arith, sym, All, All-iff, All-iff_on, All-swap,
  any_of_covers, concat_map-eq-nil_iff, any_of-false_iff, All-true, unless-not_iff, unless-one_iff,
  unless-not-one_iff, is_empty, Bool-cases,
}
use beadloom.Graph.Rules.Types.{DenyRule, ImportBoundaryRule}
use beadloom.Graph.Rules.Database.{
  NodeRow, EdgeRow, ImportRow, Database, get_node, edge_exists, get_file_node,
}
use beadloom.Graph.Rules.Externals.{Externals}
use beadloom.Graph.Rules.Deny.{
  has_tag, any_deny_tag, deny_violation, deny_one, deny_between, deny_resolved, deny_import,
  evaluate_deny_rules,
}
use beadloom.Graph.Rules.ImportBoundary.{
  boundary_violation, boundary_one, import_path_to_file_path, evaluate_import_boundary_rules,
}
use beadloom.Graph.Rules.Selection.{Selects, OnBoth, matches_iff}

-- The rule forbids imports between the nodes, and no edge of a kind that it exempts joins them.
abbrev pub Denies : Database → DenyRule → NodeRow → NodeRow → Type 0
Denies db rule source target =
    Selects db rule.from_matcher source.ref_id source.kind
    × (Selects db rule.to_matcher target.ref_id target.kind
        × (edge_exists db source.ref_id target.ref_id rule.unless_edge ≡ false))

-- The file and the target of the import belong to different nodes, between which the rule forbids imports.
abbrev pub IsDenied : Database → DenyRule → ImportRow → Type 0
IsDenied db rule imp =
    OnBoth
      (λ source target.
        (source ≢ target) × OnBoth (Denies db rule) (get_node db source) (get_node db target))
      (get_file_node db imp.file_path) imp.resolved_ref_id

edge_exists-nil :
    (db : Database) (src dst : String) (kinds : List String)
    → (not (is_empty kinds) && edge_exists db src dst kinds) ≡ edge_exists db src dst kinds
unfolding edge_exists
edge_exists-nil db src dst [] =
    sym ((any_of-false_iff _ db.edges).1 (All-true (λ (row : EdgeRow). ground arith) db.edges))
edge_exists-nil db src dst (kind ∷ kinds) = refl

deny_one-eq-nil_iff :
    (any_tag_rule : Bool) (db : Database) (imp : ImportRow) (source target : NodeRow)
    (rule : DenyRule)
    → ((has_tag rule.from_matcher || has_tag rule.to_matcher) ≡ true → any_tag_rule ≡ true)
    → (deny_one any_tag_rule db imp source target rule ≡ []) ↔ ¬ Denies db rule source target
unfolding deny_one
deny_one-eq-nil_iff any_tag_rule db imp source target rule h =
    unless-not_iff _ _
      (matches_iff db rule.from_matcher any_tag_rule source.ref_id source.kind
        (λ e. h (ground (arith, e))))
      (unless-not_iff _ _
        (matches_iff db rule.to_matcher any_tag_rule target.ref_id target.kind
          (λ e. h (ground (arith, e))))
        (unless-one_iff _ (deny_violation rule imp source.ref_id target.ref_id)
          (rw (edge_exists-nil db source.ref_id target.ref_id rule.unless_edge) Iff.rfl)))

-- Some rule of the list has a tag if the rule has one.
abbrev IsCovered : Bool → DenyRule → Type 0
IsCovered any_tag_rule rule =
    (has_tag rule.from_matcher || has_tag rule.to_matcher) ≡ true → any_tag_rule ≡ true

deny_between-eq-nil_iff :
    (any_tag_rule : Bool) (db : Database) (imp : ImportRow) (rules : List DenyRule)
    (source target : Option NodeRow)
    → All (IsCovered any_tag_rule) rules
    → (deny_between any_tag_rule db imp rules source target ≡ [])
      ↔ All (λ rule. ¬ OnBoth (Denies db rule) source target) rules
unfolding deny_between
deny_between-eq-nil_iff any_tag_rule db imp rules (some source) (some target) h =
    Iff.trans (concat_map-eq-nil_iff (deny_one any_tag_rule db imp source target) rules)
      (All-iff_on (deny_one-eq-nil_iff any_tag_rule db imp source target) rules h)
deny_between-eq-nil_iff any_tag_rule db imp rules (some source) none h =
    (λ _. All-true (λ _ n. n) rules, λ _. refl)
deny_between-eq-nil_iff any_tag_rule db imp rules none target h =
    (λ _. All-true (λ _ n. n) rules, λ _. refl)

deny_resolved-eq-nil_iff :
    (any_tag_rule : Bool) (db : Database) (imp : ImportRow) (rules : List DenyRule)
    (source target : Option String)
    → All (IsCovered any_tag_rule) rules
    → (deny_resolved any_tag_rule db imp rules source target ≡ [])
      ↔ All
          (λ rule.
            ¬ OnBoth
              (λ a b. (a ≢ b) × OnBoth (Denies db rule) (get_node db a) (get_node db b))
              source
              target)
          rules
unfolding deny_resolved
deny_resolved-eq-nil_iff any_tag_rule db imp rules (some a) (some b) h =
    let found =
      deny_between-eq-nil_iff any_tag_rule db imp rules (get_node db a) (get_node db b) h in
    elim (Bool-cases (a == b)) [
      | inl e ↦ rw e (λ _. All-true (λ _ n. n.0 ((eq_iff a b).0 e)) rules, λ _. refl)
      | inr e ↦
          let other : a ≢ b = λ same. absurd (ground (arith, e, (eq_iff a b).1 same)) in
          rw e (Iff.trans found (All-iff (λ rule. (λ n k. n k.1, λ n k. n (other, k))) rules))
    ]
deny_resolved-eq-nil_iff any_tag_rule db imp rules (some a) none h =
    (λ _. All-true (λ _ n. n) rules, λ _. refl)
deny_resolved-eq-nil_iff any_tag_rule db imp rules none b h =
    (λ _. All-true (λ _ n. n) rules, λ _. refl)

-- Nothing is reported exactly when no rule denies an import.
pub evaluate_deny_rules-eq-nil_iff :
    (db : Database) (rules : List DenyRule)
    → (evaluate_deny_rules db rules ≡ [])
      ↔ All (λ rule. All (λ imp. ¬ IsDenied db rule imp) db.code_imports) rules
unfolding evaluate_deny_rules deny_import
evaluate_deny_rules-eq-nil_iff db rules =
    Iff.trans (concat_map-eq-nil_iff (deny_import (any_deny_tag rules) db rules) db.code_imports) (
      Iff.trans
        (All-iff
          (λ imp.
            deny_resolved-eq-nil_iff (any_deny_tag rules) db imp rules
              (get_file_node db imp.file_path) imp.resolved_ref_id (any_of_covers _ rules))
          db.code_imports)
        (All-swap (λ imp rule. ¬ IsDenied db rule imp) db.code_imports rules))

-- The file and the module that it imports match the two globs of the rule.
abbrev pub Crosses : {F : Type 0} → Externals F → ImportBoundaryRule → ImportRow → Type 0
Crosses ext rule imp =
    (ext.fnmatch imp.file_path rule.from_glob ≡ true)
    × (ext.fnmatch (import_path_to_file_path imp.import_path) rule.to_glob ≡ true)

-- Nothing is reported exactly when no import crosses a boundary.
pub evaluate_import_boundary_rules-eq-nil_iff :
    {F : Type 0} (ext : Externals F) (db : Database) (rules : List ImportBoundaryRule)
    → (evaluate_import_boundary_rules ext db rules ≡ [])
      ↔ All (λ rule. All (λ imp. ¬ Crosses ext rule imp) db.code_imports) rules
unfolding evaluate_import_boundary_rules boundary_one
evaluate_import_boundary_rules-eq-nil_iff ext db rules =
    Iff.trans (concat_map-eq-nil_iff _ db.code_imports) (
      Iff.trans
        (All-iff
          (λ imp. Iff.trans (concat_map-eq-nil_iff (boundary_one ext imp) rules) (
            All-iff
              (λ rule.
                unless-not_iff _ _ Iff.rfl
                  (unless-not-one_iff _ (boundary_violation rule imp) Iff.rfl))
              rules))
          db.code_imports)
        (All-swap (λ imp rule. ¬ Crosses ext rule imp) db.code_imports rules))
