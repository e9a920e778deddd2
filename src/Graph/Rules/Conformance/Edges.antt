-- ===== src/Graph/Rules/Conformance/Edges.antt =====
-- Which nodes and edges break a rule: `evaluate_require_rules`, `evaluate_forbid_edge_rules` and
-- `evaluate_layer_rules` of src/beadloom/graph/rules/evaluators.py.
use mathlib.Core.Logic.Iff
use beadloom.Base.{String}
use beadloom.Base.{
  ℕ, ◌+◌, ◌<◌, Bool, true, false, ◌||◌, Option, none, some, List, [], ◌∷◌, ◌≡◌, refl, ◌↔◌, ◌⊎◌,
  string_equality, nat_equality, eq_iff, arith, if◌then◌else◌, All, All-iff, All-keep_if_iff,
  All-iff_on, All-swap, All-true, any_of_covers, concat_map-eq-nil_iff, any_of-false_iff,
  unless_iff, unless-not_iff, unless-one_iff, unless-not-one_iff, false_iff,
}
use beadloom.Graph.Rules.Types.{RequireRule, ForbidEdgeRule, LayerRule}
use beadloom.Graph.Rules.Database.{NodeRow, EdgeRow, Database, get_node, get_node_tags}
use beadloom.Graph.Rules.Deny.{has_tag}
use beadloom.Graph.Rules.Require.{
  any_require_tag, require_violation, target_matches, edge_satisfies, edges_from, require_one,
  evaluate_require_rules,
}
use beadloom.Graph.Rules.ForbidEdge.{
  any_forbid_tag, forbid_violation, forbid_one, forbid_between, forbid_edge,
  evaluate_forbid_edge_rules,
}
use beadloom.Graph.Rules.Layers.{
  tag_to_index, layer_of, layer_between, layer_edge, live_edges, evaluate_layer_rules,
}
use beadloom.Graph.Rules.Selection.{Selects, Agrees, OnBoth, OnOne, differs_iff, matches_iff}

-- The edge has the kind that the rule asks for, and leads to a node that the rule asks for.
abbrev pub Serves : Database → RequireRule → EdgeRow → Type 0
Serves db rule row =
    Agrees rule.edge_kind row.kind
    × OnOne (λ (target : NodeRow). Selects db rule.has_edge_to target.ref_id target.kind)
        (get_node db row.dst_ref_id)

-- The rule is about the node, and none of its edges serves.
abbrev pub IsUnserved : Database → RequireRule → NodeRow → Type 0
IsUnserved db rule node =
    Selects db rule.for_matcher node.ref_id node.kind
    × All (λ row. ¬ Serves db rule row) (edges_from db node.ref_id)

target_matches_iff :
    (any_tag_rule : Bool) (db : Database) (rule : RequireRule) (target : Option NodeRow)
    → (has_tag rule.has_edge_to ≡ true → any_tag_rule ≡ true)
    → (target_matches any_tag_rule db rule target ≡ true)
      ↔ OnOne (λ (node : NodeRow). Selects db rule.has_edge_to node.ref_id node.kind) target
unfolding target_matches
target_matches_iff any_tag_rule db rule none h = (λ e. absurd (ground (arith, e)), λ n. absurd n)
target_matches_iff any_tag_rule db rule (some target) h =
    matches_iff db rule.has_edge_to any_tag_rule target.ref_id target.kind h

else_iff :
    {P Q : Type 0} (a b : Bool)
    → (a ≡ false) ↔ P
    → (b ≡ true) ↔ Q
    → ((if a then false else b) ≡ true) ↔ (P × Q)
else_iff true b h k = (λ e. absurd (ground (arith, e)), λ p. absurd (ground (arith, h.1 p.0)))
else_iff false b h k = (λ e. (h.0 refl, k.0 e), λ p. k.1 p.1)

edge_satisfies_iff :
    (any_tag_rule : Bool) (db : Database) (rule : RequireRule) (row : EdgeRow)
    → (has_tag rule.has_edge_to ≡ true → any_tag_rule ≡ true)
    → (edge_satisfies any_tag_rule db rule row ≡ true) ↔ Serves db rule row
unfolding edge_satisfies
edge_satisfies_iff any_tag_rule db rule row h =
    else_iff _ _ (differs_iff rule.edge_kind row.kind)
      (target_matches_iff any_tag_rule db rule (get_node db row.dst_ref_id) h)

require_one-eq-nil_iff :
    (any_tag_rule : Bool) (db : Database) (rule : RequireRule) (node : NodeRow)
    → ((has_tag rule.for_matcher || has_tag rule.has_edge_to) ≡ true → any_tag_rule ≡ true)
    → (require_one any_tag_rule db rule node ≡ []) ↔ ¬ IsUnserved db rule node
unfolding require_one
require_one-eq-nil_iff any_tag_rule db rule node h =
    unless-not_iff _ _
      (matches_iff db rule.for_matcher any_tag_rule node.ref_id node.kind
        (λ e. h (ground (arith, e))))
      (unless-one_iff _ (require_violation rule node) (
        Iff.trans
          (any_of-false_iff (edge_satisfies any_tag_rule db rule) (edges_from db node.ref_id))
          (All-iff
            (λ row.
              false_iff _
                (edge_satisfies_iff any_tag_rule db rule row (λ e. h (ground (arith, e)))))
            (edges_from db node.ref_id))))

-- Nothing is reported exactly when each node that a rule is about has an edge that serves.
pub evaluate_require_rules-eq-nil_iff :
    (db : Database) (rules : List RequireRule)
    → (evaluate_require_rules db rules ≡ [])
      ↔ All (λ rule. All (λ node. ¬ IsUnserved db rule node) db.nodes) rules
unfolding evaluate_require_rules
evaluate_require_rules-eq-nil_iff db rules = Iff.trans (concat_map-eq-nil_iff _ rules) (
    All-iff_on
      (λ rule h.
        Iff.trans (concat_map-eq-nil_iff (require_one (any_require_tag rules) db rule) db.nodes) (
          All-iff (λ node. require_one-eq-nil_iff (any_require_tag rules) db rule node h) db.nodes))
      rules (any_of_covers _ rules))

-- The rule forbids such an edge between such nodes.
abbrev pub IsForbidden : Database → ForbidEdgeRule → EdgeRow → Type 0
IsForbidden db rule row =
    OnBoth
      (λ (src dst : NodeRow).
        Agrees rule.edge_kind row.kind
        × (Selects db rule.from_matcher src.ref_id src.kind
            × Selects db rule.to_matcher dst.ref_id dst.kind))
      (get_node db row.src_ref_id) (get_node db row.dst_ref_id)

abbrev IsCovered : Bool → ForbidEdgeRule → Type 0
IsCovered any_tag_rule rule =
    (has_tag rule.from_matcher || has_tag rule.to_matcher) ≡ true → any_tag_rule ≡ true

forbid_between-eq-nil_iff :
    (any_tag_rule : Bool) (db : Database) (row : EdgeRow) (rules : List ForbidEdgeRule)
    (src dst : Option NodeRow)
    → All (IsCovered any_tag_rule) rules
    → (forbid_between any_tag_rule db row rules src dst ≡ [])
      ↔ All
          (λ rule.
            ¬ OnBoth
              (λ (a b : NodeRow).
                Agrees rule.edge_kind row.kind
                × (Selects db rule.from_matcher a.ref_id a.kind
                    × Selects db rule.to_matcher b.ref_id b.kind))
              src
              dst)
          rules
unfolding forbid_between forbid_one
forbid_between-eq-nil_iff any_tag_rule db row rules (some src) (some dst) h =
    Iff.trans (concat_map-eq-nil_iff _ rules) (
      All-iff_on
        (λ rule k. unless_iff _ _ (differs_iff rule.edge_kind row.kind) (
          unless-not_iff _ _
            (matches_iff db rule.from_matcher any_tag_rule src.ref_id src.kind
              (λ e. k (ground (arith, e))))
            (unless-not-one_iff _ (forbid_violation rule row) (
              matches_iff db rule.to_matcher any_tag_rule dst.ref_id dst.kind
                (λ e. k (ground (arith, e)))))))
        rules h)
forbid_between-eq-nil_iff any_tag_rule db row rules (some src) none h =
    (λ _. All-true (λ _ n. n) rules, λ _. refl)
forbid_between-eq-nil_iff any_tag_rule db row rules none dst h =
    (λ _. All-true (λ _ n. n) rules, λ _. refl)

-- Nothing is reported exactly when no edge is forbidden.
pub evaluate_forbid_edge_rules-eq-nil_iff :
    (db : Database) (rules : List ForbidEdgeRule)
    → (evaluate_forbid_edge_rules db rules ≡ [])
      ↔ All (λ rule. All (λ row. ¬ IsForbidden db rule row) db.edges) rules
unfolding evaluate_forbid_edge_rules forbid_edge
evaluate_forbid_edge_rules-eq-nil_iff db rules =
    Iff.trans (concat_map-eq-nil_iff (forbid_edge (any_forbid_tag rules) db rules) db.edges) (
      Iff.trans
        (All-iff
          (λ row.
            forbid_between-eq-nil_iff (any_forbid_tag rules) db row rules
              (get_node db row.src_ref_id) (get_node db row.dst_ref_id) (any_of_covers _ rules))
          db.edges)
        (All-swap (λ row rule. ¬ IsForbidden db rule row) db.edges rules))

-- An edge between two layers leads up although the rule is enforced, or leads down past a layer although it must
-- not.
abbrev pub Breaks : LayerRule → ℕ → ℕ → Type 0
Breaks rule src dst =
    ((rule.enforce ≡ "top-down") × (dst < src)) ⊎ ((rule.allow_skip ≡ false) × (src + 1 < dst))

-- The edge is of the kind and active.
abbrev pub IsLive : String → EdgeRow → Type 0
IsLive kind row = (row.kind ≡ kind) × (row.lifecycle ≡ "active")

abbrev pub BreaksLayers : Database → LayerRule → EdgeRow → Type 0
BreaksLayers db rule row =
    let index = tag_to_index 0 rule.layers [] in
    IsLive rule.edge_kind row
    × OnBoth (Breaks rule) (layer_of index (get_node_tags db row.src_ref_id))
        (layer_of index (get_node_tags db row.dst_ref_id))

layer_between-eq-nil_iff :
    (rule : LayerRule) (row : EdgeRow) (src dst : Option ℕ)
    → (layer_between rule row src dst ≡ []) ↔ ¬ OnBoth (Breaks rule) src dst
unfolding layer_between
layer_between-eq-nil_iff rule row (some src) (some dst) =
    ground (arith, eq_iff rule.enforce "top-down")
layer_between-eq-nil_iff rule row (some src) none = (λ _ n. n, λ _. refl)
layer_between-eq-nil_iff rule row none dst = (λ _ n. n, λ _. refl)

-- What is asked of the rows of a query is asked of the rows that meet its condition.
not-and_iff : {P Q : Type 0} (b : Bool) → (b ≡ true) ↔ P → (b ≡ true → ¬ Q) ↔ ¬ (P × Q)
not-and_iff b h = (λ f (p, q). f (h.1 p) q, λ n e q. n (h.0 e, q))

All-live_edges_iff :
    (P : EdgeRow → Type 0) (db : Database) (kind : String)
    → All (λ row. ¬ P row) (live_edges db (kind ∷ []))
      ↔ All (λ row. ¬ (IsLive kind row × P row)) db.edges
unfolding live_edges
All-live_edges_iff P db kind = Iff.trans (All-keep_if_iff _ _ db.edges) (
    All-iff
      (λ row. not-and_iff _ (ground (arith, eq_iff kind row.kind, eq_iff row.lifecycle "active")))
      db.edges)

-- Nothing is reported exactly when no active edge of the kind breaks the layers.
pub evaluate_layer_rules-eq-nil_iff :
    (db : Database) (rules : List LayerRule)
    → (evaluate_layer_rules db rules ≡ [])
      ↔ All (λ rule. All (λ row. ¬ BreaksLayers db rule row) db.edges) rules
unfolding evaluate_layer_rules layer_edge
evaluate_layer_rules-eq-nil_iff db rules = Iff.trans (concat_map-eq-nil_iff _ rules) (
    All-iff
      (λ rule.
        Iff.trans (concat_map-eq-nil_iff (layer_edge db rule) (live_edges db (rule.edge_kind ∷ [])))
          (Iff.trans
            (All-iff (λ row. layer_between-eq-nil_iff rule row _ _)
              (live_edges db (rule.edge_kind ∷ [])))
            (All-live_edges_iff _ db rule.edge_kind)))
      rules)
