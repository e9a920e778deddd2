-- ===== src/Graph/Rules/Cycles/Bounded.antt =====
-- The recorded cycles are simple and keep to the depth of the rule, so that a rule reports nothing exactly when
-- there is no such cycle.
use native.Mathlib.Omega.{arith}
use beadloom.Base.{
  ℕ, ◌+◌, ◌-◌, ◌≤◌, ◌<◌, String, true, false, List, [], ◌∷◌, ◌++◌, string_equality, list_equality,
  eq_iff, ◌≡◌, refl, sym, subst, ◌↔◌, contains, contains-append, length, length-append, All,
  All-map,
}
use beadloom.Graph.Rules.Types.{CycleRule, Violation}
use beadloom.Graph.Rules.Cycles.{
  Adjacency, Frame, build_adjacency, before_first, from_first, least, normalize_cycle, extend,
  search_rule, evaluate_from, evaluate_cycle_rules,
}
use beadloom.Graph.Rules.Cycles.Traversal.{search_rule-Fine}
use beadloom.Graph.Rules.Cycles.Sound.{IsCycle, split_first, search_rule-IsCycle}
use beadloom.Graph.Rules.Cycles.Reports.{search_rule-IsReported}
use beadloom.Graph.Rules.Cycles.Complete.{IsFresh, IsSimple, search_rule-Records}

-- No node stands behind itself.
abbrev IsDistinct : List String → Type 0
IsDistinct [] = Unit
IsDistinct (x ∷ xs) = (contains xs x ≡ false) × IsDistinct xs

abbrev IsApart : List String → List String → Type 0
IsApart xs ys = All (λ x. contains ys x ≡ false) xs

IsDistinct-append_iff :
    (xs ys : List String)
    → IsDistinct (xs ++ ys) ↔ (IsDistinct xs × (IsDistinct ys × IsApart xs ys))
IsDistinct-append_iff [] ys = (λ h. (tt, (h, tt)), λ h. h.1.0)
IsDistinct-append_iff (x ∷ xs) ys =
    let rest = IsDistinct-append_iff xs ys in
    let parts = contains-append xs ys x in
    (
      λ h.
          let r = rest.0 h.1 in
          ((ground (arith, parts, h.0), r.0), (r.1.0, (ground (arith, parts, h.0), r.1.1))),
      λ h. (ground (arith, parts, h.0.0, h.1.1.0), rest.1 (h.0.1, (h.1.0, h.1.1.1))),
    )

IsApart-one :
    (xs : List String) (y : String) (ys : List String)
    → contains xs y ≡ false
    → IsApart xs ys
    → IsApart xs (y ∷ ys)
IsApart-one [] y ys h k = tt
IsApart-one (x ∷ xs) y ys h k =
    (ground (arith, eq_iff x y, eq_iff y x, h, k.0), IsApart-one xs y ys (ground (arith, h)) k.1)

IsApart-nil : (xs : List String) → IsApart xs []
IsApart-nil [] = tt
IsApart-nil (x ∷ xs) = (refl, IsApart-nil xs)

IsApart-contains :
    (xs : List String) (y : String) (ys : List String) → IsApart xs (y ∷ ys) → contains xs y ≡ false
IsApart-contains [] y ys h = refl
IsApart-contains (x ∷ xs) y ys h =
    ground (arith, eq_iff x y, eq_iff y x, h.0, IsApart-contains xs y ys h.1)

IsApart-sym : (xs ys : List String) → IsApart xs ys → IsApart ys xs
IsApart-sym xs [] h = tt
IsApart-sym xs (y ∷ ys) h =
    (IsApart-contains xs y ys h, IsApart-sym xs ys (All-map (λ x k. ground (arith, k)) xs h))

IsDistinct-rotate : (xs ys : List String) → IsDistinct (xs ++ ys) → IsDistinct (ys ++ xs)
IsDistinct-rotate xs ys h =
    let r = (IsDistinct-append_iff xs ys).0 h in
    (IsDistinct-append_iff ys xs).1 (r.1.0, (r.0, IsApart-sym xs ys r.1.1))

IsFresh-IsDistinct : (taken xs : List String) → IsDistinct xs → IsApart xs taken → IsFresh taken xs
IsFresh-IsDistinct taken [] h k = tt
IsFresh-IsDistinct taken (x ∷ xs) h k =
    (k.0, IsFresh-IsDistinct (x ∷ taken) xs h.1 (IsApart-one xs x taken h.0 k.1))

-- what the search keeps of the path of a frame, and of a cycle
abbrev IsShort : ℕ → List String → Type 0
IsShort depth path = IsDistinct path × (length path ≤ 1 + (depth - 1))

abbrev IsLive : ℕ → Frame → Type 0
IsLive depth frame =
    IsShort depth frame.path × ((x : String) → contains frame.path_set x ≡ contains frame.path x)

IsShort-rotate :
    (depth : ℕ) (xs ys : List String) → IsShort depth (xs ++ ys) → IsShort depth (ys ++ xs)
IsShort-rotate depth xs ys h =
    (IsDistinct-rotate xs ys h.0, omega (arith, h.1, length-append xs ys, length-append ys xs))

IsShort-from_first :
    (depth : ℕ) (node : String) (path : List String)
    → IsShort depth path
    → IsShort depth (from_first node path)
IsShort-from_first depth node path h =
    let before = before_first node path in
    let after = from_first node path in
    let k : IsShort depth (before ++ after) =
      subst (IsShort depth) (sym (split_first node path)) h in
    (
      ((IsDistinct-append_iff before after).0 k.0).1.0,
      omega (arith, k.1, length-append before after),
    )

IsShort-normalize_cycle :
    (depth : ℕ) (cycle : List String) → IsShort depth cycle → IsShort depth (normalize_cycle cycle)
unfolding normalize_cycle
IsShort-normalize_cycle depth [] h = h
IsShort-normalize_cycle depth (x ∷ path) h =
    let m = least x path in
    IsShort-rotate depth (before_first m (x ∷ path)) (from_first m (x ∷ path))
      (subst (IsShort depth) (sym (split_first m (x ∷ path))) h)

extend-IsLive :
    (depth : ℕ) (frame : Frame) (node : String)
    → IsLive depth frame
    → contains frame.path_set node ≡ false
    → length frame.path < depth
    → IsLive depth (extend frame node)
extend-IsLive depth frame node h e l = (
  (
    (IsDistinct-append_iff frame.path (node ∷ [])).1 (
      h.0.0,
      (
        (refl, tt),
        IsApart-one frame.path node [] (ground (arith, h.1 node, e)) (IsApart-nil frame.path),
      ),
    ),
    omega (arith, l, length-append frame.path (node ∷ [])),
  ),
  λ x. ground (arith, h.1 x, contains-append frame.path (node ∷ []) x),
)

search_rule-IsShort :
    (adj : Adjacency) (rule : CycleRule) (violations : List Violation)
    → All (IsShort rule.max_depth) (search_rule adj rule violations).seen_cycles
search_rule-IsShort adj rule violations =
    search_rule-Fine adj rule (IsLive rule.max_depth) (IsShort rule.max_depth)
      (λ node. (((refl, tt), omega arith), λ x. refl))
      (λ frame node h k e.
        IsShort-normalize_cycle rule.max_depth (from_first node frame.path)
          (IsShort-from_first rule.max_depth node frame.path h.0))
      (λ frame node h k e l. extend-IsLive rule.max_depth frame node h e l) violations

-- A cycle in which no node stands twice, with at most as many nodes as the depth of the rule, or one.
abbrev pub IsShortCycle : Adjacency → CycleRule → List String → Type 0
IsShortCycle adj rule cycle =
    IsCycle adj cycle × (IsSimple cycle × (length cycle ≤ 1 + (rule.max_depth - 1)))

recorded_cycle :
    (adj : Adjacency) (rule : CycleRule) (cycles : List (List String))
    → All (IsCycle adj) cycles
    → All (IsShort rule.max_depth) cycles
    → ((cycle : List String) → ¬ IsShortCycle adj rule cycle)
    → cycles ≡ []
recorded_cycle adj rule [] h k n = refl
recorded_cycle adj rule (cycle ∷ cycles) h k n =
    absurd (n cycle (h.0, (IsFresh-IsDistinct [] cycle k.0.0 (IsApart-nil cycle), k.0.1)))

-- The search of a rule records nothing exactly when there is no short cycle.
pub seen_cycles-eq-nil_iff :
    (adj : Adjacency) (rule : CycleRule) (violations : List Violation)
    → ((search_rule adj rule violations).seen_cycles ≡ [])
      ↔ ((cycle : List String) → ¬ IsShortCycle adj rule cycle)
seen_cycles-eq-nil_iff adj rule violations = (
  λ e cycle h.
      let there = search_rule-Records adj rule violations cycle h.0 h.1.0 h.1.1 in
      absurd
        (ground (arith, subst (λ cycles. contains cycles (normalize_cycle cycle) ≡ true) e there)),
  recorded_cycle adj rule _ (search_rule-IsCycle adj rule violations)
      (search_rule-IsShort adj rule violations),
)

length-eq-zero_iff : {A : Type 0} (xs : List A) → (xs ≡ []) ↔ (length xs ≡ 0)
length-eq-zero_iff [] = (λ _. refl, λ _. refl)
length-eq-zero_iff (x ∷ xs) = (λ e. absurd (ground (arith, e)), λ e. absurd (ground (arith, e)))

violations-eq-nil_iff :
    (adj : Adjacency) (rule : CycleRule) (violations : List Violation)
    → ((search_rule adj rule violations).violations ≡ [])
      ↔ ((violations ≡ []) × ((search_rule adj rule violations).seen_cycles ≡ []))
violations-eq-nil_iff adj rule violations =
    let found = search_rule adj rule violations in
    let sum = (search_rule-IsReported adj rule violations).0 in
    let a = length-eq-zero_iff found.violations in
    let b = length-eq-zero_iff violations in
    let c = length-eq-zero_iff found.seen_cycles in
    (
      λ e. (b.1 (omega (arith, sum, a.0 e)), c.1 (omega (arith, sum, a.0 e))),
      λ h. a.1 (omega (arith, sum, b.0 h.0, c.0 h.1)),
    )

evaluate_from-eq-nil_iff :
    (rows : List String → List (String × String)) (rules : List CycleRule)
    (violations : List Violation)
    → (evaluate_from rows rules violations ≡ []) ↔ (
        (violations ≡ [])
        × All
            (λ rule.
              (cycle : List String)
              → ¬ IsShortCycle (build_adjacency (rows rule.edge_kinds)) rule cycle)
            rules)
unfolding evaluate_from
evaluate_from-eq-nil_iff rows [] violations = (λ e. (e, tt), λ h. h.0)
evaluate_from-eq-nil_iff rows (rule ∷ rules) violations =
    let adj = build_adjacency (rows rule.edge_kinds) in
    let rest = evaluate_from-eq-nil_iff rows rules (search_rule adj rule violations).violations in
    let one = violations-eq-nil_iff adj rule violations in
    let none_seen = seen_cycles-eq-nil_iff adj rule violations in
    (
      λ e. let r = rest.0 e in let s = one.0 r.0 in (s.0, (none_seen.0 s.1, r.1)),
      λ h. rest.1 (one.1 (h.0, none_seen.1 h.1.0), h.1.1),
    )

-- Nothing is reported exactly when the edges that a rule names form no short cycle.
pub evaluate_cycle_rules-eq-nil_iff :
    (rows : List String → List (String × String)) (rules : List CycleRule)
    → (evaluate_cycle_rules rows rules ≡ [])
      ↔ All
          (λ rule.
            (cycle : List String)
            → ¬ IsShortCycle (build_adjacency (rows rule.edge_kinds)) rule cycle)
          rules
unfolding evaluate_cycle_rules
evaluate_cycle_rules-eq-nil_iff rows rules =
    let all = evaluate_from-eq-nil_iff rows rules [] in (λ e. (all.0 e).1, λ h. all.1 (refl, h))
