-- ===== src/Graph/Rules/Cycles/Complete.antt =====
-- The search reports every simple cycle within its depth.
use native.Mathlib.Omega.{arith}
use mathlib.Core.List.{append-nil, append_assoc}
use beadloom.Base.{
  ℕ, zero, suc, ◌+◌, ◌-◌, ◌≤◌, ◌<◌, String, Bool, true, false, ◌||◌, some, List, [], ◌∷◌, ◌++◌,
  ◌==◌, string_equality, list_equality, eq_iff, beq_refl, ◌≡◌, refl, sym, subst, ◌⊎◌, contains,
  contains-append, contains_self, contains-sort_unique, length, length-append, ltb, ltb_iff,
  Bool-cases, inl, inr, sort_unique,
}
use beadloom.Graph.Rules.Cycles.{
  Adjacency, neighbors, Frame, Found, Search, from_first, normalize_cycle, extend, record_path,
  record_cycle, visit_one, visit, walk_fuel, degree, cost, start_frame, walk_cycles, walk_all,
  all_nodes, search_rule,
}
use beadloom.Graph.Rules.Types.{CycleRule, Violation}
use beadloom.Graph.Rules.Cycles.Terminates.{walk_cycles_total}
use beadloom.Graph.Rules.Cycles.Invariants.{visit-keeps, walk_fuel-keeps, walk_all-keeps}
use beadloom.Graph.Rules.Cycles.Traversal.{Edge}
use beadloom.Graph.Rules.Cycles.Sound.{Walk, IsCycle}

-- The cycle is recorded.
abbrev pub Records : Found → List String → Type 0
Records found cycle = contains found.seen_cycles (normalize_cycle cycle) ≡ true

or_true : (b : Bool) → (b || true) ≡ true
or_true b = ground arith

record_path-Records :
    (rule : CycleRule) (cycle : List String) (closing : String) (found : Found)
    → Records (record_path rule cycle closing found) cycle
unfolding record_path
record_path-Records rule cycle closing found =
    elim (Bool-cases (contains found.seen_cycles (normalize_cycle cycle))) [
      | inl e ↦ rw e e
      | inr e ↦ rw e (contains_self (normalize_cycle cycle) found.seen_cycles)
    ]

record_path-keeps :
    (rule : CycleRule) (cycle : List String) (closing : String) (found : Found)
    (other : List String)
    → Records found other
    → Records (record_path rule cycle closing found) other
unfolding record_path
record_path-keeps rule cycle closing found other h =
    elim (Bool-cases (contains found.seen_cycles (normalize_cycle cycle))) [
      | inl e ↦ rw e h
      | inr e ↦ rw e (rw h (or_true (normalize_cycle cycle == normalize_cycle other)))
    ]

-- what recording keeps of another cycle, for the invariants
keeps :
    (rule : CycleRule) (other : List String)
    → (cycle : List String) (closing : String) (found : Found) → Records found other
    → Records (record_path rule cycle closing found) other
keeps rule other cycle closing found h = record_path-keeps rule cycle closing found other h

abbrev IsIn : Frame → List Frame → Type 0
IsIn frame [] = ⊥
IsIn frame (top ∷ stack) = (frame ≡ top) ⊎ IsIn frame stack

visit_one-IsIn :
    (rule : CycleRule) (frame : Frame) (node : String) (search : Search) (other : Frame)
    → IsIn other search.stack
    → IsIn other (visit_one rule frame node search).stack
unfolding visit_one
visit_one-IsIn rule frame node search other h = elim (Bool-cases (contains frame.path_set node)) [
  | inl e ↦ rw e h
  | inr e ↦ rw e (elim (Bool-cases (ltb (length frame.path) rule.max_depth)) [
    | inl f ↦ rw f (inr h)
    | inr f ↦ rw f h
  ])
]

visit-IsIn :
    (rule : CycleRule) (frame : Frame) (nodes : List String) (search : Search) (other : Frame)
    → IsIn other search.stack
    → IsIn other (visit rule frame nodes search).stack
unfolding visit
visit-IsIn rule frame [] search other h = h
visit-IsIn rule frame (node ∷ nodes) search other h =
    visit-IsIn rule frame nodes (visit_one rule frame node search) other
      (visit_one-IsIn rule frame node search other h)

-- A target on the path closes a cycle, which is recorded.
visit-closes :
    (rule : CycleRule) (frame : Frame) (nodes : List String) (search : Search) (node : String)
    → contains nodes node ≡ true
    → contains frame.path_set node ≡ true
    → Records (visit rule frame nodes search).found (from_first node frame.path)
unfolding visit visit_one record_cycle
visit-closes rule frame [] search node m h = absurd (ground (arith, m))
visit-closes rule frame (x ∷ nodes) search node m h = elim (Bool-cases (x == node)) [
  | inl e ↦
      let same : x ≡ node = (eq_iff x node).0 e in
      subst (λ z. Records (visit rule frame (z ∷ nodes) search).found (from_first node frame.path))
        (sym same)
        (visit-keeps (λ f. Records f (from_first node frame.path)) rule
          (keeps rule (from_first node frame.path)) frame nodes (visit_one rule frame node search)
          (rw h (record_path-Records rule (from_first node frame.path) node search.found)))
  | inr e ↦
      visit-closes rule frame nodes (visit_one rule frame x search) node (ground (arith, m, e)) h
]

-- Another target is put on the stack while the path is short.
visit-extends :
    (rule : CycleRule) (frame : Frame) (nodes : List String) (search : Search) (node : String)
    → contains nodes node ≡ true
    → contains frame.path_set node ≡ false
    → length frame.path < rule.max_depth
    → IsIn (extend frame node) (visit rule frame nodes search).stack
unfolding visit visit_one
visit-extends rule frame [] search node m h l = absurd (ground (arith, m))
visit-extends rule frame (x ∷ nodes) search node m h l = elim (Bool-cases (x == node)) [
  | inl e ↦
      let same : x ≡ node = (eq_iff x node).0 e in
      let short : ltb (length frame.path) rule.max_depth ≡ true =
        (ltb_iff (length frame.path) rule.max_depth).1 l in
      subst (λ z. IsIn (extend frame node) (visit rule frame (z ∷ nodes) search).stack) (sym same)
        (visit-IsIn rule frame nodes (visit_one rule frame node search) (extend frame node)
          (rw h (rw short (inl refl))))
  | inr e ↦
      visit-extends rule frame nodes (visit_one rule frame x search) node (ground (arith, m, e)) h l
]

-- From the frame the search can go along the nodes and then close a cycle at the last one.
abbrev Closes : Adjacency → ℕ → Frame → List String → String → Type 0
Closes adj depth frame [] c = Edge adj frame.node c × (contains frame.path_set c ≡ true)
Closes adj depth frame (x ∷ xs) c =
    Edge adj frame.node x
    × (contains frame.path_set x ≡ false)
    × (length frame.path < depth)
    × Closes adj depth (extend frame x) xs c

walk_fuel-Records :
    (n : ℕ) (rule : CycleRule) (adj : Adjacency) (stack : List Frame) (found result : Found)
    (frame : Frame) (xs : List String) (c : String)
    → walk_fuel n rule adj stack found ≡ some result
    → IsIn frame stack
    → Closes adj rule.max_depth frame xs c
    → Records result (from_first c (frame.path ++ xs))
unfolding walk_fuel
walk_fuel-Records n rule adj [] found result frame xs c e m h = absurd m
walk_fuel-Records zero rule adj (top ∷ stack) found result frame xs c e m h =
    absurd (ground (arith, e))
walk_fuel-Records (suc n) rule adj (top ∷ stack) found result frame xs c e (inr m) h =
    let nodes = neighbors adj top.node in
    let start : Search = record { stack = stack; found = found } in
    let search = visit rule top nodes start in
    walk_fuel-Records n rule adj search.stack search.found result frame xs c e
      (visit-IsIn rule top nodes start frame m) h
walk_fuel-Records (suc n) rule adj (top ∷ stack) found result frame [] c e (inl same) h =
    let nodes = neighbors adj top.node in
    let start : Search = record { stack = stack; found = found } in
    let search = visit rule top nodes start in
    let k : Closes adj rule.max_depth top [] c =
      subst (λ f. Closes adj rule.max_depth f [] c) same h in
    let closed : Records search.found (from_first c top.path) =
      visit-closes rule top nodes start c k.0 k.1 in
    rw (append-nil frame.path) (
      subst (λ (f : Frame). Records result (from_first c f.path)) (sym same)
        (walk_fuel-keeps (λ f. Records f (from_first c top.path)) rule
          (keeps rule (from_first c top.path)) n adj search.stack search.found result e closed))
walk_fuel-Records (suc n) rule adj (top ∷ stack) found result frame (x ∷ xs) c e (inl same) h =
    let nodes = neighbors adj top.node in
    let start : Search = record { stack = stack; found = found } in
    let search = visit rule top nodes start in
    let k : Closes adj rule.max_depth top (x ∷ xs) c =
      subst (λ f. Closes adj rule.max_depth f (x ∷ xs) c) same h in
    let there : IsIn (extend top x) search.stack =
      visit-extends rule top nodes start x k.0 k.1 k.2 in
    let recorded : Records result (from_first c ((top.path ++ x ∷ []) ++ xs)) =
      walk_fuel-Records n rule adj search.stack search.found result (extend top x) xs c e there
        k.3 in
    subst (λ (f : Frame). Records result (from_first c (f.path ++ x ∷ xs))) (sym same)
      (subst (λ path. Records result (from_first c path)) (append_assoc top.path (x ∷ []) xs)
        recorded)

-- The nodes are different from one another and from those given.
abbrev pub IsFresh : List String → List String → Type 0
IsFresh taken [] = Unit
IsFresh taken (x ∷ xs) = (contains taken x ≡ false) × IsFresh (x ∷ taken) xs

Closes-Walk :
    (adj : Adjacency) (depth : ℕ) (frame : Frame) (xs : List String) (c : String)
    → Walk adj frame.node xs c
    → IsFresh frame.path_set xs
    → contains frame.path_set c ≡ true
    → 1 ≤ length frame.path
    → length frame.path + length xs ≤ 1 + (depth - 1)
    → Closes adj depth frame xs c
Closes-Walk adj depth frame [] c w f m p l = (w, m)
Closes-Walk adj depth frame (x ∷ xs) c w f m p l =
    let longer = length-append frame.path (x ∷ []) in
    (
      w.0,
      f.0,
      omega (arith, p, l),
      Closes-Walk adj depth (extend frame x) xs c w.1 f.1 (rw m (or_true (x == c)))
          (omega (arith, p, longer)) (omega (arith, l, longer)),
    )

contains-all_nodes :
    (adj : Adjacency) (a b : String) → Edge adj a b → contains (all_nodes adj) a ≡ true
unfolding neighbors all_nodes
contains-all_nodes [] a b h = h
contains-all_nodes ((src, nodes) ∷ adj) a b h = elim (Bool-cases (src == a)) [
  | inl e ↦ rw e
  | inr e ↦ rw e (
      rw (contains-append nodes (all_nodes adj) a) (
        rw
          (contains-all_nodes adj a b
            (subst (λ t. contains t b ≡ true) (unfold neighbors in rw e) h))
          (or_true (contains nodes a))))
]

first_edge :
    (adj : Adjacency) (a : String) (xs : List String) (b : String)
    → Walk adj a xs b
    → (c : String) × Edge adj a c
first_edge adj a [] b w = (b, w)
first_edge adj a (x ∷ xs) b w = (x, w.0)

walk_all-Records :
    (nodes : List String) (adj : Adjacency) (rule : CycleRule) (found : Found) (x : String)
    (other : List String)
    → contains nodes x ≡ true
    → ((f : Found) → Records (walk_cycles x adj rule f) other)
    → Records (walk_all nodes adj rule found) other
unfolding walk_all
walk_all-Records [] adj rule found x other m h = absurd (ground (arith, m))
walk_all-Records (node ∷ nodes) adj rule found x other m h = elim (Bool-cases (node == x)) [
  | inl e ↦
      let same : node ≡ x = (eq_iff node x).0 e in
      walk_all-keeps (λ f. Records f other) rule (keeps rule other) nodes adj
        (walk_cycles node adj rule found)
        (subst (λ z. Records (walk_cycles z adj rule found) other) (sym same) (h found))
  | inr e ↦
      walk_all-Records nodes adj rule (walk_cycles node adj rule found) x other
        (ground (arith, m, e)) h
]

-- No node stands twice in the list.
abbrev pub IsSimple : List String → Type 0
IsSimple xs = IsFresh [] xs

from_first_self : (x : String) (xs : List String) → from_first x (x ∷ xs) ≡ x ∷ xs
unfolding from_first
from_first_self x xs = rw (beq_refl x)

-- The search of a rule records every cycle in which no node stands twice and which has at most as many nodes as
-- the rule's depth, or one: the rotation of it that begins with its least node is among the recorded cycles.
pub search_rule-Records :
    (adj : Adjacency) (rule : CycleRule) (violations : List Violation) (cycle : List String)
    → IsCycle adj cycle
    → IsSimple cycle
    → length cycle ≤ 1 + (rule.max_depth - 1)
    → contains (search_rule adj rule violations).seen_cycles (normalize_cycle cycle) ≡ true
unfolding search_rule
search_rule-Records adj rule violations [] h s l = absurd h
search_rule-Records adj rule violations (x ∷ xs) h s l =
    walk_all-Records (sort_unique (all_nodes adj)) adj rule _ x (x ∷ xs)
      (rw (contains-sort_unique (all_nodes adj) x)
        (contains-all_nodes adj x (first_edge adj x xs x h).0 (first_edge adj x xs x h).1))
      (λ found.
        subst (λ path. Records (walk_cycles x adj rule found) path) (from_first_self x xs)
          (walk_fuel-Records (cost (degree adj) (rule.max_depth - 1)) rule adj (start_frame x ∷ [])
            found _ (start_frame x) xs x (walk_cycles_total x adj rule found) (inl refl)
            (Closes-Walk adj rule.max_depth (start_frame x) xs x h s.1 (contains_self x [])
              (omega arith) (omega (arith, l)))))
