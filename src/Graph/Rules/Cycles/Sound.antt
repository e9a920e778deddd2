-- ===== src/Graph/Rules/Cycles/Sound.antt =====
-- What the search reports are cycles of the graph.
use native.Mathlib.Omega.{arith}
use mathlib.Core.List.{append-nil}
use beadloom.Base.{
  String, true, List, [], ◌∷◌, ◌++◌, ◌==◌, string_equality, list_equality, eq_iff, ◌≡◌, refl, sym,
  subst, contains, contains-append, All, Bool-cases, inl, inr,
}
use beadloom.Graph.Rules.Cycles.{
  Adjacency, Frame, before_first, from_first, least, normalize_cycle, extend, search_rule,
}
use beadloom.Graph.Rules.Types.{CycleRule, Violation}
use beadloom.Graph.Rules.Cycles.Traversal.{Edge, search_rule-Fine}

-- The edges lead from the first node over the list to the last.
abbrev pub Walk : Adjacency → String → List String → String → Type 0
Walk adj a [] b = Edge adj a b
Walk adj a (x ∷ xs) b = Edge adj a x × Walk adj x xs b

-- Each node of the list has an edge to the next, and the last one to the first.
abbrev pub IsCycle : Adjacency → List String → Type 0
IsCycle adj [] = ⊥
IsCycle adj (x ∷ xs) = Walk adj x xs x

Walk-append :
    (adj : Adjacency) (a : String) (xs : List String) (y : String) (ys : List String) (b : String)
    → Walk adj a xs y
    → Walk adj y ys b
    → Walk adj a (xs ++ y ∷ ys) b
Walk-append adj a [] y ys b h k = (h, k)
Walk-append adj a (x ∷ xs) y ys b h k = (h.0, Walk-append adj x xs y ys b h.1 k)

Walk-split :
    (adj : Adjacency) (a : String) (xs : List String) (y : String) (ys : List String) (b : String)
    → Walk adj a (xs ++ y ∷ ys) b
    → Walk adj a xs y × Walk adj y ys b
Walk-split adj a [] y ys b h = h
Walk-split adj a (x ∷ xs) y ys b h = let (k, l) = Walk-split adj x xs y ys b h.1 in ((h.0, k), l)

pub IsCycle-rotate :
    (adj : Adjacency) (xs ys : List String) → IsCycle adj (xs ++ ys) → IsCycle adj (ys ++ xs)
IsCycle-rotate adj [] ys h = subst (IsCycle adj) (sym (append-nil ys)) h
IsCycle-rotate adj (x ∷ xs) [] h = subst (IsCycle adj) (append-nil (x ∷ xs)) h
IsCycle-rotate adj (x ∷ xs) (y ∷ ys) h =
    let (k, l) = Walk-split adj x xs y ys x h in Walk-append adj y ys x xs y l k

pub split_first :
    (node : String) (path : List String) → before_first node path ++ from_first node path ≡ path
unfolding before_first from_first
split_first node [] = refl
split_first node (x ∷ path) = elim (Bool-cases (x == node)) [
  | inl e ↦ rw e
  | inr e ↦ rw e (rw (split_first node path))
]

IsCycle-normalize_cycle :
    (adj : Adjacency) (cycle : List String)
    → IsCycle adj cycle
    → IsCycle adj (normalize_cycle cycle)
unfolding normalize_cycle
IsCycle-normalize_cycle adj [] h = h
IsCycle-normalize_cycle adj (x ∷ path) h =
    let m = least x path in
    IsCycle-rotate adj (before_first m (x ∷ path)) (from_first m (x ∷ path))
      (subst (IsCycle adj) (sym (split_first m (x ∷ path))) h)

-- The path has an edge from each node to the next and ends at the node.
abbrev pub Trail : Adjacency → List String → String → Type 0
Trail adj [] a = ⊥
Trail adj (x ∷ []) a = x ≡ a
Trail adj (x ∷ y ∷ path) a = Edge adj x y × Trail adj (y ∷ path) a

Trail-Walk :
    (adj : Adjacency) (x : String) (path : List String) (a c : String)
    → Trail adj (x ∷ path) a
    → Edge adj a c
    → Walk adj x path c
Trail-Walk adj x [] a c h k = subst (λ z. Edge adj z c) (sym h) k
Trail-Walk adj x (y ∷ path) a c h k = (h.0, Trail-Walk adj y path a c h.1 k)

Trail-extend :
    (adj : Adjacency) (path : List String) (a b : String)
    → Trail adj path a
    → Edge adj a b
    → Trail adj (path ++ b ∷ []) b
Trail-extend adj [] a b h k = absurd h
Trail-extend adj (x ∷ []) a b h k = (subst (λ z. Edge adj z b) (sym h) k, refl)
Trail-extend adj (x ∷ y ∷ path) a b h k = (h.0, Trail-extend adj (y ∷ path) a b h.1 k)

IsCycle-from_first :
    (adj : Adjacency) (path : List String) (a c : String)
    → Trail adj path a
    → contains path c ≡ true
    → Edge adj a c
    → IsCycle adj (from_first c path)
unfolding from_first
IsCycle-from_first adj [] a c h m k = absurd h
IsCycle-from_first adj (x ∷ []) a c h m k =
    let e : (x == c) ≡ true = ground (arith, m) in
    rw e (subst (λ z. Edge adj z x) (sym h) (subst (Edge adj a) (sym ((eq_iff x c).0 e)) k))
IsCycle-from_first adj (x ∷ y ∷ path) a c h m k = elim (Bool-cases (x == c)) [
  | inl e ↦
      rw e (
        subst (Walk adj x (y ∷ path)) (sym ((eq_iff x c).0 e))
          (Trail-Walk adj x (y ∷ path) a c h k))
  | inr e ↦ rw e (IsCycle-from_first adj (y ∷ path) a c h.1 (ground (arith, m, e)) k)
]

-- The path of a frame is a trail to its node, and its set holds the nodes of the path.
abbrev pub IsLive : Adjacency → Frame → Type 0
IsLive adj frame =
    Trail adj frame.path frame.node
    × ((x : String) → contains frame.path_set x ≡ contains frame.path x)

extend-IsLive :
    (adj : Adjacency) (frame : Frame) (node : String)
    → IsLive adj frame
    → Edge adj frame.node node
    → IsLive adj (extend frame node)
extend-IsLive adj frame node h k = (
  Trail-extend adj frame.path frame.node node h.0 k,
  λ x. ground (arith, h.1 x, contains-append frame.path (node ∷ []) x),
)

-- Every cycle that the search of a rule records has an edge from each node to the next, and from the last one
-- to the first.
pub search_rule-IsCycle :
    (adj : Adjacency) (rule : CycleRule) (violations : List Violation)
    → All (IsCycle adj) (search_rule adj rule violations).seen_cycles
search_rule-IsCycle adj rule violations =
    search_rule-Fine adj rule (IsLive adj) (IsCycle adj) (λ node. (refl, λ x. refl))
      (λ frame node h k e.
        IsCycle-normalize_cycle adj (from_first node frame.path)
          (IsCycle-from_first adj frame.path frame.node node h.0 (ground (arith, h.1 node, e)) k))
      (λ frame node h k e l. extend-IsLive adj frame node h k) violations
