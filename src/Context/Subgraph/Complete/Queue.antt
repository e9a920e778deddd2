-- ===== src/Context/Subgraph/Complete/Queue.antt =====
-- The queue of the walk in the order of depths, and the ways that lead to a node.
use native.Mathlib.Omega.{arith}
use beadloom.Base.{
  ℕ, ◌+◌, ◌≤◌, String, Bool, true, some, List, [], ◌∷◌, ◌++◌, map, if◌then◌else◌, ◌==◌,
  string_equality, pair_equality, nat_equality, contains, All-append_iff, keep_if, ◌≡◌, subst, inl,
  inr, Bool-cases, All, Equality, All-sort_by_iff, beq_refl, beq→eq,
}
use beadloom.Context.Subgraph.{
  NodeInfo, EdgeInfo, Graph, find_info, outgoing, incoming, sooner, neighbors,
}
use beadloom.Context.Subgraph.Sound.{IsAdjacent}

pub All-member :
    {A : Type 0} ⦃e : Equality A⦄ (P : A → Type 0) (xs : List A) (x : A)
    → All P xs
    → contains xs x ≡ true
    → P x
All-member P [] x h m = absurd (ground (arith, m))
All-member P (y ∷ xs) x h m = elim (Bool-cases (y == x)) [
  | inl same ↦ subst P (beq→eq y x same) h.0
  | inr other ↦ All-member P xs x h.1 (ground (arith, m, other))
]

All-kept :
    {A B : Type 0} (P : B → Type 0) (f : A → B) (p : A → Bool) (xs : List A)
    → All P (map f (keep_if p xs))
    → All (λ x. p x ≡ true → P (f x)) xs
All-kept P f p [] h = tt
All-kept P f p (x ∷ xs) h = elim (Bool-cases (p x)) [
  | inl e ↦
      let k = subst (λ t. All P (map f (if t then x ∷ keep_if p xs else keep_if p xs))) e h in
      ((λ _. k.0), All-kept P f p xs k.1)
  | inr e ↦
      let k = subst (λ t. All P (map f (if t then x ∷ keep_if p xs else keep_if p xs))) e h in
      ((λ m. absurd (ground (arith, m, e))), All-kept P f p xs k)
]

-- The entries stand in the order of their depths.
abbrev pub IsSorted : List (String × ℕ) → Type 0
IsSorted [] = Unit
IsSorted (entry ∷ queue) = All (λ (later : String × ℕ). entry.1 ≤ later.1) queue × IsSorted queue

pub All-append_one :
    {A : Type 0} (P : A → Type 0) (xs : List A) (y : A) → All P xs → P y → All P (xs ++ y ∷ [])
All-append_one P xs y h k = (All-append_iff P xs (y ∷ [])).1 (h, (k, tt))

pub IsSorted-append :
    (queue : List (String × ℕ)) (rid : String) (d : ℕ)
    → IsSorted queue
    → All (λ (e : String × ℕ). e.1 ≤ d) queue
    → IsSorted (queue ++ (rid, d) ∷ [])
IsSorted-append [] rid d h k = (tt, tt)
IsSorted-append (entry ∷ queue) rid d h k = (
  All-append_one (λ (later : String × ℕ). entry.1 ≤ later.1) queue (rid, d) h.0 k.0,
  IsSorted-append queue rid d h.1 k.1,
)

-- A name is recorded at a depth.
abbrev pub IsAt : List (String × ℕ) → String → ℕ → Type 0
IsAt history rid d = contains history (rid, d) ≡ true

module _ (graph : Graph) where
  -- The name is that of a node.
  abbrev pub IsFound : String → Type 0
  IsFound rid = (row : NodeInfo) × (find_info rid graph.nodes ≡ some row)

  -- So many edges lead from a focus over nodes to the node.
  pub data Leads (focus : List String) : ℕ → String → Type 0 where
    start : (rid : String) → contains focus rid ≡ true → IsFound rid → Leads focus 0 rid
    step :
        {d : ℕ} {a : String} (b : String)
        → Leads focus d a
        → IsAdjacent graph a b
        → IsFound b
        → Leads focus (d + 1) b

  pub visited_neighbor :
      (visited : List String) (a b : String)
      → All (λ (n : String × EdgeInfo). contains visited n.0 ≡ true) (neighbors graph a)
      → IsAdjacent graph a b
      → contains visited b ≡ true
  unfolding neighbors outgoing incoming
  visited_neighbor visited a b h (kind, m) =
      let P : String × EdgeInfo → Type 0 = λ n. contains visited n.0 ≡ true in
      let parts =
        (All-append_iff P (outgoing a graph.edges) (incoming a graph.edges)).0
          ((All-sort_by_iff P sooner _).0 h) in
      elim (Bool-cases (contains graph.edges (a, (b, kind)))) [
        | inl out ↦
            All-member _ graph.edges (a, (b, kind)) (All-kept P _ _ graph.edges parts.0) out
              (beq_refl a)
        | inr other ↦
            All-member _ graph.edges (b, (a, kind)) (All-kept P _ _ graph.edges parts.1)
              (ground (arith, m, other)) (beq_refl a)
      ]

  -- The neighbors of an entry are recorded, one step deeper at most.
  abbrev pub IsClosed : List (String × ℕ) → String × ℕ → Type 0
  IsClosed history entry =
      (b : String)
      → IsAdjacent graph entry.0 b
      → IsFound b
      → (d : ℕ) × ((d ≤ entry.1 + 1) × IsAt history b d)

  pub IsClosed-more :
      (history : List (String × ℕ)) (new entry : String × ℕ)
      → IsClosed history entry
      → IsClosed (new ∷ history) entry
  IsClosed-more history new entry h b adjacent found =
      let (d, (l, m)) = h b adjacent found in (d, (l, ground (arith, m)))
