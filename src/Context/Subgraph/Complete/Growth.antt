-- ===== src/Context/Subgraph/Complete/Growth.antt =====
-- What the walk visits stays visited, and a loop visits all that it is given unless the limit is reached.
use native.Mathlib.Omega.{arith}
use beadloom.Base.{
  ℕ, ◌≤◌, ◌<◌, String, true, not, ◌&&◌, List, [], ◌∷◌, if◌then◌else◌, ◌==◌, string_equality,
  pair_equality, nat_equality, ltb, leb, length, contains, contains_self, ◌≡◌, sym, subst, inl, inr,
  Bool-cases, Option-cases, All, eq_iff,
}
use beadloom.Context.Subgraph.{EdgeInfo, Graph, find_info, Walk, enqueue, seed, visit_one, visit}
use beadloom.Context.Subgraph.Terminates.{visited-record_edge}

-- Whatever is visited stays visited.
unfoldable pub IsGrown : Walk → Walk → Type 0
IsGrown walk later =
    (length walk.visited ≤ length later.visited)
    × ((x : String) → contains walk.visited x ≡ true → contains later.visited x ≡ true)

IsGrown-trans : (a b c : Walk) → IsGrown a b → IsGrown b c → IsGrown a c
unfolding IsGrown
IsGrown-trans a b c h k = (omega (arith, h.0, k.0), λ x m. k.1 x (h.1 x m))

module _ (graph : Graph) where
  visit_one-IsGrown :
      (d : ℕ) (rid : String) (edge : EdgeInfo) (walk : Walk)
      → IsGrown walk (visit_one graph d (rid, edge) walk)
        × (contains (visit_one graph d (rid, edge) walk).visited rid ≡ true)
  unfolding IsGrown visit_one enqueue
  visit_one-IsGrown d rid edge walk = elim (Bool-cases (contains walk.visited rid)) [
    | inl e ↦ rw (e, visited-record_edge edge walk) ((omega arith, λ x m. m), e)
    | inr e ↦ rw e (elim (Option-cases (find_info rid graph.nodes)) [
      | inl f ↦
          rw (f, visited-record_edge edge walk)
            ((omega arith, λ x m. ground (arith, m)), contains_self rid walk.visited)
      | inr (row, f) ↦
          rw (f, visited-record_edge edge walk)
            ((omega arith, λ x m. ground (arith, m)), contains_self rid walk.visited)
    ])
  ]

  -- The loop visits every neighbor, unless the limit is reached.
  pub visit-IsGrown :
      (max_nodes d : ℕ) (rest : List (String × EdgeInfo)) (walk : Walk)
      → IsGrown walk (visit graph max_nodes d rest walk)
        × (length (visit graph max_nodes d rest walk).visited < max_nodes
            → All
                (λ (n : String × EdgeInfo).
                  contains (visit graph max_nodes d rest walk).visited n.0 ≡ true)
                rest)
  unfolding IsGrown visit
  visit-IsGrown max_nodes d [] walk = ((omega arith, λ x m. m), λ _. tt)
  visit-IsGrown max_nodes d ((rid, edge) ∷ rest) walk =
      elim (Bool-cases (not (contains walk.visited rid) && leb max_nodes (length walk.visited))) [
        | inl e ↦
            rw (e, visited-record_edge edge walk)
              ((omega arith, λ x m. m), λ l. absurd (ground (arith, e, l)))
        | inr e ↦
            let one = visit_one graph d (rid, edge) walk in
            let first = visit_one-IsGrown d rid edge walk in
            let others = visit-IsGrown max_nodes d rest one in
            let same : visit graph max_nodes d ((rid, edge) ∷ rest) walk
                ≡ visit graph max_nodes d rest one =
              rw e in
            subst
              (λ (w : Walk).
                IsGrown walk w
                × (length w.visited < max_nodes
                    → All (λ (n : String × EdgeInfo). contains w.visited n.0 ≡ true)
                        ((rid, edge) ∷ rest)))
              (sym same)
              (
                IsGrown-trans walk one (visit graph max_nodes d rest one) first.0 others.0,
                λ l. (others.0.1 rid first.1, others.1 l),
              )
      ]

  abbrev pub seed_one : ℕ → String → Walk → Walk
  seed_one max_nodes rid walk =
      if not (contains walk.visited rid) && ltb (length walk.visited) max_nodes
      then enqueue rid 0 (find_info rid graph.nodes) walk
      else walk

  -- A focus is visited, unless the limit is reached.
  seed_one-IsGrown :
      (max_nodes : ℕ) (rid : String) (walk : Walk)
      → IsGrown walk (seed_one max_nodes rid walk)
        × ((length (seed_one max_nodes rid walk).visited < max_nodes)
            → contains (seed_one max_nodes rid walk).visited rid ≡ true)
  unfolding IsGrown enqueue
  seed_one-IsGrown max_nodes rid walk =
      elim (Bool-cases (not (contains walk.visited rid) && ltb (length walk.visited) max_nodes)) [
        | inl e ↦ rw e (elim (Option-cases (find_info rid graph.nodes)) [
          | inl f ↦
              rw f ((omega arith, λ x m. ground (arith, m)), λ _. contains_self rid walk.visited)
          | inr (row, f) ↦
              rw f ((omega arith, λ x m. ground (arith, m)), λ _. contains_self rid walk.visited)
        ])
        | inr e ↦ rw e ((omega arith, λ x m. m), λ l. ground (arith, e, l))
      ]

  pub seed-IsGrown :
      (max_nodes : ℕ) (rids : List String) (walk : Walk)
      → IsGrown walk (seed graph max_nodes rids walk)
        × ((length (seed graph max_nodes rids walk).visited < max_nodes)
            → (x : String) → contains rids x ≡ true
            → contains (seed graph max_nodes rids walk).visited x ≡ true)
  unfolding seed IsGrown
  seed-IsGrown max_nodes [] walk = ((omega arith, λ x m. m), λ _ x m. absurd (ground (arith, m)))
  seed-IsGrown max_nodes (rid ∷ rids) walk =
      let one = seed_one max_nodes rid walk in
      let first = seed_one-IsGrown max_nodes rid walk in
      let others = seed-IsGrown max_nodes rids one in
      (
        IsGrown-trans walk one (seed graph max_nodes rids one) first.0 others.0,
        λ l x m. elim (Bool-cases (rid == x)) [
          | inl same ↦
              subst (λ y. contains (seed graph max_nodes rids one).visited y ≡ true)
                ((eq_iff rid x).0 same) (others.0.1 rid (first.1 (omega (arith, others.0.0, l))))
          | inr other ↦ others.1 l x (ground (arith, m, other))
        ],
      )
