-- ===== src/Context/Subgraph/Complete/Rounds.antt =====
-- What a round of the outer loop keeps.
use native.Mathlib.Omega.{arith}
use beadloom.Base.{
  ℕ, zero, suc, ◌+◌, ◌≤◌, ◌<◌, String, true, some, List, [], ◌∷◌, ◌==◌, string_equality,
  pair_equality, nat_equality, leb, length, contains, ◌≡◌, sym, subst, ◌⊎◌, inl, inr, Bool-cases,
  All, All-map, beq→eq,
}
use beadloom.Context.Subgraph.{EdgeInfo, Graph, Walk, neighbors, visit, expand, bfs_fuel}
use beadloom.Context.Subgraph.Complete.Queue.{All-member, IsSorted, visited_neighbor}
use beadloom.Context.Subgraph.Complete.Growth.{IsGrown, visit-IsGrown}
use beadloom.Context.Subgraph.Complete.Visits.{IsDone, IsRecorded, IsRooted, IsOpen, visit-IsOpen}

module _ (graph : Graph) (focus : List String) (depth : ℕ) where
  -- at the head of the outer loop
  abbrev pub IsReady : List (String × ℕ) → List (String × ℕ) → Walk → Type 0
  IsReady history queue walk =
      IsRecorded graph focus depth history walk.visited walk.collected_nodes
      × All (λ (e : String × ℕ). All (λ (h : String × ℕ). h.1 ≤ e.1 + 1) history) queue
      × IsSorted queue
      × All (λ (e : String × ℕ). All (λ (f : String × ℕ). f.1 ≤ e.1 + 1) queue) queue
      × All (IsDone graph focus depth history queue) history
      × IsRooted graph focus depth history

  All-low :
      (current : ℕ) (history queue : List (String × ℕ))
      → All (λ (e : String × ℕ). current ≤ e.1) queue
      → All (λ (h : String × ℕ). h.1 ≤ current + 1) history
      → All (λ (e : String × ℕ). All (λ (h : String × ℕ). h.1 ≤ e.1 + 1) history) queue
  All-low current history queue low shallow =
      All-map (λ e l. All-map (λ h k. omega (arith, l, k)) history shallow) queue low

  -- After the neighbors of an entry are visited, the entry is done.
  IsOpen-IsReady :
      (a : String) (d : ℕ) (history : List (String × ℕ)) (walk : Walk)
      → IsOpen graph focus depth (a, d) history walk
      → (depth ≤ d)
        ⊎ All (λ (n : String × EdgeInfo). contains walk.visited n.0 ≡ true) (neighbors graph a)
      → IsReady history walk.queue walk
  IsOpen-IsReady a d history walk (recorded, shallow, sorted, low, high, done, rooted) s = (
    recorded,
    All-low d history walk.queue low shallow,
    sorted,
    All-low d walk.queue walk.queue low high,
    All-map
        (λ entry t. elim t [
          | inr k ↦ k
          | inl same ↦ subst (IsDone graph focus depth history walk.queue) (sym same) (elim s [
            | inl l ↦ inr (inl l)
            | inr all ↦ inr (
                inr (λ b adjacent found.
                  let (k, m) =
                    recorded.0 b (visited_neighbor graph walk.visited a b all adjacent) found in
                  (k, (All-member (λ (h : String × ℕ). h.1 ≤ d + 1) history (b, k) shallow m, m))))
          ])
        ])
        history done,
    rooted,
  )

  -- Taking the first entry of the queue opens it.
  IsReady-IsOpen :
      (a : String) (d : ℕ) (history : List (String × ℕ)) (queue : List (String × ℕ)) (walk : Walk)
      → IsReady history ((a, d) ∷ queue) walk
      → IsOpen graph focus depth (a, d) history (record walk { queue = queue })
  IsReady-IsOpen a d history queue walk (recorded, shallow, sorted, near, done, rooted) = (
    recorded,
    shallow.0,
    sorted.1,
    sorted.0,
    near.0.1,
    All-map
        (λ entry t. elim t [
          | inr k ↦ inr (inr k)
          | inl m ↦ elim (Bool-cases ((a, d) == entry)) [
            | inl e ↦ inl (sym (beq→eq (a, d) entry e))
            | inr e ↦ inr (inl (ground (arith, m, e)))
          ]
        ])
        history done,
    rooted,
  )

  expand-IsReady :
      (max_nodes : ℕ) (entry : String × ℕ) (history : List (String × ℕ)) (walk : Walk)
      → IsOpen graph focus depth entry history walk
      → length (expand graph depth max_nodes entry walk).visited < max_nodes
      → (more : List (String × ℕ)) × IsReady more
          (expand graph depth max_nodes entry walk).queue
          (expand graph depth max_nodes entry walk)
  unfolding expand
  expand-IsReady max_nodes (a, d) history walk h l = elim (Bool-cases (leb depth d)) [
    | inl e ↦ rw e (history, IsOpen-IsReady a d history walk h (inl (ground (arith, e))))
    | inr e ↦
        let same : expand graph depth max_nodes (a, d) walk
            ≡ visit graph max_nodes (d + 1) (neighbors graph a) walk =
          rw e in
        let (more, k) =
          visit-IsOpen graph focus depth max_nodes (a, d) history (neighbors graph a) walk h in
        let short = subst (λ (w : Walk). length w.visited < max_nodes) same l in
        rw same (
          more,
          IsOpen-IsReady a d more (visit graph max_nodes (d + 1) (neighbors graph a) walk) k
              (inr ((visit-IsGrown graph max_nodes (d + 1) (neighbors graph a) walk).1 short)),
        )
  ]

  expand-IsGrown :
      (max_nodes : ℕ) (entry : String × ℕ) (walk : Walk)
      → IsGrown walk (expand graph depth max_nodes entry walk)
  unfolding expand IsGrown
  expand-IsGrown max_nodes (a, d) walk = elim (Bool-cases (leb depth d)) [
    | inl e ↦ rw e (omega arith, λ x m. m)
    | inr e ↦ rw e ((visit-IsGrown graph max_nodes (d + 1) (neighbors graph a) walk).0)
  ]

  pub bfs_fuel-IsGrown :
      (n max_nodes : ℕ) (queue : List (String × ℕ)) (walk result : Walk)
      → bfs_fuel n graph depth max_nodes queue walk ≡ some result
      → length walk.visited ≤ length result.visited
  unfolding bfs_fuel IsGrown
  bfs_fuel-IsGrown n max_nodes [] walk result e =
      let same : walk ≡ result = ground (arith, e) in
      subst (λ (w : Walk). length walk.visited ≤ length w.visited) same (omega arith)
  bfs_fuel-IsGrown zero max_nodes (entry ∷ queue) walk result e = absurd (ground (arith, e))
  bfs_fuel-IsGrown (suc n) max_nodes (entry ∷ queue) walk result e =
      let rest : Walk = record walk { queue = queue } in
      let next = expand graph depth max_nodes entry rest in
      omega (
        arith,
        (expand-IsGrown max_nodes entry rest).0,
        bfs_fuel-IsGrown n max_nodes next.queue next result e,
      )

  pub bfs_fuel-IsReady :
      (n max_nodes : ℕ) (history queue : List (String × ℕ)) (walk result : Walk)
      → bfs_fuel n graph depth max_nodes queue walk ≡ some result
      → length result.visited < max_nodes
      → IsReady history queue walk
      → (more : List (String × ℕ)) × IsReady more [] result
  unfolding bfs_fuel
  bfs_fuel-IsReady n max_nodes history [] walk result e l h =
      let same : walk ≡ result = ground (arith, e) in
      (history, subst (λ (w : Walk). IsReady history [] w) same h)
  bfs_fuel-IsReady zero max_nodes history (entry ∷ queue) walk result e l h =
      absurd (ground (arith, e))
  bfs_fuel-IsReady (suc n) max_nodes history ((a, d) ∷ queue) walk result e l h =
      let rest : Walk = record walk { queue = queue } in
      let next = expand graph depth max_nodes (a, d) rest in
      let short = bfs_fuel-IsGrown n max_nodes next.queue next result e in
      let (more, k) =
        expand-IsReady max_nodes (a, d) history rest (IsReady-IsOpen a d history queue walk h)
          (omega (arith, short, l)) in
      bfs_fuel-IsReady n max_nodes more next.queue next result e l k
