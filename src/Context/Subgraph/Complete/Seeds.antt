-- ===== src/Context/Subgraph/Complete/Seeds.antt =====
-- What the loop over the focus nodes keeps.
use native.Mathlib.Omega.{arith}
use beadloom.Base.{
  ℕ, ◌≤◌, String, true, not, ◌&&◌, List, [], ◌∷◌, string_equality, pair_equality, nat_equality, ltb,
  length, contains, contains-append, contains_self, ◌≡◌, subst, inl, inr, Bool-cases, Option-cases,
  All, All-map,
}
use beadloom.Context.Subgraph.{Graph, find_info, Walk, enqueue, seed}
use beadloom.Context.Subgraph.Sound.{ref_id-find_info}
use beadloom.Context.Subgraph.Complete.Queue.{
  All-member, IsSorted, All-append_one, IsSorted-append, IsAt,
}
use beadloom.Context.Subgraph.Complete.Visits.{
  IsDone, IsRecorded, IsDone-more, IsRecorded-none, IsRecorded-some,
}
use beadloom.Context.Subgraph.Complete.Rounds.{IsReady}
use beadloom.Context.Subgraph.Complete.Growth.{seed_one}

module _ (graph : Graph) (focus : List String) (depth : ℕ) where
  -- while the focus nodes are visited
  abbrev IsSeeded : List (String × ℕ) → Walk → Type 0
  IsSeeded history walk =
      IsRecorded graph focus depth history walk.visited walk.collected_nodes
      × All (λ (e : String × ℕ). e.1 ≤ 0) history
      × IsSorted walk.queue
      × All (λ (e : String × ℕ). e.1 ≤ 0) walk.queue
      × All (IsDone graph focus depth history walk.queue) history

  enqueue-IsSeeded :
      (history : List (String × ℕ)) (rid : String) (walk : Walk)
      → IsSeeded history walk
      → (more : List (String × ℕ)) × IsSeeded more (enqueue rid 0 (find_info rid graph.nodes) walk)
  unfolding enqueue
  enqueue-IsSeeded history rid walk (recorded, shallow, sorted, high, done) =
      elim (Option-cases (find_info rid graph.nodes)) [
        | inl e ↦ rw e (
          history,
          (
            IsRecorded-none graph focus depth history walk.visited walk.collected_nodes rid e
                recorded,
            shallow,
            sorted,
            high,
            done,
          ),
        )
        | inr (row, e) ↦ rw e (
          (rid, 0) ∷ history,
          (
            IsRecorded-some graph focus depth history walk.visited walk.collected_nodes rid 0 row
                (ref_id-find_info rid graph.nodes row e) recorded,
            (omega arith, shallow),
            IsSorted-append walk.queue rid 0 sorted high,
            All-append_one (λ (x : String × ℕ). x.1 ≤ 0) walk.queue (rid, 0) high (omega arith),
            (
              inl (
                  ground (
                    arith,
                    contains-append walk.queue ((rid, 0) ∷ []) (rid, 0),
                    contains_self {A = String × ℕ} (rid, 0) [],
                  )),
              All-map (λ entry k. IsDone-more graph focus depth history walk.queue (rid, 0) entry k)
                  history done,
            ),
          ),
        )
      ]

  seed_one-IsSeeded :
      (max_nodes : ℕ) (history : List (String × ℕ)) (rid : String) (walk : Walk)
      → IsSeeded history walk
      → (more : List (String × ℕ)) × IsSeeded more (seed_one graph max_nodes rid walk)
  seed_one-IsSeeded max_nodes history rid walk h =
      elim (Bool-cases (not (contains walk.visited rid) && ltb (length walk.visited) max_nodes)) [
        | inl e ↦ rw e (enqueue-IsSeeded history rid walk h)
        | inr e ↦ rw e (history, h)
      ]

  pub seed-IsSeeded :
      (max_nodes : ℕ) (history : List (String × ℕ)) (rids : List String) (walk : Walk)
      → IsSeeded history walk
      → (more : List (String × ℕ)) × IsSeeded more (seed graph max_nodes rids walk)
  unfolding seed
  seed-IsSeeded max_nodes history [] walk h = (history, h)
  seed-IsSeeded max_nodes history (rid ∷ rids) walk h =
      let (more, k) = seed_one-IsSeeded max_nodes history rid walk h in
      seed-IsSeeded max_nodes more rids (seed_one graph max_nodes rid walk) k

  pub IsSeeded-IsReady :
      (history : List (String × ℕ)) (walk : Walk)
      → IsSeeded history walk
      → ((x : String) → contains focus x ≡ true → contains walk.visited x ≡ true)
      → IsReady graph focus depth history walk.queue walk
  IsSeeded-IsReady history walk (recorded, shallow, sorted, high, done) all = (
    recorded,
    All-map (λ (e : String × ℕ) _. All-map (λ (h : String × ℕ) k. omega (arith, k)) history shallow)
        walk.queue high,
    sorted,
    All-map (λ (e : String × ℕ) _. All-map (λ (f : String × ℕ) k. omega (arith, k)) walk.queue high)
        walk.queue high,
    done,
    λ x m found.
        let (d, k) = recorded.0 x (all x m) found in
        let low : d ≤ 0 = All-member (λ (h : String × ℕ). h.1 ≤ 0) history (x, d) shallow k in
        let none_left : d ≡ 0 = omega (arith, low) in subst (λ n. IsAt history x n) none_left k,
  )
