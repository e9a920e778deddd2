-- ===== src/Context/Subgraph/Complete/Visits.antt =====
-- What the loop over the neighbors of an entry keeps.
use native.Mathlib.Omega.{arith}
use beadloom.Base.{
  ℕ, ◌+◌, ◌≤◌, String, true, not, ◌&&◌, none, List, [], ◌∷◌, ◌++◌, ◌==◌, string_equality,
  pair_equality, nat_equality, leb, length, contains, contains-append, contains_self, ◌≡◌, ap,
  subst, ◌∙◌, ◌⊎◌, inl, inr, Bool-cases, Option-cases, All, All-map, eq_iff, beq_refl,
}
use beadloom.Context.Subgraph.{
  NodeInfo, EdgeInfo, Graph, find_info, Walk, enqueue, record_edge, visit_one, visit,
}
use beadloom.Context.Subgraph.Sound.{names, names-append, ref_id-find_info}
use beadloom.Context.Subgraph.Complete.Queue.{
  IsSorted, All-append_one, IsSorted-append, IsFound, IsAt, IsClosed, IsClosed-more,
}

module _ (graph : Graph) (focus : List String) (depth : ℕ) where
  -- An entry waits in the queue, is as deep as the walk goes, or its neighbors are recorded.
  abbrev pub IsDone : List (String × ℕ) → List (String × ℕ) → String × ℕ → Type 0
  IsDone history queue entry =
      (contains queue entry ≡ true) ⊎ ((depth ≤ entry.1) ⊎ IsClosed graph history entry)

  abbrev pub IsRecorded : List (String × ℕ) → List String → List NodeInfo → Type 0
  IsRecorded history visited nodes =
      ((rid : String)
        → contains visited rid ≡ true
        → IsFound graph rid
        → (d : ℕ) × IsAt history rid d)
      × All (λ (h : String × ℕ). contains (names nodes) h.0 ≡ true) history

  -- A focus is recorded at depth zero.
  abbrev pub IsRooted : List (String × ℕ) → Type 0
  IsRooted history =
      (rid : String) → contains focus rid ≡ true → IsFound graph rid → IsAt history rid 0

  -- while the neighbors of an entry are visited
  abbrev pub IsOpen : String × ℕ → List (String × ℕ) → Walk → Type 0
  IsOpen current history walk =
      IsRecorded history walk.visited walk.collected_nodes
      × All (λ (e : String × ℕ). e.1 ≤ current.1 + 1) history
      × IsSorted walk.queue
      × All (λ (e : String × ℕ). current.1 ≤ e.1) walk.queue
      × All (λ (e : String × ℕ). e.1 ≤ current.1 + 1) walk.queue
      × All (λ entry. (entry ≡ current) ⊎ IsDone history walk.queue entry) history
      × IsRooted history

  pub IsDone-more :
      (history queue : List (String × ℕ)) (new entry : String × ℕ)
      → IsDone history queue entry
      → IsDone (new ∷ history) (queue ++ new ∷ []) entry
  IsDone-more history queue new entry (inl m) =
      inl (ground (arith, contains-append queue (new ∷ []) entry, m))
  IsDone-more history queue new entry (inr (inl l)) = inr (inl l)
  IsDone-more history queue new entry (inr (inr h)) =
      inr (inr (IsClosed-more graph history new entry h))

  record_edge-IsOpen :
      (current : String × ℕ) (history : List (String × ℕ)) (edge : EdgeInfo) (walk : Walk)
      → IsOpen current history walk
      → IsOpen current history (record_edge edge walk)
  unfolding record_edge
  record_edge-IsOpen current history edge walk h =
      elim (Bool-cases (contains walk.collected_edges edge)) [ inl e ↦ rw e h | inr e ↦ rw e h ]

  pub IsRecorded-none :
      (history : List (String × ℕ)) (visited : List String) (nodes : List NodeInfo) (rid : String)
      → find_info rid graph.nodes ≡ none
      → IsRecorded history visited nodes
      → IsRecorded history (rid ∷ visited) nodes
  IsRecorded-none history visited nodes rid e h = (
    λ x m (row, found). elim (Bool-cases (rid == x)) [
      | inl same ↦
          let k = subst (λ y. find_info y graph.nodes ≡ none) ((eq_iff rid x).0 same) e in
          absurd (ground (arith, k, found))
      | inr other ↦ h.0 x (ground (arith, m, other)) (row, found)
    ],
    h.1,
  )

  pub IsRecorded-some :
      (history : List (String × ℕ)) (visited : List String) (nodes : List NodeInfo) (rid : String)
      (d : ℕ) (row : NodeInfo)
      → row.ref_id ≡ rid
      → IsRecorded history visited nodes
      → IsRecorded ((rid, d) ∷ history) (rid ∷ visited) (nodes ++ row ∷ [])
  IsRecorded-some history visited nodes rid d row own h =
      let more : names (nodes ++ row ∷ []) ≡ names nodes ++ rid ∷ [] =
        names-append nodes (row ∷ []) ∙ ap (λ y. names nodes ++ y ∷ []) own in
      rw more (
        λ x m found. elim (Bool-cases (rid == x)) [
          | inl same ↦ (
            d,
            subst (λ y. IsAt ((rid, d) ∷ history) y d) ((eq_iff rid x).0 same)
                (contains_self (rid, d) history),
          )
          | inr other ↦
              let (k, n) = h.0 x (ground (arith, m, other)) found in (k, ground (arith, n))
        ],
        (
          ground (arith, contains-append (names nodes) (rid ∷ []) rid, beq_refl rid),
          All-map
              (λ (e : String × ℕ) c.
                ground (arith, contains-append (names nodes) (rid ∷ []) e.0, c))
              history h.1,
        ),
      )

  enqueue-IsOpen :
      (current : String × ℕ) (history : List (String × ℕ)) (rid : String) (walk : Walk)
      → IsOpen current history walk
      → (more : List (String × ℕ)) × IsOpen current more
          (enqueue rid (current.1 + 1) (find_info rid graph.nodes) walk)
  unfolding enqueue
  enqueue-IsOpen current history rid walk (recorded, shallow, sorted, low, high, done, rooted) =
      let d = current.1 + 1 in
      elim (Option-cases (find_info rid graph.nodes)) [
        | inl e ↦ rw e (
          history,
          (
            IsRecorded-none history walk.visited walk.collected_nodes rid e recorded,
            shallow,
            sorted,
            low,
            high,
            done,
            rooted,
          ),
        )
        | inr (row, e) ↦ rw e (
          (rid, d) ∷ history,
          (
            IsRecorded-some history walk.visited walk.collected_nodes rid d row
                (ref_id-find_info rid graph.nodes row e) recorded,
            (omega arith, shallow),
            IsSorted-append walk.queue rid d sorted high,
            All-append_one (λ (x : String × ℕ). current.1 ≤ x.1) walk.queue (rid, d) low
                (omega arith),
            All-append_one (λ (x : String × ℕ). x.1 ≤ d) walk.queue (rid, d) high (omega arith),
            (
              inr (
                  inl (
                    ground (
                      arith,
                      contains-append walk.queue ((rid, d) ∷ []) (rid, d),
                      contains_self {A = String × ℕ} (rid, d) [],
                    ))),
              All-map
                  (λ entry t. elim t [
                    | inl same ↦ inl same
                    | inr k ↦ inr (IsDone-more history walk.queue (rid, d) entry k)
                  ])
                  history done,
            ),
            λ x m found. ground (arith, rooted x m found),
          ),
        )
      ]

  visit_one-IsOpen :
      (current : String × ℕ) (history : List (String × ℕ)) (rid : String) (edge : EdgeInfo)
      (walk : Walk)
      → IsOpen current history walk
      → (more : List (String × ℕ)) × IsOpen current more
          (visit_one graph (current.1 + 1) (rid, edge) walk)
  unfolding visit_one
  visit_one-IsOpen current history rid edge walk h =
      let k = record_edge-IsOpen current history edge walk h in
      elim (Bool-cases (contains walk.visited rid)) [
        | inl e ↦ rw e (history, k)
        | inr e ↦ rw e (enqueue-IsOpen current history rid (record_edge edge walk) k)
      ]

  pub visit-IsOpen :
      (max_nodes : ℕ) (current : String × ℕ) (history : List (String × ℕ))
      (rest : List (String × EdgeInfo)) (walk : Walk)
      → IsOpen current history walk
      → (more : List (String × ℕ)) × IsOpen current more
          (visit graph max_nodes (current.1 + 1) rest walk)
  unfolding visit
  visit-IsOpen max_nodes current history [] walk h = (history, h)
  visit-IsOpen max_nodes current history ((rid, edge) ∷ rest) walk h =
      elim (Bool-cases (not (contains walk.visited rid) && leb max_nodes (length walk.visited))) [
        | inl e ↦ rw e (history, record_edge-IsOpen current history edge walk h)
        | inr e ↦
            let (more, k) = visit_one-IsOpen current history rid edge walk h in
            rw e (
              visit-IsOpen max_nodes current more rest
                (visit_one graph (current.1 + 1) (rid, edge) walk) k)
      ]
