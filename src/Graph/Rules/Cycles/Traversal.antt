-- ===== src/Graph/Rules/Cycles/Traversal.antt =====
-- Of a property of the frames that the steps of the search keep, and of the cycles that such frames close.
use native.Mathlib.Omega.{arith}
use beadloom.Base.{
  ℕ, zero, suc, ◌-◌, ◌<◌, String, true, false, some, List, [], ◌∷◌, ◌≡◌, subst, contains,
  contains_self, length, ltb, ltb_iff, Bool-cases, inl, inr, All, string_equality, list_equality,
  sort_unique,
}
use beadloom.Graph.Rules.Types.{CycleRule, Violation}
use beadloom.Graph.Rules.Cycles.{
  Adjacency, neighbors, Frame, Found, Search, from_first, normalize_cycle, extend, record_path,
  record_cycle, visit_one, visit, walk_fuel, degree, cost, start_frame, walk_cycles, walk_all,
  all_nodes, search_rule,
}
use beadloom.Graph.Rules.Cycles.Terminates.{walk_cycles_total}

abbrev pub Edge : Adjacency → String → String → Type 0
Edge adj a b = contains (neighbors adj a) b ≡ true

module _ (adj : Adjacency) (rule : CycleRule) (Live : Frame → Type 0) (Fine : List String → Type 0)
    (starts : (node : String) → Live (start_frame node))
    (closes : (frame : Frame) (node : String)
      → Live frame
      → Edge adj frame.node node
      → contains frame.path_set node ≡ true
      → Fine (normalize_cycle (from_first node frame.path)))
    (grows : (frame : Frame) (node : String)
      → Live frame
      → Edge adj frame.node node
      → contains frame.path_set node ≡ false
      → length frame.path < rule.max_depth
      → Live (extend frame node)) where
  abbrev pub IsFine : Search → Type 0
  IsFine search = All Live search.stack × All Fine search.found.seen_cycles

  record_path-Fine :
      (cycle : List String) (closing : String) (found : Found)
      → Fine (normalize_cycle cycle)
      → All Fine found.seen_cycles
      → All Fine (record_path rule cycle closing found).seen_cycles
  unfolding record_path
  record_path-Fine cycle closing found h k =
      elim (Bool-cases (contains found.seen_cycles (normalize_cycle cycle))) [
        | inl e ↦ rw e k
        | inr e ↦ rw e (h, k)
      ]

  visit_one-IsFine :
      (frame : Frame) (node : String) (search : Search)
      → Live frame
      → Edge adj frame.node node
      → IsFine search
      → IsFine (visit_one rule frame node search)
  unfolding visit_one record_cycle
  visit_one-IsFine frame node search h k s = elim (Bool-cases (contains frame.path_set node)) [
    | inl e ↦ rw e (
      s.0,
      record_path-Fine (from_first node frame.path) node search.found (closes frame node h k e) s.1,
    )
    | inr e ↦ rw e (elim (Bool-cases (ltb (length frame.path) rule.max_depth)) [
      | inl f ↦
          rw f
            ((grows frame node h k e ((ltb_iff (length frame.path) rule.max_depth).0 f), s.0), s.1)
      | inr f ↦ rw f s
    ])
  ]

  visit-IsFine :
      (frame : Frame) (nodes : List String) (search : Search)
      → Live frame
      → ((x : String) → contains nodes x ≡ true → Edge adj frame.node x)
      → IsFine search
      → IsFine (visit rule frame nodes search)
  unfolding visit
  visit-IsFine frame [] search h k s = s
  visit-IsFine frame (node ∷ nodes) search h k s =
      visit-IsFine frame nodes (visit_one rule frame node search) h (λ x m. k x (ground (arith, m)))
        (visit_one-IsFine frame node search h (k node (contains_self node nodes)) s)

  walk_fuel-Fine :
      (n : ℕ) (stack : List Frame) (found result : Found)
      → All Live stack
      → All Fine found.seen_cycles
      → walk_fuel n rule adj stack found ≡ some result
      → All Fine result.seen_cycles
  unfolding walk_fuel
  walk_fuel-Fine n [] found result h k e =
      let same : found ≡ result = ground (arith, e) in
      subst (λ (o : Found). All Fine o.seen_cycles) same k
  walk_fuel-Fine zero (frame ∷ stack) found result h k e = absurd (ground (arith, e))
  walk_fuel-Fine (suc n) (frame ∷ stack) found result h k e =
      let nodes = neighbors adj frame.node in
      let start : Search = record { stack = stack; found = found } in
      let s = visit-IsFine frame nodes start h.0 (λ x m. m) (h.1, k) in
      walk_fuel-Fine n (visit rule frame nodes start).stack (visit rule frame nodes start).found
        result s.0 s.1 e

  walk_all-Fine :
      (nodes : List String) (found : Found)
      → All Fine found.seen_cycles
      → All Fine (walk_all nodes adj rule found).seen_cycles
  unfolding walk_all
  walk_all-Fine [] found h = h
  walk_all-Fine (node ∷ nodes) found h = walk_all-Fine nodes (walk_cycles node adj rule found) (
      walk_fuel-Fine (cost (degree adj) (rule.max_depth - 1)) (start_frame node ∷ []) found _
        (starts node, tt) h (walk_cycles_total node adj rule found))

  pub search_rule-Fine :
      (violations : List Violation) → All Fine (search_rule adj rule violations).seen_cycles
  unfolding search_rule
  search_rule-Fine violations =
      walk_all-Fine (sort_unique (all_nodes adj))
        (record { seen_cycles = []; violations = violations }) tt
