-- ===== src/Graph/Rules/Cycles/Invariants.antt =====
-- A property of what is found that recording a cycle keeps is kept by the whole search.
use native.Mathlib.Omega.{arith}
use beadloom.Base.{
  ℕ, zero, suc, ◌-◌, String, some, List, [], ◌∷◌, ◌≡◌, subst, contains, length, ltb, Bool-cases,
  inl, inr, string_equality,
}
use beadloom.Graph.Rules.Cycles.{
  Adjacency, neighbors, Frame, Found, Search, from_first, record_path, record_cycle, visit_one,
  visit, walk_fuel, degree, cost, start_frame, walk_cycles, walk_all,
}
use beadloom.Graph.Rules.Types.{CycleRule}
use beadloom.Graph.Rules.Cycles.Terminates.{walk_cycles_total}

module _ (P : Found → Type 0) (rule : CycleRule)
    (kept : (cycle : List String) (closing : String) (found : Found)
      → P found
      → P (record_path rule cycle closing found)) where
  pub visit_one-keeps :
      (frame : Frame) (node : String) (search : Search)
      → P search.found
      → P (visit_one rule frame node search).found
  unfolding visit_one record_cycle
  visit_one-keeps frame node search h = elim (Bool-cases (contains frame.path_set node)) [
    | inl e ↦ rw e (kept (from_first node frame.path) node search.found h)
    | inr e ↦ rw e (elim (Bool-cases (ltb (length frame.path) rule.max_depth)) [
      | inl f ↦ rw f h
      | inr f ↦ rw f h
    ])
  ]

  pub visit-keeps :
      (frame : Frame) (nodes : List String) (search : Search)
      → P search.found
      → P (visit rule frame nodes search).found
  unfolding visit
  visit-keeps frame [] search h = h
  visit-keeps frame (node ∷ nodes) search h =
      visit-keeps frame nodes (visit_one rule frame node search)
        (visit_one-keeps frame node search h)

  pub walk_fuel-keeps :
      (n : ℕ) (adj : Adjacency) (stack : List Frame) (found result : Found)
      → walk_fuel n rule adj stack found ≡ some result
      → P found
      → P result
  unfolding walk_fuel
  walk_fuel-keeps n adj [] found result e h =
      let same : found ≡ result = ground (arith, e) in subst P same h
  walk_fuel-keeps zero adj (frame ∷ stack) found result e h = absurd (ground (arith, e))
  walk_fuel-keeps (suc n) adj (frame ∷ stack) found result e h =
      let nodes = neighbors adj frame.node in
      let start : Search = record { stack = stack; found = found } in
      let search = visit rule frame nodes start in
      walk_fuel-keeps n adj search.stack search.found result e (visit-keeps frame nodes start h)

  pub walk_cycles-keeps :
      (node : String) (adj : Adjacency) (found : Found)
      → P found
      → P (walk_cycles node adj rule found)
  walk_cycles-keeps node adj found h =
      walk_fuel-keeps (cost (degree adj) (rule.max_depth - 1)) adj (start_frame node ∷ []) found _
        (walk_cycles_total node adj rule found) h

  pub walk_all-keeps :
      (nodes : List String) (adj : Adjacency) (found : Found)
      → P found
      → P (walk_all nodes adj rule found)
  unfolding walk_all
  walk_all-keeps [] adj found h = h
  walk_all-keeps (node ∷ nodes) adj found h =
      walk_all-keeps nodes adj (walk_cycles node adj rule found)
        (walk_cycles-keeps node adj found h)
