-- ===== src/Graph/Rules/Cycles/Terminates.antt =====
-- The search for cycles ends: the depth bounds the paths, and the stack holds no path twice.
use native.Mathlib.Omega.{arith}
use native.Mathlib.Nat.{suc-mul, mul-zero, mul-le-mul_right}
use beadloom.Base.{
  ℕ, zero, suc, ◌+◌, ◌*◌, ◌-◌, ◌≤◌, String, some, List, [], ◌∷◌, ◌++◌, ◌==◌, string_equality,
  if◌then◌else◌, ◌≡◌, refl, contains, length, length-append, ltb, ltb_iff, Bool-cases, inl, inr,
}
use beadloom.Graph.Rules.Cycles.{
  Adjacency, neighbors, Frame, Found, Search, visit_one, visit, walk_fuel, degree, cost,
  start_frame, walk_cycles,
}
use beadloom.Graph.Rules.Types.{CycleRule}

length-neighbors : (adj : Adjacency) (node : String) → length (neighbors adj node) ≤ degree adj
unfolding neighbors degree
length-neighbors [] node = omega arith
length-neighbors ((src, nodes) ∷ adj) node = elim (Bool-cases (src == node)) [
  | inl e ↦ rw e (omega arith)
  | inr e ↦ rw e (omega (arith, length-neighbors adj node))
]

-- what the frames of the stack can still cost
unfoldable stack_cost : ℕ → ℕ → List Frame → ℕ
stack_cost d depth [] = 0
stack_cost d depth (frame ∷ stack) = cost d (depth - length frame.path) + stack_cost d depth stack

-- what one extension of a path of the length can cost
unfoldable room : ℕ → ℕ → ℕ → ℕ
room d depth l = if ltb l depth then cost d (depth - suc l) else 0

cost-room : (d depth l : ℕ) → 1 + d * room d depth l ≤ cost d (depth - l)
cost-room d depth l = elim (Bool-cases (ltb l depth)) [
  | inl e ↦
      let less : depth - l ≡ suc (depth - suc l) = ground (arith, ltb_iff l depth, e) in
      rw less (unfold cost room in rw e (omega arith))
  | inr e ↦
      let less : depth - l ≡ 0 = ground (arith, ltb_iff l depth, e) in
      rw less (unfold cost room in rw e (omega (arith, mul-zero d)))
]

visit_one-cost :
    (rule : CycleRule) (d : ℕ) (frame : Frame) (node : String) (search : Search)
    → stack_cost d rule.max_depth (visit_one rule frame node search).stack
      ≤ stack_cost d rule.max_depth search.stack + room d rule.max_depth (length frame.path)
unfolding visit_one room stack_cost
visit_one-cost rule d frame node search = elim (Bool-cases (contains frame.path_set node)) [
  | inl e ↦ rw e (omega arith)
  | inr e ↦ rw e (elim (Bool-cases (ltb (length frame.path) rule.max_depth)) [
    | inl f ↦
        let longer : length (frame.path ++ node ∷ []) ≡ suc (length frame.path) =
          omega (arith, length-append frame.path (node ∷ [])) in
        rw f (rw longer (omega arith))
    | inr f ↦ rw f (omega arith)
  ])
]

visit-cost :
    (rule : CycleRule) (d : ℕ) (frame : Frame) (nodes : List String) (search : Search)
    → stack_cost d rule.max_depth (visit rule frame nodes search).stack
      ≤ stack_cost d rule.max_depth search.stack
        + length nodes * room d rule.max_depth (length frame.path)
unfolding visit
visit-cost rule d frame [] search = omega arith
visit-cost rule d frame (node ∷ nodes) search = omega (
  arith,
  visit-cost rule d frame nodes (visit_one rule frame node search),
  visit_one-cost rule d frame node search,
  suc-mul (length nodes) (room d rule.max_depth (length frame.path)),
)

walk_fuel-total :
    (n : ℕ) (rule : CycleRule) (adj : Adjacency) (stack : List Frame) (found : Found)
    → stack_cost (degree adj) rule.max_depth stack ≤ n
    → (result : Found) × (walk_fuel n rule adj stack found ≡ some result)
unfolding walk_fuel stack_cost
walk_fuel-total n rule adj [] found h = (found, refl)
walk_fuel-total zero rule adj (frame ∷ stack) found h =
    absurd (omega (arith, h, cost-room (degree adj) rule.max_depth (length frame.path)))
walk_fuel-total (suc n) rule adj (frame ∷ stack) found h =
    let nodes = neighbors adj frame.node in
    let search = visit rule frame nodes (record { stack = stack; found = found }) in
    walk_fuel-total n rule adj search.stack search.found (
      omega (
        arith,
        h,
        visit-cost rule (degree adj) frame nodes (record { stack = stack; found = found }),
        cost-room (degree adj) rule.max_depth (length frame.path),
        mul-le-mul_right (room (degree adj) rule.max_depth (length frame.path))
            (length-neighbors adj frame.node),
      ))

-- The search from a node ends: the fuel that `walk_cycles` gives is enough for its loop, which returns what
-- `walk_cycles` returns.
pub walk_cycles_total :
    (node : String) (adj : Adjacency) (rule : CycleRule) (found : Found)
    → walk_fuel (cost (degree adj) (rule.max_depth - 1)) rule adj (start_frame node ∷ []) found
      ≡ some (walk_cycles node adj rule found)
unfolding walk_cycles stack_cost
walk_cycles_total node adj rule found =
    let (result, e) =
      walk_fuel-total (cost (degree adj) (rule.max_depth - 1)) rule adj (start_frame node ∷ [])
        found (omega arith) in
    rw e
