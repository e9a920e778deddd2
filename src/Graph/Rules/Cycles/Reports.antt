-- ===== src/Graph/Rules/Cycles/Reports.antt =====
-- Each recorded cycle has one violation; and the graph that is searched holds the rows.
use native.Mathlib.Omega.{arith}
use beadloom.Base.{
  ℕ, ◌+◌, String, Bool, false, ◌||◌, ◌&&◌, List, [], ◌∷◌, ◌++◌, ◌==◌, if◌then◌else◌,
  string_equality, list_equality, pair_equality, eq_iff, ◌≡◌, refl, ◌∙◌, contains, contains-append,
  length, length-append, insert, lookup-insert, Bool-cases, inl, inr, sort_unique,
}
use beadloom.Graph.Rules.Cycles.{
  Adjacency, neighbors, add_rows, build_adjacency, Found, normalize_cycle, cycle_violation,
  record_path, all_nodes, search_rule,
}
use beadloom.Graph.Rules.Types.{CycleRule, Violation}
use beadloom.Graph.Rules.Cycles.Invariants.{walk_all-keeps}

-- No cycle stands twice.
abbrev pub IsUnique : List (List String) → Type 0
IsUnique [] = Unit
IsUnique (cycle ∷ cycles) = (contains cycles cycle ≡ false) × IsUnique cycles

-- So many violations stood there before, each recorded cycle has added one, and no cycle is recorded twice.
abbrev pub IsReported : ℕ → Found → Type 0
IsReported before found =
    (length found.violations ≡ before + length found.seen_cycles) × IsUnique found.seen_cycles

record_path-IsReported :
    (before : ℕ) (rule : CycleRule) (cycle : List String) (closing : String) (found : Found)
    → IsReported before found
    → IsReported before (record_path rule cycle closing found)
unfolding record_path
record_path-IsReported before rule cycle closing found h =
    elim (Bool-cases (contains found.seen_cycles (normalize_cycle cycle))) [
      | inl e ↦ rw e h
      | inr e ↦ rw e (
        omega
            (arith, h.0, length-append found.violations (cycle_violation rule cycle closing ∷ [])),
        (e, h.1),
      )
    ]

-- The search of a rule adds as many violations as it records cycles, and it records no cycle twice.
pub search_rule-IsReported :
    (adj : Adjacency) (rule : CycleRule) (violations : List Violation)
    → IsReported (length violations) (search_rule adj rule violations)
unfolding search_rule
search_rule-IsReported adj rule violations =
    walk_all-keeps (IsReported (length violations)) rule
      (record_path-IsReported (length violations) rule) (sort_unique (all_nodes adj)) adj
      (record { seen_cycles = []; violations = violations }) (omega arith, tt)

or_assoc : (a b c : Bool) → ((a || b) || c) ≡ (a || (b || c))
or_assoc a b c = ground arith

neighbors-insert :
    (adj : Adjacency) (src : String) (nodes : List String) (a : String)
    → neighbors (insert src nodes adj) a ≡ (if src == a then nodes else neighbors adj a)
unfolding neighbors
neighbors-insert adj src nodes a = elim (Bool-cases (src == a)) [
  | inl e ↦ rw (lookup-insert src a nodes adj) (rw e)
  | inr e ↦ rw (lookup-insert src a nodes adj) (rw e)
]

contains-add_row :
    (adj : Adjacency) (src dst a b : String)
    → contains (neighbors (insert src (neighbors adj src ++ dst ∷ []) adj) a) b
      ≡ (contains (neighbors adj a) b || ((src == a) && (dst == b)))
contains-add_row adj src dst a b = elim (Bool-cases (src == a)) [
  | inl e ↦
      let same : src ≡ a = (eq_iff src a).0 e in
      rw (neighbors-insert adj src (neighbors adj src ++ dst ∷ []) a)
        (rw e (rw (contains-append (neighbors adj src) (dst ∷ []) b) (rw same (ground arith))))
  | inr e ↦ rw (neighbors-insert adj src (neighbors adj src ++ dst ∷ []) a) (rw e (ground arith))
]

contains-add_rows :
    (adj : Adjacency) (rows : List (String × String)) (a b : String)
    → contains (neighbors (add_rows adj rows) a) b
      ≡ (contains (neighbors adj a) b || contains rows (a, b))
unfolding add_rows
contains-add_rows adj [] a b = ground arith
contains-add_rows adj ((src, dst) ∷ rows) a b =
    contains-add_rows (insert src (neighbors adj src ++ dst ∷ []) adj) rows a b
    ∙ rw (contains-add_row adj src dst a b)
        (or_assoc (contains (neighbors adj a) b) ((src == a) && (dst == b)) (contains rows (a, b)))

-- The graph has an edge between two nodes exactly when they are a row of the query.
pub contains-build_adjacency :
    (rows : List (String × String)) (a b : String)
    → contains (neighbors (build_adjacency rows) a) b ≡ contains rows (a, b)
unfolding build_adjacency
contains-build_adjacency rows a b = contains-add_rows [] rows a b ∙ (unfold neighbors in refl)
