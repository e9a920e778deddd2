-- ===== src/Graph/Diff/Changes.antt =====
-- What a diff reports of the nodes and of the edges.
use native.Mathlib.Omega.{arith}
use beadloom.Base.{sym}
use beadloom.Base.{
  String, Bool, true, false, not, ◌&&◌, ◌||◌, Option, none, some, List, [], ◌∷◌, ◌++◌, map,
  if◌then◌else◌, ◌==◌, string_equality, list_equality, pair_equality, ◌≡◌, ◌↔◌, refl, ◌∙◌, eq_iff,
  beq_refl, contains, contains-append, contains-sort_unique, any_of, any_of-append, any_of-sort_by,
  beq→eq, keys, lookup, lookup-eq-none_of_not-contains, Bool-cases, inl, inr, sort_unique, sort_by,
}
use beadloom.Graph.Diff.{
  Row, NodeChange, EdgeChange, live, with_sorted_tags, node_change, node_changes, EdgeKey,
  edge_change, edge_before, without, edge_changes, is_same, current_map, snapshot_map,
  compute_diff_from_snapshot,
}
use beadloom.Graph.Diff.Rows.{
  current_row, saved_row, or_row, lookup-current_map, lookup-saved, IsUnchanged, is_same_iff,
}

-- The change is about the node and of the type.
abbrev pub is_about : String → String → NodeChange → Bool
is_about ref_id change_type change =
    (change.ref_id == ref_id) && (change.change_type == change_type)

-- The type of change that the tables give a node, if they give it one.
abbrev expected : Option Row → Option Row → Option String
expected none none = none
expected (some current) none = some "added"
expected none (some old) = some "removed"
expected (some current) (some old) = if is_same current old then none else some "changed"

abbrev says : String → Option String → Bool
says change_type none = false
says change_type (some found) = found == change_type

about-node_change :
    (other : String) (current old : Option Row) (ref_id change_type : String)
    → any_of (is_about ref_id change_type) (node_change other current old)
      ≡ ((other == ref_id) && says change_type (expected current old))
unfolding node_change
about-node_change other none none ref_id change_type = ground arith
about-node_change other (some current) none ref_id change_type = ground arith
about-node_change other none (some old) ref_id change_type = ground arith
about-node_change other (some current) (some old) ref_id change_type = ground arith

about-node_changes :
    (current old : List (String × Row)) (ref_ids : List String) (ref_id change_type : String)
    → any_of (is_about ref_id change_type) (node_changes current old ref_ids) ≡ (
        contains ref_ids ref_id
        && says change_type (expected (lookup ref_id current) (lookup ref_id old)))
unfolding node_changes
about-node_changes current old [] ref_id change_type = refl
about-node_changes current old (other ∷ ref_ids) ref_id change_type =
    any_of-append (is_about ref_id change_type)
      (node_change other (lookup other current) (lookup other old))
      (node_changes current old ref_ids)
    ∙ rw (about-node_change other (lookup other current) (lookup other old) ref_id change_type) (
        rw (about-node_changes current old ref_ids ref_id change_type)
          (elim (Bool-cases (other == ref_id)) [
            | inl e ↦ rw ((eq_iff other ref_id).0 e) (rw (beq_refl ref_id) (ground arith))
            | inr e ↦ rw e (ground arith)
          ]))

about-compute_diff :
    (snap_rows rows : List Row) (snap_edges edges : List EdgeKey) (ref_id change_type : String)
    → any_of
        (is_about ref_id change_type)
        (compute_diff_from_snapshot snap_rows snap_edges rows edges).nodes
      ≡ says change_type (
          expected
            (lookup ref_id (current_map [] rows))
            (lookup ref_id (snapshot_map [] snap_rows)))
unfolding compute_diff_from_snapshot
about-compute_diff snap_rows rows snap_edges edges ref_id change_type =
    let current = current_map [] rows in
    let old = snapshot_map [] snap_rows in
    about-node_changes current old (sort_unique (keys current ++ keys old)) ref_id change_type
    ∙ rw (contains-sort_unique (keys current ++ keys old) ref_id) (
        rw (contains-append (keys current) (keys old) ref_id)
          (elim (Bool-cases (contains (keys current) ref_id || contains (keys old) ref_id)) [
            | inl e ↦ rw e (ground arith)
            | inr e ↦ rw e (
                rw (lookup-eq-none_of_not-contains ref_id current (ground (arith, e)))
                  (rw (lookup-eq-none_of_not-contains ref_id old (ground (arith, e))) refl))
          ]))

-- The change that the row of the database and that of the snapshot call for.
abbrev pub Calls : String → Option Row → Option Row → Type 0
Calls change_type none none = ⊥
Calls change_type (some current) none = change_type ≡ "added"
Calls change_type none (some old) = change_type ≡ "removed"
Calls change_type (some current) (some old) = ¬ IsUnchanged current old × (change_type ≡ "changed")

says_iff :
    (change_type : String) (current old : Option Row)
    → (says change_type (expected (or_row live current none) (or_row with_sorted_tags old none))
        ≡ true)
      ↔ Calls change_type current old
says_iff change_type none none = (λ h. ground (arith, h), λ h. absurd h)
says_iff change_type (some current) none = ground (arith, eq_iff "added" change_type)
says_iff change_type none (some old) = ground (arith, eq_iff "removed" change_type)
says_iff change_type (some current) (some old) =
    let same = is_same_iff current old in
    let named = eq_iff "changed" change_type in
    elim (Bool-cases (is_same (live current) (with_sorted_tags old))) [
      | inl e ↦ rw e (λ h. absurd (ground (arith, h)), λ h. absurd (h.0 (same.0 e)))
      | inr e ↦
          rw e (λ h. ((λ u. ground (arith, same.1 u)), sym (named.0 h)), λ h. named.1 (sym h.1))
    ]

-- The diff reports a change of a type for a node exactly when its last rows call for it: an added node has a row in
-- the database only, a removed one in the snapshot only, and a changed one has in both, with another kind,
-- summary, list of sorted tags, or source, where a source that is null stands for an empty text in the
-- database and for the text None in the snapshot. A row of the snapshot with an empty name does not count.
pub compute_diff-nodes :
    (snap_rows rows : List Row) (snap_edges edges : List EdgeKey) (ref_id change_type : String)
    → (any_of
          (is_about ref_id change_type)
          (compute_diff_from_snapshot snap_rows snap_edges rows edges).nodes
        ≡ true)
      ↔ Calls change_type (current_row ref_id rows) (saved_row ref_id snap_rows)
compute_diff-nodes snap_rows rows snap_edges edges ref_id change_type =
    rw (about-compute_diff snap_rows rows snap_edges edges ref_id change_type) (
      rw (lookup-current_map [] rows ref_id) (
        rw (lookup-saved snap_rows ref_id)
          (says_iff change_type (current_row ref_id rows) (saved_row ref_id snap_rows))))

or_false : (b : Bool) → b ≡ (b || false)
or_false b = ground arith

or_swap : (b c : Bool) → (b || c) ≡ (c || b)
or_swap b c = ground arith

absorb : (b c : Bool) → ((c && not b) || (not (b || (c && not b)) && true)) ≡ ((true || c) && not b)
absorb b c = ground arith

drop : (a b c : Bool) → ((c && not b) || (not a && false)) ≡ ((false || c) && not b)
drop a b c = ground arith

contains-if :
    (b : Bool) (x : EdgeKey) (rest : List EdgeKey) (e : EdgeKey)
    → contains (if b then rest else x ∷ rest) e ≡ (contains rest e || (not b && (x == e)))
contains-if true x rest e = or_false (contains rest e)
contains-if false x rest e = or_swap (x == e) (contains rest e)

contains-without :
    (others edges : List EdgeKey) (e : EdgeKey)
    → contains (without others edges) e ≡ (contains edges e && not (contains others e))
unfolding without
contains-without others [] e = refl
contains-without others (x ∷ edges) e =
    contains-if (contains others x || contains (without others edges) x) x (without others edges) e
    ∙ elim (Bool-cases (x == e)) [
      | inl same ↦ rw (beq→eq x e same) (
          rw (contains-without others edges e)
            (rw (beq_refl e) (absorb (contains others e) (contains edges e))))
      | inr other ↦ rw other (
          rw (contains-without others edges e) (
            drop (contains others x || contains (without others edges) x) (contains others e)
              (contains edges e)))
    ]

-- The change is about the edge and of the type.
abbrev pub is_edge : EdgeKey → String → EdgeChange → Bool
is_edge (src, (dst, kind)) change_type change =
    ((change.src == src) && ((change.dst == dst) && (change.kind == kind)))
    && (change.change_type == change_type)

spread : (a b c : Bool) → ((a && b) || (c && b)) ≡ ((a || c) && b)
spread a b c = ground arith

contains-any_of :
    (edges : List EdgeKey) (e : EdgeKey) → contains edges e ≡ any_of (λ x. x == e) edges
contains-any_of [] e = refl
contains-any_of (x ∷ edges) e = rw (contains-any_of edges e) refl

about-map :
    (made change_type : String) (edges : List EdgeKey) (e : EdgeKey)
    → any_of (is_edge e change_type) (map (edge_change made) edges)
      ≡ (contains edges e && (made == change_type))
about-map made change_type [] e = refl
about-map made change_type (x ∷ edges) e =
    rw (about-map made change_type edges e)
      (spread (x == e) (made == change_type) (contains edges e))

contains-sort_by :
    (edges : List EdgeKey) (e : EdgeKey) → contains (sort_by edge_before edges) e ≡ contains edges e
contains-sort_by edges e =
    contains-any_of (sort_by edge_before edges) e
    ∙ any_of-sort_by (λ x. x == e) edge_before edges
    ∙ sym (contains-any_of edges e)

about-edge_changes :
    (made change_type : String) (others edges : List EdgeKey) (e : EdgeKey)
    → any_of (is_edge e change_type) (edge_changes made others edges)
      ≡ ((contains edges e && not (contains others e)) && (made == change_type))
unfolding edge_changes
about-edge_changes made change_type others edges e =
    about-map made change_type (sort_by edge_before (without others edges)) e
    ∙ rw (contains-sort_by (without others edges) e) (rw (contains-without others edges e) refl)

-- The diff reports an edge as added exactly when the database has it and the snapshot does not, and as removed
-- exactly when the snapshot has it and the database does not.
pub compute_diff-edges :
    (snap_rows rows : List Row) (snap_edges edges : List EdgeKey) (e : EdgeKey)
    (change_type : String)
    → any_of
        (is_edge e change_type)
        (compute_diff_from_snapshot snap_rows snap_edges rows edges).edges
      ≡ (((contains edges e && not (contains snap_edges e)) && ("added" == change_type))
          || ((contains snap_edges e && not (contains edges e)) && ("removed" == change_type)))
unfolding compute_diff_from_snapshot
compute_diff-edges snap_rows rows snap_edges edges e change_type =
    any_of-append (is_edge e change_type) (edge_changes "added" snap_edges edges)
      (edge_changes "removed" edges snap_edges)
    ∙ rw (about-edge_changes "added" change_type snap_edges edges e)
        (rw (about-edge_changes "removed" change_type edges snap_edges e) refl)
