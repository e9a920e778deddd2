-- ===== src/Graph/Diff/Rows.antt =====
-- The rows that the tables of a diff hold, and when two of them are the same.
use native.Mathlib.Omega.{arith}
use beadloom.Base.{
  String, true, false, Option, none, some, List, [], ◌∷◌, if◌then◌else◌, ◌==◌, string_equality,
  list_equality, ◌≡◌, ◌↔◌, refl, eq_iff, is_blank, lookup, insert, lookup-insert, Bool-cases, inl,
  inr, sort_by,
}
use beadloom.Graph.Diff.{
  Row, or_empty, live, with_sorted_tags, source_text, text_before, is_same, current_map,
  snapshot_map,
}

-- The last row of the name.
unfoldable pub latest : String → List Row → Option Row
latest ref_id [] = none
latest ref_id (row ∷ rows) = elim (latest ref_id rows) [
  | none ↦ if row.ref_id == ref_id then some row else none
  | some later ↦ some later
]

abbrev pub or_row : (Row → Row) → Option Row → Option Row → Option Row
or_row f none o = o
or_row f (some row) o = some (f row)

pub lookup-current_map :
    (by_id : List (String × Row)) (rows : List Row) (ref_id : String)
    → lookup ref_id (current_map by_id rows)
      ≡ or_row live (latest ref_id rows) (lookup ref_id by_id)
unfolding current_map latest
lookup-current_map by_id [] ref_id = refl
lookup-current_map by_id (row ∷ rows) ref_id = ground (
  arith,
  lookup-current_map (insert row.ref_id (live row) by_id) rows ref_id,
  lookup-insert row.ref_id ref_id (live row) by_id,
)

lookup-snapshot_map :
    (by_id : List (String × Row)) (rows : List Row) (ref_id : String)
    → is_blank ref_id ≡ false
    → lookup ref_id (snapshot_map by_id rows)
      ≡ or_row with_sorted_tags (latest ref_id rows) (lookup ref_id by_id)
unfolding snapshot_map latest
lookup-snapshot_map by_id [] ref_id h = refl
lookup-snapshot_map by_id (row ∷ rows) ref_id h = elim (Bool-cases (is_blank row.ref_id)) [
  | inl e ↦ rw e (ground (arith, lookup-snapshot_map by_id rows ref_id h, eq_iff row.ref_id ref_id))
  | inr e ↦ rw e (
      ground (
        arith,
        lookup-snapshot_map (insert row.ref_id (with_sorted_tags row) by_id) rows ref_id h,
        lookup-insert row.ref_id ref_id (with_sorted_tags row) by_id,
      ))
]

lookup-snapshot_map_blank :
    (by_id : List (String × Row)) (rows : List Row) (ref_id : String)
    → is_blank ref_id ≡ true
    → lookup ref_id (snapshot_map by_id rows) ≡ lookup ref_id by_id
unfolding snapshot_map
lookup-snapshot_map_blank by_id [] ref_id h = refl
lookup-snapshot_map_blank by_id (row ∷ rows) ref_id h = elim (Bool-cases (is_blank row.ref_id)) [
  | inl e ↦ rw e (lookup-snapshot_map_blank by_id rows ref_id h)
  | inr e ↦ rw e (
      ground (
        arith,
        lookup-snapshot_map_blank (insert row.ref_id (with_sorted_tags row) by_id) rows ref_id h,
        lookup-insert row.ref_id ref_id (with_sorted_tags row) by_id,
        eq_iff row.ref_id ref_id,
      ))
]

-- The row that the database has for a name, and the one that the snapshot has.
abbrev pub current_row : String → List Row → Option Row
current_row = latest

abbrev pub saved_row : String → List Row → Option Row
saved_row ref_id rows = if is_blank ref_id then none else latest ref_id rows

pub lookup-saved :
    (rows : List Row) (ref_id : String)
    → lookup ref_id (snapshot_map [] rows) ≡ or_row with_sorted_tags (saved_row ref_id rows) none
lookup-saved rows ref_id = elim (Bool-cases (is_blank ref_id)) [
  | inl e ↦ rw e (lookup-snapshot_map_blank [] rows ref_id e)
  | inr e ↦ rw e (lookup-snapshot_map [] rows ref_id e)
]

-- Kind, summary and tags up to order are the same, and so is the source, where the database has null for an
-- empty text and the snapshot has null for the text None.
abbrev pub IsUnchanged : Row → Row → Type 0
IsUnchanged current old =
    (current.kind ≡ old.kind)
    × (current.summary ≡ old.summary)
    × (or_empty current.source ≡ source_text old.source)
    × (sort_by text_before current.tags ≡ sort_by text_before old.tags)

pub is_same_iff :
    (current old : Row)
    → (is_same (live current) (with_sorted_tags old) ≡ true) ↔ IsUnchanged current old
unfolding is_same source_text
is_same_iff current old =
    let kinds = eq_iff current.kind old.kind in
    let summaries = eq_iff current.summary old.summary in
    let sources = eq_iff (or_empty current.source) (source_text old.source) in
    let tags =
      (list_equality {A = String}).beq_iff (sort_by text_before current.tags)
        (sort_by text_before old.tags) in
    (λ h. ground arith, λ h. ground arith)
