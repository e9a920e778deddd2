-- ===== src/Graph/Diff/Own.antt =====
-- The diff of a graph against a snapshot of the very same rows.
use native.Mathlib.Omega.{arith}
use mathlib.Core.Logic.Iff
use beadloom.Base.{
  String, true, false, Option, none, some, List, ◌≡◌, ◌≢◌, ◌↔◌, ◌⊎◌, inl, inr, refl, eq_iff, any_of,
  is_blank,
}
use beadloom.Graph.Diff.{Row, EdgeKey, or_empty, source_text, compute_diff_from_snapshot}
use beadloom.Graph.Diff.Rows.{latest}
use beadloom.Graph.Diff.Changes.{is_about, Calls, compute_diff-nodes}

-- The two readings of a source agree but on null.
texts_agree_iff : (o : Option String) → (or_empty o ≡ source_text o) ↔ (o ≢ none)
unfolding source_text
texts_agree_iff none = ((λ e. absurd (ground (arith, eq_iff "" "None"))), λ n. absurd (n refl))
texts_agree_iff (some source) = ((λ _ n. ground (arith, n)), λ _. refl)

none_cases : (o : Option String) → (o ≡ none) ⊎ (o ≢ none)
none_cases none = inl refl
none_cases (some source) = inr (λ n. ground (arith, n))

own_iff :
    (change_type : String) (o : Option Row)
    → Calls change_type o o
      ↔ ((change_type ≡ "changed") × ((row : Row) × (o ≡ some row) × (row.source ≡ none)))
own_iff change_type none = (λ h. absurd h, λ (_, (_, e, _)). absurd (ground (arith, e)))
own_iff change_type (some row) = elim (none_cases row.source) [
  | inl null ↦ (
    λ (_, named). (named, (row, refl, null)),
    λ (named, _). ((λ u. (texts_agree_iff row.source).0 u.2 null), named),
  )
  | inr given ↦ (
    λ (changed, _). absurd (changed (refl, refl, (texts_agree_iff row.source).1 given, refl)),
    λ (_, (row', e, null)). absurd (given (ground (arith, e, null))),
  )
]

-- A diff of a graph against the snapshot of the very same rows, for a name that is not empty, reports no change of
-- the node but this one: a node whose source is null is reported as changed.
pub compute_diff-own_rows :
    (rows : List Row) (snap_edges edges : List EdgeKey) (ref_id change_type : String)
    → is_blank ref_id ≡ false
    → (any_of
          (is_about ref_id change_type)
          (compute_diff_from_snapshot rows snap_edges rows edges).nodes
        ≡ true)
      ↔ ((change_type ≡ "changed")
          × ((row : Row) × (latest ref_id rows ≡ some row) × (row.source ≡ none)))
compute_diff-own_rows rows snap_edges edges ref_id change_type h =
    let reported = compute_diff-nodes rows rows snap_edges edges ref_id change_type in
    Iff.trans (rw h at reported) (own_iff change_type (latest ref_id rows))
