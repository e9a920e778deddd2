-- ===== src/Graph/Diff/Tests.antt =====
-- A diff of small graphs, and the theorems at it.
use beadloom.Base.{
  String, Bool, true, false, not, ◌&&◌, ◌||◌, none, some, List, [], ◌∷◌, ◌≡◌, ◌↔◌, refl, ◌==◌,
  string_equality, pair_equality, contains, any_of,
}
use beadloom.Graph.Diff.{Row, EdgeKey, NodeChange, compute_diff_from_snapshot}
use beadloom.Graph.Diff.Changes.{is_about, Calls, is_edge, compute_diff-nodes, compute_diff-edges}
use beadloom.Graph.Diff.Rows.{current_row, saved_row, latest}
use beadloom.Graph.Diff.Own.{compute_diff-own_rows}

abbrev row : String → String → Row
row ref_id summary = record {
  ref_id = ref_id;
  kind = "service";
  summary = summary;
  source = some "src";
  tags = [];
}

abbrev old_rows : List Row
old_rows = row "cart" "baskets" ∷ row "mail" "letters" ∷ []

abbrev new_rows : List Row
new_rows = row "cart" "orders" ∷ row "bill" "invoices" ∷ []

abbrev old_edges : List EdgeKey
old_edges = ("cart", ("mail", "uses")) ∷ []

abbrev new_edges : List EdgeKey
new_edges = ("cart", ("bill", "uses")) ∷ []

abbrev types : List NodeChange → List (String × String)
types [] = []
types (change ∷ changes) = (change.ref_id, change.change_type) ∷ types changes

diff_runs :
    types (compute_diff_from_snapshot old_rows old_edges new_rows new_edges).nodes
    ≡ ("bill", "added") ∷ ("cart", "changed") ∷ ("mail", "removed") ∷ []
unfolding compute_diff_from_snapshot beadloom.Base.is_blank
diff_runs = refl

compute_diff-nodes_example :
    (any_of
        (is_about "cart" "changed")
        (compute_diff_from_snapshot old_rows old_edges new_rows new_edges).nodes
      ≡ true)
    ↔ Calls "changed" (current_row "cart" new_rows) (saved_row "cart" old_rows)
compute_diff-nodes_example =
    compute_diff-nodes old_rows new_rows old_edges new_edges "cart" "changed"

abbrev changed : String
changed = "changed"

-- A row whose source is null, saved and compared with itself.
abbrev unplaced : List Row
unplaced = record (row "cart" "baskets") { source = none } ∷ []

own_runs :
    types (compute_diff_from_snapshot unplaced [] unplaced []).nodes ≡ ("cart", "changed") ∷ []
unfolding compute_diff_from_snapshot beadloom.Base.is_blank
own_runs = refl

compute_diff-own_rows_example :
    (any_of (is_about "cart" "changed") (compute_diff_from_snapshot unplaced [] unplaced []).nodes
      ≡ true)
    ↔ ((changed ≡ "changed")
        × ((row : Row) × (latest "cart" unplaced ≡ some row) × (row.source ≡ none)))
unfolding beadloom.Base.is_blank
compute_diff-own_rows_example = compute_diff-own_rows unplaced [] [] "cart" "changed" refl

abbrev added : String
added = "added"

compute_diff-edges_example :
    any_of
      (is_edge ("cart", ("bill", "uses")) "added")
      (compute_diff_from_snapshot old_rows old_edges new_rows new_edges).edges
    ≡ (((contains new_edges ("cart", ("bill", "uses"))
            && not (contains old_edges ("cart", ("bill", "uses"))))
          && ("added" == added))
        || ((contains old_edges ("cart", ("bill", "uses"))
              && not (contains new_edges ("cart", ("bill", "uses"))))
            && ("removed" == added)))
compute_diff-edges_example =
    compute_diff-edges old_rows new_rows old_edges new_edges ("cart", ("bill", "uses")) added
