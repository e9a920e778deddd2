-- ===== src/Graph/Diff.antt =====
-- src/beadloom/graph/diff.py: the comparison of a saved snapshot with the current graph. The proofs are in the
-- module below.
pub mod Rows
pub mod Changes
pub mod Own
mod Tests
use Prim.Native.Nat.{Ordering}
use Prim.Native.String.{compare}
use beadloom.Base.{
  map, sort_by, String, Bool, true, false, not, ◌&&◌, ◌||◌, Option, none, some, List, [], ◌∷◌, ◌++◌,
  if◌then◌else◌, ◌==◌, string_equality, list_equality, pair_equality, contains, is_empty, is_blank,
  keys, lookup, insert, sort_unique,
}

-- A row of `nodes`, of a snapshot or of the database, with the tags of its `extra`; `source` can be null. The
-- two lookup tables hold the same keys without the name, so they are rows too.
pub record Row : Type 0 where
  pub ref_id : String
  pub kind : String
  pub summary : String
  pub source : Option String
  pub tags : List String

-- `NodeChange`, without the counts of symbols that stay zero
pub record NodeChange : Type 0 where
  pub ref_id : String
  pub kind : String
  pub change_type : String
  pub old_summary : Option String
  pub new_summary : Option String
  pub old_source : Option String
  pub new_source : Option String
  pub old_tags : List String
  pub new_tags : List String

-- `EdgeChange`
pub record EdgeChange : Type 0 where
  pub src : String
  pub dst : String
  pub kind : String
  pub change_type : String

-- `GraphDiff`, without the label of what it was computed since
pub record GraphDiff : Type 0 where
  pub nodes : List NodeChange
  pub edges : List EdgeChange

-- `GraphDiff.has_changes`
abbrev pub has_changes : GraphDiff → Bool
has_changes diff = not (is_empty diff.nodes && is_empty diff.edges)

abbrev pub before : Ordering → Bool → Bool
before Ordering.lt rest = true
before Ordering.eq rest = rest
before Ordering.gt rest = false

abbrev pub text_before : String → String → Bool
text_before a b = before (compare a b) false

-- `tuple(sorted(...))` of the tags
abbrev pub with_sorted_tags : Row → Row
with_sorted_tags row = record row { tags = sort_by text_before row.tags }

-- `row["source"] or ""`
abbrev pub or_empty : Option String → String
or_empty none = ""
or_empty (some source) = source

-- what the table holds of a row of the database
abbrev pub live : Row → Row
live row = record (with_sorted_tags row) { source = some (or_empty row.source) }

-- the loop over the rows of the database
unfoldable pub current_map : List (String × Row) → List Row → List (String × Row)
unfolding insert sort_by
current_map by_id [] = by_id
current_map by_id (row ∷ rows) = current_map (insert row.ref_id (live row) by_id) rows

-- the loop over the rows of the snapshot, which leaves out those without a name
unfoldable pub snapshot_map : List (String × Row) → List Row → List (String × Row)
unfolding insert sort_by
snapshot_map by_id [] = by_id
snapshot_map by_id (row ∷ rows) =
    snapshot_map
      (if is_blank row.ref_id then by_id else insert row.ref_id (with_sorted_tags row) by_id) rows

abbrev filled : String → Option String
filled s = if is_blank s then none else some s

abbrev pub bare_change : Row → String → NodeChange
bare_change row change_type = record {
  ref_id = row.ref_id;
  kind = row.kind;
  change_type = change_type;
  old_summary = none;
  new_summary = none;
  old_source = none;
  new_source = none;
  old_tags = [];
  new_tags = [];
}

-- `str(curr.get("source", ""))`, on a key that is there
unfoldable pub source_text : Option String → String
source_text none = "None"
source_text (some source) = source

-- the four comparisons of two rows
unfoldable pub is_same : Row → Row → Bool
unfolding source_text
is_same current old =
    (current.kind == old.kind)
    && ((current.summary == old.summary)
        && ((source_text current.source == source_text old.source) && (current.tags == old.tags)))

-- the body of the loop over `sorted(all_ref_ids)`
unfoldable pub node_change : String → Option Row → Option Row → List NodeChange
unfolding is_same source_text
node_change ref_id none none = []
node_change ref_id (some current) none =
    record (bare_change current "added") { ref_id = ref_id } ∷ []
node_change ref_id none (some old) = record (bare_change old "removed") { ref_id = ref_id } ∷ []
node_change ref_id (some current) (some old) =
    if is_same current old
    then []
    else record (bare_change current "changed") {
      ref_id = ref_id;
      old_summary = filled old.summary;
      new_summary = filled current.summary;
      old_source = filled (source_text old.source);
      new_source = filled (source_text current.source);
      old_tags = old.tags;
      new_tags = current.tags;
    }
      ∷ []

unfoldable pub node_changes :
    List (String × Row) → List (String × Row) → List String → List NodeChange
unfolding node_change
node_changes current old [] = []
node_changes current old (ref_id ∷ ref_ids) =
    node_change ref_id (lookup ref_id current) (lookup ref_id old)
    ++ node_changes current old ref_ids

abbrev pub EdgeKey : Type 0
EdgeKey = String × (String × String)

abbrev pub edge_change : String → EdgeKey → EdgeChange
edge_change change_type (src, (dst, kind)) = record {
  src = src;
  dst = dst;
  kind = kind;
  change_type = change_type;
}

unfoldable pub edge_before : EdgeKey → EdgeKey → Bool
edge_before (a, (b, c)) (d, (e, f)) = before (compare a d) (before (compare b e) (text_before c f))

-- the difference of two sets of edges
unfoldable pub without : List EdgeKey → List EdgeKey → List EdgeKey
without others [] = []
without others (e ∷ edges) =
    let rest = without others edges in
    if contains others e || contains rest e then rest else e ∷ rest

-- one of the two loops over the edges
unfoldable pub edge_changes : String → List EdgeKey → List EdgeKey → List EdgeChange
unfolding without edge_before sort_by
edge_changes change_type others edges =
    map (edge_change change_type) (sort_by edge_before (without others edges))

-- `compute_diff_from_snapshot`, from the rows that the snapshot and the database hold
unfoldable pub compute_diff_from_snapshot :
    List Row → List EdgeKey → List Row → List EdgeKey → GraphDiff
unfolding current_map snapshot_map node_changes edge_changes sort_unique
compute_diff_from_snapshot snap_rows snap_edges rows edges =
    let current = current_map [] rows in
    let old = snapshot_map [] snap_rows in
    record {
      nodes = node_changes current old (sort_unique (keys current ++ keys old));
      edges = edge_changes "added" snap_edges edges ++ edge_changes "removed" edges snap_edges;
    }
