-- ===== src/Graph/Federation/Verdicts.antt =====
-- What the verdicts of edges stand for.
use native.Mathlib.Omega.{arith}
use beadloom.Base.{
  String, Bool, true, false, not, ◌&&◌, ◌||◌, Option, none, some, List, [], ◌∷◌, ◌==◌,
  string_equality, ◌≡◌, ◌≢◌, ◌↔◌, ◌⊎◌, refl, eq_iff, contains, contains-append, any_of, lookup,
  insert, lookup-insert,
}
use beadloom.Json.{py_str}
use beadloom.Graph.Refs.{is_foreign_ref}
use beadloom.Graph.Edge.{
  Edge, EdgeVerdict, ok, drift, expected, cleanup_candidate, undeclared, dead, external, unmapped,
}
use beadloom.Graph.Federation.{
  Node, is_external, is_undescribed, edge_verdict, index_nodes, ids, verdict_of, verdict_for,
  unresolved_of, unresolved_refs,
}

abbrev is_found : Option Node → Bool
is_found none = false
is_found (some _) = true

found-index :
    (nodes : List Node) (index : List (String × Node)) (ref_id : String)
    → is_found (lookup ref_id (index_nodes index nodes))
      ≡ (contains (ids nodes) ref_id || is_found (lookup ref_id index))
unfolding index_nodes
found-index [] index ref_id = refl
found-index (node ∷ nodes) index ref_id = ground (
  arith,
  found-index nodes (insert node.ref_id node index) ref_id,
  lookup-insert node.ref_id ref_id node index,
)

-- The node that an edge leads to, if the union has one.
abbrev pub target_of : List Node → Edge → Option Node
target_of nodes edge = lookup edge.dst (index_nodes [] nodes)

present :
    (nodes : List Node) (edge : Edge)
    → contains (ids nodes) edge.dst ≡ is_found (target_of nodes edge)
present nodes edge = ground (arith, found-index nodes [] edge.dst)

-- Neither the edge nor the node that it leads to is declared external.
abbrev pub IsOurs : List Node → Edge → Type 0
IsOurs nodes edge =
    (py_str edge.lifecycle ≢ "external") × (is_external (target_of nodes edge) ≡ false)

-- The declared lifecycle leaves the verdict to what is present.
abbrev pub IsLive : Edge → Type 0
IsLive edge =
    (py_str edge.lifecycle ≢ "planned")
    × (py_str edge.lifecycle ≢ "dead")
    × (py_str edge.lifecycle ≢ "deprecated")

-- The edge leads to a node without a summary, and is declared active.
abbrev pub IsUnmapped : List Node → Edge → Type 0
IsUnmapped nodes edge =
    (py_str edge.lifecycle ≡ "active") × (is_undescribed (target_of nodes edge) ≡ true)

-- What each verdict of an edge stands for.
pub record Verdicts (nodes : List Node) (edge : Edge) (verdict : EdgeVerdict) : Type 0 where
  pub when_external :
      (verdict ≡ external)
      ↔ ((py_str edge.lifecycle ≡ "external") ⊎ (is_external (target_of nodes edge) ≡ true))
  pub when_unmapped : (verdict ≡ unmapped) ↔ (IsOurs nodes edge × IsUnmapped nodes edge)
  pub when_dead : (verdict ≡ dead) ↔ (IsOurs nodes edge × (py_str edge.lifecycle ≡ "dead"))
  pub when_expected : (verdict ≡ expected) ↔ (
      IsOurs nodes edge
      × ((py_str edge.lifecycle ≡ "planned")
          ⊎ ((py_str edge.lifecycle ≡ "deprecated") × (target_of nodes edge ≡ none))))
  pub when_cleanup :
      (verdict ≡ cleanup_candidate)
      ↔ (IsOurs nodes edge × (py_str edge.lifecycle ≡ "deprecated") × (target_of nodes edge ≢ none))
  pub when_drift :
      (verdict ≡ drift)
      ↔ ((py_str edge.lifecycle ≢ "external") × IsLive edge × (target_of nodes edge ≡ none))
  pub when_ok :
      (verdict ≡ ok)
      ↔ (IsOurs nodes edge × IsLive edge × (target_of nodes edge ≢ none) × ¬ IsUnmapped nodes edge)
  pub never_undeclared : verdict ≢ undeclared

-- Assigning verdicts, an edge that is declared external, or leads to a node that is, has the verdict external.
-- Of the others, an active edge to a node without a summary is unmapped, a dead edge is dead, a planned one
-- is expected, and a deprecated one is expected if it leads to no node of the union and a cleanup candidate
-- if it does. Of the rest, one that leads to no node has drifted and one that does is ok. No edge has one
-- of these verdicts otherwise, and none has the verdict undeclared.
pub verdict_of-Verdicts :
    (nodes : List Node) (edge : Edge) → Verdicts nodes edge (verdict_of nodes edge)
unfolding verdict_of edge_verdict verdict_for is_external is_undescribed
verdict_of-Verdicts nodes edge =
    let found_fact = present nodes edge in
    let e_fact = eq_iff (py_str edge.lifecycle) "external" in
    let p_fact = eq_iff (py_str edge.lifecycle) "planned" in
    let d_fact = eq_iff (py_str edge.lifecycle) "dead" in
    let r_fact = eq_iff (py_str edge.lifecycle) "deprecated" in
    let a_fact = eq_iff (py_str edge.lifecycle) "active" in
    let ep_fact = eq_iff "external" "planned" in
    let ed_fact = eq_iff "external" "dead" in
    let er_fact = eq_iff "external" "deprecated" in
    let ea_fact = eq_iff "external" "active" in
    let pd_fact = eq_iff "planned" "dead" in
    let pr_fact = eq_iff "planned" "deprecated" in
    let pa_fact = eq_iff "planned" "active" in
    let dr_fact = eq_iff "dead" "deprecated" in
    let da_fact = eq_iff "dead" "active" in
    let ra_fact = eq_iff "deprecated" "active" in
    record {
      when_external = ground arith;
      when_unmapped = ground arith;
      when_dead = ground arith;
      when_expected = ground arith;
      when_cleanup = ground arith;
      when_drift = ground arith;
      when_ok = ground arith;
      never_undeclared = ground arith;
    }

-- An edge with a foreign endpoint that the union lacks, and that is not declared external or dead.
abbrev pub is_dangling : List Node → String → Edge → Bool
is_dangling nodes ref edge =
    edge.dst == ref
    && not (py_str edge.lifecycle == "external")
    && not (py_str edge.lifecycle == "dead")

dangling :
    (nodes : List Node) (ref : String) (edge : Edge)
    → contains (unresolved_of nodes edge) ref
      ≡ (is_foreign_ref ref && not (contains (ids nodes) ref) && is_dangling nodes ref edge)
unfolding unresolved_of verdict_of edge_verdict verdict_for is_external is_undescribed
dangling nodes ref edge = ground (
  arith,
  present nodes edge,
  eq_iff edge.dst ref,
  eq_iff (py_str edge.lifecycle) "external",
  eq_iff (py_str edge.lifecycle) "dead",
  eq_iff (py_str edge.lifecycle) "planned",
  eq_iff (py_str edge.lifecycle) "deprecated",
  eq_iff (py_str edge.lifecycle) "active",
  eq_iff "external" "dead",
  eq_iff "planned" "dead",
  eq_iff "deprecated" "dead",
  eq_iff "external" "planned",
  eq_iff "external" "deprecated",
)

-- A ref is reported as unresolved exactly when it is foreign, the union has no node of its name, and some edge
-- leads to it that is declared neither external nor dead.
pub unresolved_refs_iff :
    (nodes : List Node) (edges : List Edge) (ref : String)
    → contains (unresolved_refs nodes edges) ref ≡ (
        is_foreign_ref ref
        && not (contains (ids nodes) ref)
        && any_of (is_dangling nodes ref) edges)
unfolding unresolved_refs
unresolved_refs_iff nodes [] ref = ground arith
unresolved_refs_iff nodes (edge ∷ edges) ref = ground (
  arith,
  dangling nodes ref edge,
  unresolved_refs_iff nodes edges ref,
  contains-append (unresolved_of nodes edge) (unresolved_refs nodes edges) ref,
)
