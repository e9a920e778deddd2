-- ===== src/Graph/Federation/Aggregate/Union.antt =====
-- What the union of the exports holds.
use mathlib.Core.List.{Perm}
use beadloom.Base.{
  String, not, ◌&&◌, List, [], ◌∷◌, map, ◌≡◌, refl, ◌∙◌, ap, subst, contains, any_of,
  string_equality, contains-sort_unique, sort_unique-IsSorted, IsSorted, Perm-sort_by,
}
use beadloom.Json.{Fields}
use beadloom.Graph.Refs.{is_foreign_ref}
use beadloom.Graph.Edge.{Edge}
use beadloom.Graph.Federation.{
  ids, judged, assign_verdicts, unresolved_refs, mark_one, mark_undeclared,
}
use beadloom.Graph.Federation.Verdicts.{is_dangling, unresolved_refs_iff}
use beadloom.Graph.Federation.Aggregate.{union_nodes, union_edges, edge_before, aggregate_exports}
use beadloom.Graph.Federation.Aggregate.Settled.{
  Settles, settled, listed_edges, Settles-union_edges,
}

module _ {ℓ} {A : Type ℓ} where
  map-map {κ μ} :
      {B : Type κ} {C : Type μ} (g : B → C) (f : A → B) (xs : List A)
      → map g (map f xs) ≡ map (λ x. g (f x)) xs
  map-map g f [] = refl
  map-map g f (x ∷ xs) = ap (λ r. g (f x) ∷ r) (map-map g f xs)

-- The edges of the union are, up to their order, one for each edge that the exports list: it carries the
-- keys of its entry, and has the verdict undeclared if its contract produces over AMQP into a group that no
-- edge of the union consumes, and otherwise the one that the nodes of the union and its lifecycle call for.
pub aggregate_exports-edges :
    (exports : List Fields)
    → (edges : List Edge) × Perm (aggregate_exports exports).edges edges
      × Settles (union_nodes exports) (union_edges exports) (listed_edges exports) edges
unfolding aggregate_exports mark_undeclared assign_verdicts
aggregate_exports-edges exports =
    let nodes = union_nodes exports in
    let all = union_edges exports in
    (
      map (settled nodes all) all,
      subst (λ edges. Perm (aggregate_exports exports).edges edges)
          (map-map (mark_one (map (judged nodes) all)) (judged nodes) all)
          (Perm-sort_by edge_before
            (map (mark_one (map (judged nodes) all)) (map (judged nodes) all))),
      Settles-union_edges nodes all exports,
    )

-- The unresolved refs of the union are sorted, and they are the foreign refs that name no node of the union
-- and to which some edge leads that is declared neither external nor dead.
pub aggregate_exports-unresolved :
    (exports : List Fields)
    → IsSorted (aggregate_exports exports).unresolved
      × ((ref : String)
          → contains (aggregate_exports exports).unresolved ref ≡ (
              is_foreign_ref ref
              && not (contains (ids (union_nodes exports)) ref)
              && any_of (is_dangling (union_nodes exports) ref) (union_edges exports)))
unfolding aggregate_exports
aggregate_exports-unresolved exports =
    let refs = unresolved_refs (union_nodes exports) (union_edges exports) in
    (
      sort_unique-IsSorted refs,
      λ ref.
          contains-sort_unique refs ref
          ∙ unresolved_refs_iff (union_nodes exports) (union_edges exports) ref,
    )
