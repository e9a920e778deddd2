-- ===== src/Graph/Federation/Aggregate/Settled.antt =====
-- What the hub makes of one edge that an export lists.
use beadloom.Base.{String, Option, none, some, List, [], ◌∷◌, ◌++◌, map, ◌≡◌, ◌⊎◌, inl, inr, refl}
use beadloom.Json.{Value, Fields, str, get, str_or}
use beadloom.Graph.Refs.{resolve_endpoint}
use beadloom.Graph.Edge.{Edge, EdgeVerdict, undeclared}
use beadloom.Graph.Contracts.{Group, edge_group_key, reconciled_payload, cross_landscape_keys}
use beadloom.Graph.Federation.{Node, contract_says, judged, verdict_of, mark_one}
use beadloom.Graph.Federation.Verdicts.{Verdicts, verdict_of-Verdicts}
use beadloom.Graph.Federation.Undeclared.{AnyConsumes, IsAbandoned, mark_one_outcome}
use beadloom.Graph.Federation.Aggregate.{
  listed, declared_landscape, edge_contract, resolve_edge, repo_of, union_edges,
}

-- The keys of the edge are those of the entry, of an export of this name and landscape: its endpoints resolved
-- in the repository, its contract normalized, and a lifecycle that is active where none is given.
pub record Carries (repo : String) (landscape : Option String) (entry : Fields) (edge : Edge)
    : Type 0 where
  pub src_lem : edge.src ≡ resolve_endpoint repo (str_or "" (get "src" entry))
  pub dst_lem : edge.dst ≡ resolve_endpoint repo (str_or "" (get "dst" entry))
  pub kind_lem : edge.kind ≡ get "kind" entry
  pub lifecycle_given : (v : Value) → get "lifecycle" entry ≡ some v → edge.lifecycle ≡ v
  pub lifecycle_default : get "lifecycle" entry ≡ none → edge.lifecycle ≡ str "active"
  pub repo_lem : edge.repo ≡ repo
  pub landscape_lem : edge.landscape ≡ landscape
  pub contract_lem : edge.contract ≡ edge_contract (get "contract" entry)

-- The edge has the verdict undeclared if it produces into a group that no edge of the list consumes, and
-- otherwise the one that the nodes and its lifecycle call for.
abbrev pub IsSettled : List Node → List Edge → Edge → Type 0
IsSettled nodes edges edge =
    (verdict : EdgeVerdict) × (edge.verdict ≡ some verdict)
    × (((group : Group) × IsAbandoned edges edge group × (verdict ≡ undeclared))
        ⊎ (((group : Group) → ¬ IsAbandoned edges edge group) × Verdicts nodes edge verdict))

-- The edges are those of the entries, one for each and in their order, and all are settled.
abbrev pub Settles : List Node → List Edge → List (Fields × Fields) → List Edge → Type 0
Settles nodes all [] [] = Unit
Settles nodes all [] (_ ∷ _) = ⊥
Settles nodes all (_ ∷ _) [] = ⊥
Settles nodes all ((export, entry) ∷ entries) (edge ∷ edges) =
    Carries (repo_of export) (declared_landscape (get "landscape" export)) entry edge
    × IsSettled nodes all edge
    × Settles nodes all entries edges

abbrev entries_of : Fields → List Fields → List (Fields × Fields)
entries_of export [] = []
entries_of export (entry ∷ entries) = (export, entry) ∷ entries_of export entries

-- the edges that the exports list, each with its export
unfoldable pub listed_edges : List Fields → List (Fields × Fields)
unfolding listed
listed_edges [] = []
listed_edges (export ∷ exports) =
    entries_of export (listed (get "edges" export)) ++ listed_edges exports

-- The groups of edges do not depend on their verdicts.
module _ (nodes : List Node) where
  keys-judged :
      (edges : List Edge)
      → cross_landscape_keys (map (judged nodes) edges) ≡ cross_landscape_keys edges
  unfolding cross_landscape_keys reconciled_payload
  keys-judged [] = refl
  keys-judged (edge ∷ edges) = rw (keys-judged edges) refl

  AnyConsumes-judged :
      (keys : List String) (group : Group) (edges : List Edge)
      → AnyConsumes keys group (map (judged nodes) edges) ≡ AnyConsumes keys group edges
  unfolding edge_group_key reconciled_payload contract_says
  AnyConsumes-judged keys group [] = refl
  AnyConsumes-judged keys group (edge ∷ edges) = rw (AnyConsumes-judged keys group edges) refl

  IsAbandoned-judged :
      (edges : List Edge) (edge : Edge) (group : Group)
      → IsAbandoned (map (judged nodes) edges) edge group ≡ IsAbandoned edges edge group
  IsAbandoned-judged edges edge group =
      rw (keys-judged edges) (rw (AnyConsumes-judged (cross_landscape_keys edges) group edges) refl)

-- An edge that differs in its verdict only carries what the edge does.
Carries-resolve_edge :
    (repo : String) (landscape : Option String) (entry : Fields) (verdict : Option EdgeVerdict)
    → Carries repo landscape entry
        (record (resolve_edge repo landscape entry) { verdict = verdict })
unfolding resolve_edge
Carries-resolve_edge repo landscape entry verdict = record {
  src_lem = refl;
  dst_lem = refl;
  kind_lem = refl;
  lifecycle_given = λ v h. rw h refl;
  lifecycle_default = λ h. rw h refl;
  repo_lem = refl;
  landscape_lem = refl;
  contract_lem = refl;
}

Carries-mark_one :
    (nodes : List Node) (edges : List Edge) (repo : String) (landscape : Option String)
    (entry : Fields)
    → Carries repo landscape entry
        (mark_one edges (judged nodes (resolve_edge repo landscape entry)))
Carries-mark_one nodes edges repo landscape entry =
    let edge = judged nodes (resolve_edge repo landscape entry) in
    elim (mark_one_outcome edges edge) [
      | inl (_, _, e) ↦ rw e (Carries-resolve_edge repo landscape entry (some undeclared))
      | inr (_, e) ↦ rw e (Carries-resolve_edge repo landscape entry edge.verdict)
    ]

IsSettled-mark_one :
    (nodes : List Node) (edges : List Edge) (edge : Edge)
    → IsSettled nodes edges (mark_one (map (judged nodes) edges) (judged nodes edge))
unfolding edge_group_key reconciled_payload contract_says verdict_of
IsSettled-mark_one nodes edges edge =
    elim (mark_one_outcome (map (judged nodes) edges) (judged nodes edge)) [
      | inl (group, abandoned, e) ↦ rw e (
        undeclared,
        refl,
        inl (
          group,
          rw (IsAbandoned-judged nodes edges (judged nodes edge) group) at abandoned,
          refl,
        ),
      )
      | inr (never, e) ↦ rw e (
        verdict_of nodes edge,
        refl,
        inr (
          (λ group. rw (IsAbandoned-judged nodes edges (judged nodes edge) group) at (never group)),
          verdict_of-Verdicts nodes (judged nodes edge),
        ),
      )
    ]

abbrev pub settled : List Node → List Edge → Edge → Edge
settled nodes all edge = mark_one (map (judged nodes) all) (judged nodes edge)

Settles-append :
    (nodes : List Node) (all : List Edge) (export : Fields) (entries : List Fields)
    (more : List (Fields × Fields)) (edges : List Edge)
    → Settles nodes all more (map (settled nodes all) edges)
    → Settles nodes all (entries_of export entries ++ more) (
        map (settled nodes all) (
          map (resolve_edge (repo_of export) (declared_landscape (get "landscape" export))) entries
          ++ edges))
Settles-append nodes all export [] more edges h = h
Settles-append nodes all export (entry ∷ entries) more edges h =
    let landscape = declared_landscape (get "landscape" export) in
    (
      Carries-mark_one nodes (map (judged nodes) all) (repo_of export) landscape entry,
      IsSettled-mark_one nodes all (resolve_edge (repo_of export) landscape entry),
      Settles-append nodes all export entries more edges h,
    )

-- The sweep over the judged edges of the exports settles each of them.
pub Settles-union_edges :
    (nodes : List Node) (all : List Edge) (exports : List Fields)
    → Settles nodes all (listed_edges exports) (map (settled nodes all) (union_edges exports))
unfolding union_edges listed_edges
Settles-union_edges nodes all [] = tt
Settles-union_edges nodes all (export ∷ exports) =
    Settles-append nodes all export (listed (get "edges" export)) (listed_edges exports)
      (union_edges exports) (Settles-union_edges nodes all exports)
