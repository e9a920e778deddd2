-- ===== src/Graph/Federation/Undeclared.antt =====
-- The producers that nobody consumes.
use native.Mathlib.Omega.{arith}
use beadloom.Base.{
  String, Bool, true, false, not, ◌&&◌, ◌||◌, Option, none, some, List, [], ◌∷◌, string_equality,
  option_equality, pair_equality, ◌≡◌, ◌↔◌, ◌⊎◌, inl, inr, refl, Bool-cases,
}
use beadloom.Graph.Edge.{Edge, undeclared}
use beadloom.Graph.Contracts.{Group, edge_group_key, cross_landscape_keys}
use beadloom.Graph.Federation.{contract_says, is_consumed, is_amqp_producer, mark_edge, mark_one}

-- An edge of the list consumes the group.
abbrev pub Consumes : List String → Group → Edge → Type 0
Consumes keys group edge =
    (edge_group_key keys edge ≡ some group) × (contract_says "direction" "consumes" edge ≡ true)

abbrev pub AnyConsumes : List String → Group → List Edge → Type 0
AnyConsumes keys group [] = ⊥
AnyConsumes keys group (edge ∷ edges) = Consumes keys group edge ⊎ AnyConsumes keys group edges

and_iff : {P : Type 0} (b c : Bool) → ((b ≡ true) ↔ P) → ((b && c) ≡ true) ↔ (P × (c ≡ true))
and_iff b c h = (λ e. ground (arith, h.0), λ e. ground (arith, h.1, h.1 e.0, e.1))

or_iff :
    {P Q : Type 0} (b c : Bool) → ((b ≡ true) ↔ P) → ((c ≡ true) ↔ Q) → ((b || c) ≡ true) ↔ (P ⊎ Q)
or_iff true c h k = (λ _. inl (h.0 refl), λ _. refl)
or_iff false c h k =
    (λ e. inr (k.0 e), λ o. elim o [ inl p ↦ ground (arith, h.1 p) | inr q ↦ k.1 q ])

consumed-any :
    (keys : List String) (edges : List Edge) (group : Group)
    → (is_consumed keys edges group ≡ true) ↔ AnyConsumes keys group edges
unfolding is_consumed
consumed-any keys [] group = ground arith
consumed-any keys (edge ∷ edges) group =
    or_iff _ _
      (and_iff _ (contract_says "direction" "consumes" edge)
        ((option_equality {A = Group}).beq_iff (edge_group_key keys edge) (some group)))
      (consumed-any keys edges group)

-- The edge produces over AMQP into a group that no edge of the list consumes.
abbrev pub IsAbandoned : List Edge → Edge → Group → Type 0
IsAbandoned edges edge group =
    (edge_group_key (cross_landscape_keys edges) edge ≡ some group)
    × (contract_says "protocol" "amqp" edge ≡ true)
    × (contract_says "direction" "produces" edge ≡ true)
    × ¬ AnyConsumes (cross_landscape_keys edges) group edges

abbrev pub marked : Edge → Edge
marked edge = record edge { verdict = some undeclared }

abbrev IsAbandonedBy : List String → List Edge → Edge → Option Group → Group → Type 0
IsAbandonedBy keys edges edge o group =
    (o ≡ some group)
    × (contract_says "protocol" "amqp" edge ≡ true)
    × (contract_says "direction" "produces" edge ≡ true)
    × ¬ AnyConsumes keys group edges

mark_edge_cases :
    (keys : List String) (edges : List Edge) (edge : Edge) (o : Option Group)
    → ((group : Group) × IsAbandonedBy keys edges edge o group
        × (mark_edge keys edges edge o ≡ marked edge))
      ⊎ (((group : Group) → ¬ IsAbandonedBy keys edges edge o group)
          × (mark_edge keys edges edge o ≡ edge))
unfolding mark_edge
mark_edge_cases keys edges edge none = inr (λ group h. ground (arith, h.0), refl)
mark_edge_cases keys edges edge (some g) =
    elim (Bool-cases (is_amqp_producer edge && not (is_consumed keys edges g))) [
      | inl e ↦ inl (
        g,
        (refl, ground arith, ground arith, λ h. ground (arith, (consumed-any keys edges g).1 h)),
        ground arith,
      )
      | inr e ↦ inr (
        (λ group h. h.3 ((consumed-any keys edges group).0 (ground (arith, h.0, h.1, h.2)))),
        ground arith,
      )
    ]

-- An edge whose contract produces over AMQP gets the verdict undeclared if no edge of the same group (the
-- same contract key, in the same landscape or across landscapes for an explicit one) consumes; every other
-- edge is left as it is.
pub mark_one_outcome :
    (edges : List Edge) (edge : Edge)
    → ((group : Group) × IsAbandoned edges edge group × (mark_one edges edge ≡ marked edge))
      ⊎ (((group : Group) → ¬ IsAbandoned edges edge group) × (mark_one edges edge ≡ edge))
unfolding mark_one
mark_one_outcome edges edge =
    mark_edge_cases (cross_landscape_keys edges) edges edge
      (edge_group_key (cross_landscape_keys edges) edge)
