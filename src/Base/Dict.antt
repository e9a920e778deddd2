-- ===== src/Base/Dict.antt =====
-- Python's `dict` as an association list in the order of insertion. A key that is written again keeps
-- its place.
use mathlib.Core.Path.{◌≡◌, refl}
use mathlib.Core.Bool.{true, false}
use mathlib.Core.Option.{Option, none, some}
use mathlib.Core.List.{List, [], ◌∷◌, ◌++◌}
use native.Mathlib.Omega.{arith}
use beadloom.Base.Tests.{if◌then◌else◌}
use beadloom.Base.Eq.{Equality, ◌==◌}
use beadloom.Base.Lists.{contains}

module _ {ℓ κ} {K : Type ℓ} {V : Type κ} ⦃e : Equality K⦄ where
  -- `d.get(k)`
  abbrev pub lookup : K → List (K × V) → Option V
  lookup k [] = none
  lookup k ((j, v) ∷ d) = if j == k then some v else lookup k d

  -- `d[k] = v`
  unfoldable pub insert : K → V → List (K × V) → List (K × V)
  insert k v [] = (k, v) ∷ []
  insert k v ((j, w) ∷ d) = if j == k then (k, v) ∷ d else (j, w) ∷ insert k v d

  abbrev pub keys : List (K × V) → List K
  keys [] = []
  keys ((k, v) ∷ d) = k ∷ keys d

  -- No key stands twice.
  abbrev pub HasUniqueKeys : List (K × V) → Type 0
  HasUniqueKeys [] = Unit
  HasUniqueKeys ((k, v) ∷ d) = (contains (keys d) k ≡ false) × HasUniqueKeys d

  pub lookup-insert :
      (k j : K) (v : V) (d : List (K × V))
      → lookup j (insert k v d) ≡ (if k == j then some v else lookup j d)
  unfolding insert
  lookup-insert k j v [] = refl
  lookup-insert k j v ((i, w) ∷ d) =
      ground (arith, e.beq_iff k j, e.beq_iff i k, e.beq_iff i j, lookup-insert k j v d)

  pub lookup-append :
      (k : K) (c d : List (K × V))
      → lookup k (c ++ d) ≡ elim (lookup k c) [ none ↦ lookup k d | some v ↦ some v ]
  lookup-append k [] d = refl
  lookup-append k ((j, v) ∷ c) d = ground (arith, lookup-append k c d)

  pub lookup-eq-none_of_not-contains :
      (k : K) (d : List (K × V)) → contains (keys d) k ≡ false → lookup k d ≡ none
  lookup-eq-none_of_not-contains k [] h = refl
  lookup-eq-none_of_not-contains k ((j, v) ∷ d) h =
      ground (arith, lookup-eq-none_of_not-contains k d)

  pub contains-keys_of_lookup :
      (k : K) (v : V) (d : List (K × V)) → lookup k d ≡ some v → contains (keys d) k ≡ true
  contains-keys_of_lookup k v [] h = ground arith
  contains-keys_of_lookup k v ((j, w) ∷ d) h = ground (arith, contains-keys_of_lookup k v d)
