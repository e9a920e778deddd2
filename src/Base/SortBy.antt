-- ===== src/Base/SortBy.antt =====
-- `list.sort(key=...)`: the stable sort by a test that tells when one item must stand before another.
use mathlib.Core.Path.{◌≡◌, refl}
use mathlib.Core.Logic.Iff
use mathlib.Core.Logic.{◌↔◌, inl, inr}
use mathlib.Core.Bool.{Bool, ◌||◌}
use mathlib.Core.List.{List, [], ◌∷◌, Perm}
use mathlib.Core.List.Perm
use native.Mathlib.Omega.{arith}
use beadloom.Base.Tests.{Bool-cases, if◌then◌else◌}
use beadloom.Base.Lists.{All, any_of}

module _ {ℓ} {A : Type ℓ} where
  -- An item goes before the first one that is not smaller.
  unfoldable pub insert_by : (A → A → Bool) → A → List A → List A
  insert_by less x [] = x ∷ []
  insert_by less x (y ∷ ys) = if less y x then y ∷ insert_by less x ys else x ∷ y ∷ ys

  unfoldable pub sort_by : (A → A → Bool) → List A → List A
  unfolding insert_by
  sort_by less [] = []
  sort_by less (x ∷ xs) = insert_by less x (sort_by less xs)

  any_of-insert_by :
      (p : A → Bool) (less : A → A → Bool) (x : A) (xs : List A)
      → any_of p (insert_by less x xs) ≡ (p x || any_of p xs)
  unfolding insert_by
  any_of-insert_by p less x [] = refl
  any_of-insert_by p less x (y ∷ ys) = ground (arith, any_of-insert_by p less x ys)

  -- Sorting keeps what the list holds.
  pub any_of-sort_by :
      (p : A → Bool) (less : A → A → Bool) (xs : List A) → any_of p (sort_by less xs) ≡ any_of p xs
  unfolding sort_by
  any_of-sort_by p less [] = refl
  any_of-sort_by p less (x ∷ xs) =
      ground (arith, any_of-insert_by p less x (sort_by less xs), any_of-sort_by p less xs)

  Perm-insert_by : (less : A → A → Bool) (x : A) (xs : List A) → Perm (insert_by less x xs) (x ∷ xs)
  unfolding insert_by
  Perm-insert_by less x [] = Perm.refl (x ∷ [])
  Perm-insert_by less x (y ∷ ys) = elim (Bool-cases (less y x)) [
    | inl e ↦ rw e (Perm.trans (Perm.cons y (Perm-insert_by less x ys)) (Perm.swap x y ys))
    | inr e ↦ rw e (Perm.refl (x ∷ y ∷ ys))
  ]

  -- Sorting keeps each item as often as it stands in the list.
  pub Perm-sort_by : (less : A → A → Bool) (xs : List A) → Perm (sort_by less xs) xs
  unfolding sort_by
  Perm-sort_by less [] = Perm.refl []
  Perm-sort_by less (x ∷ xs) =
      Perm.trans (Perm-insert_by less x (sort_by less xs)) (Perm.cons x (Perm-sort_by less xs))

  insert_by-neq-nil :
      {P : Type 0} (less : A → A → Bool) (x : A) (xs : List A) → insert_by less x xs ≡ [] → P
  unfolding insert_by
  insert_by-neq-nil less x [] h = absurd (ground (arith, h))
  insert_by-neq-nil less x (y ∷ ys) h = absurd (ground (arith, h))

  -- Sorting leaves nothing only of nothing.
  pub sort_by-eq-nil_iff : (less : A → A → Bool) (xs : List A) → (sort_by less xs ≡ []) ↔ (xs ≡ [])
  unfolding sort_by
  sort_by-eq-nil_iff less [] = (λ _. refl, λ _. refl)
  sort_by-eq-nil_iff less (x ∷ xs) =
      (λ h. absurd (insert_by-neq-nil less x (sort_by less xs) h), λ h. absurd (ground (arith, h)))

  All-insert_by_iff {κ} :
      (P : A → Type κ) (less : A → A → Bool) (x : A) (xs : List A)
      → All P (insert_by less x xs) ↔ (P x × All P xs)
  unfolding insert_by
  All-insert_by_iff P less x [] = Iff.rfl
  All-insert_by_iff P less x (y ∷ ys) =
      let rest = All-insert_by_iff P less x ys in
      elim (Bool-cases (less y x)) [
        | inl e ↦
            rw e (λ h. ((rest.0 h.1).0, (h.0, (rest.0 h.1).1)), λ h. (h.1.0, rest.1 (h.0, h.1.1)))
        | inr e ↦ rw e Iff.rfl
      ]

  -- Sorting changes none of the items.
  pub All-sort_by_iff {κ} :
      (P : A → Type κ) (less : A → A → Bool) (xs : List A) → All P (sort_by less xs) ↔ All P xs
  unfolding sort_by
  All-sort_by_iff P less [] = Iff.rfl
  All-sort_by_iff P less (x ∷ xs) =
      Iff.trans (All-insert_by_iff P less x (sort_by less xs))
        (Iff.and Iff.rfl (All-sort_by_iff P less xs))
