-- ===== src/Base/Sorting.antt =====
-- `sorted(set(xs))` on texts: the distinct items in the order of their code points.
use Prim.Native.Nat.{Ordering}
use Prim.Native.String.{String, compare}
use mathlib.Core.Path.{◌≡◌, refl, ◌∙◌, sym}
use mathlib.Core.Logic.{◌↔◌}
use mathlib.Core.Bool.{true, ◌||◌}
use mathlib.Core.List.{List, [], ◌∷◌}
use native.Mathlib.Omega.{arith}
use text.Mathlib.TextEquality.{eq_iff}
use text.Mathlib.TextPositions.{compare_refl}
use beadloom.Base.Eq.{◌==◌, string_equality, beq_refl}
use beadloom.Base.Lists.{contains}
use beadloom.Base.TextOrder.{compare-lt_trans, compare-gt_iff}

unfoldable pub insert_unique : String → List String → List String
insert_unique x [] = x ∷ []
insert_unique x (y ∷ ys) = elim (compare x y) [
  | Ordering.lt ↦ x ∷ y ∷ ys
  | Ordering.eq ↦ y ∷ ys
  | Ordering.gt ↦ y ∷ insert_unique x ys
]

unfoldable pub sort_unique : List String → List String
unfolding insert_unique
sort_unique [] = []
sort_unique (x ∷ xs) = insert_unique x (sort_unique xs)

-- Every item of the list stands above `x`.
abbrev pub Above : String → List String → Type 0
Above x xs = (a : String) → contains xs a ≡ true → compare x a ≡ Ordering.lt

abbrev pub IsSorted : List String → Type 0
IsSorted [] = Unit
IsSorted (x ∷ xs) = Above x xs × IsSorted xs

pub contains-insert_unique :
    (x : String) (xs : List String) (a : String)
    → contains (insert_unique x xs) a ≡ (x == a || contains xs a)
unfolding insert_unique
contains-insert_unique x [] a = refl
contains-insert_unique x (y ∷ ys) a =
    ground (arith, contains-insert_unique x ys a, eq_iff x y, eq_iff x a, eq_iff y a)

pub contains-sort_unique :
    (xs : List String) (a : String) → contains (sort_unique xs) a ≡ contains xs a
unfolding sort_unique
contains-sort_unique [] a = refl
contains-sort_unique (x ∷ xs) a =
    ground (arith, contains-insert_unique x (sort_unique xs) a, contains-sort_unique xs a)

insert_unique-IsSorted :
    (x : String) (xs : List String) → IsSorted xs → IsSorted (insert_unique x xs)
unfolding insert_unique
insert_unique-IsSorted x [] h = ((λ a m. ground arith), tt)
insert_unique-IsSorted x (y ∷ ys) h = go (insert_unique-IsSorted x ys h.1) (compare x y) refl
  where
    go :
        IsSorted (insert_unique x ys)
        → (o : Ordering) → compare x y ≡ o
        → IsSorted (elim o [
          | Ordering.lt ↦ x ∷ y ∷ ys
          | Ordering.eq ↦ y ∷ ys
          | Ordering.gt ↦ y ∷ insert_unique x ys
        ])
    go rest Ordering.lt e = ((λ a m. ground (arith, eq_iff y a, h.0 a, compare-lt_trans x y a)), h)
    go rest Ordering.eq e = h
    go rest Ordering.gt e = (
      (λ a m. ground (arith, contains-insert_unique x ys a, eq_iff x a, h.0 a, compare-gt_iff x y)),
      rest,
    )

pub sort_unique-IsSorted : (xs : List String) → IsSorted (sort_unique xs)
unfolding sort_unique
sort_unique-IsSorted [] = tt
sort_unique-IsSorted (x ∷ xs) = insert_unique-IsSorted x (sort_unique xs) (sort_unique-IsSorted xs)

-- A sorted list is determined by its items.
pub IsSorted-ext :
    (xs ys : List String)
    → IsSorted xs
    → IsSorted ys
    → ((a : String) → contains xs a ≡ contains ys a)
    → xs ≡ ys
IsSorted-ext [] [] h k same = refl
IsSorted-ext [] (y ∷ ys) h k same = ground (arith, same y, beq_refl y)
IsSorted-ext (x ∷ xs) [] h k same = ground (arith, same x, beq_refl x)
IsSorted-ext (x ∷ xs) (y ∷ ys) h k same =
    let heads : x ≡ y = ground (
      arith,
      same x,
      same y,
      beq_refl x,
      beq_refl y,
      eq_iff x y,
      eq_iff y x,
      h.0 y,
      k.0 x,
      compare-gt_iff x y,
    ) in
    let tails : xs ≡ ys =
      IsSorted-ext xs ys h.1 k.1
        (λ a. ground (arith, same a, eq_iff x a, eq_iff y a, h.0 a, k.0 a, compare_refl a)) in
    λ i. heads i ∷ tails i

-- The order and the repetitions of what is sorted do not matter.
pub sort_unique-ext :
    (xs ys : List String)
    → ((a : String) → contains xs a ≡ contains ys a)
    → sort_unique xs ≡ sort_unique ys
sort_unique-ext xs ys same =
    IsSorted-ext (sort_unique xs) (sort_unique ys) (sort_unique-IsSorted xs)
      (sort_unique-IsSorted ys)
      (λ a. contains-sort_unique xs a ∙ same a ∙ sym (contains-sort_unique ys a))

pub sort_unique_idem : (xs : List String) → sort_unique (sort_unique xs) ≡ sort_unique xs
sort_unique_idem xs = sort_unique-ext (sort_unique xs) xs (contains-sort_unique xs)

pub sort_unique-eq-nil : (xs : List String) → (sort_unique xs ≡ []) ↔ (xs ≡ [])
unfolding sort_unique
sort_unique-eq-nil [] = (λ _. refl, λ _. refl)
sort_unique-eq-nil (x ∷ xs) = ground (arith, contains-sort_unique (x ∷ xs) x, beq_refl x)
