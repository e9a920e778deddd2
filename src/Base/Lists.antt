-- ===== src/Base/Lists.antt =====
-- Lists under native indices, membership as a test, and the loops that the program writes as
-- comprehensions.
use Prim.Native.Nat.{ℕ, suc, ◌+◌}
use mathlib.Core.Path.{◌≡◌, refl}
use mathlib.Core.Bool.{Bool, true, false, ◌||◌}
use mathlib.Core.List.{List, [], ◌∷◌, ◌++◌}
use native.Mathlib.Omega.{arith}
use beadloom.Base.Tests.{if◌then◌else◌}
use beadloom.Base.Eq.{Equality, ◌==◌, beq_refl}

module _ {ℓ} {A : Type ℓ} where
  abbrev pub length : List A → ℕ
  length [] = 0
  length (_ ∷ xs) = suc (length xs)

  -- `bool(xs)`
  abbrev pub is_empty : List A → Bool
  is_empty [] = true
  is_empty (_ ∷ _) = false

  -- `[x for x in xs if p(x)]`
  abbrev pub keep_if : (A → Bool) → List A → List A
  keep_if p [] = []
  keep_if p (x ∷ xs) = let rest = keep_if p xs in if p x then x ∷ rest else rest

  -- `any(p(x) for x in xs)`
  abbrev pub any_of : (A → Bool) → List A → Bool
  any_of p [] = false
  any_of p (x ∷ xs) = p x || any_of p xs

  abbrev pub All {κ} : (A → Type κ) → List A → Type κ
  All P [] = Unit
  All P (x ∷ xs) = P x × All P xs

  pub length-append : (xs ys : List A) → length (xs ++ ys) ≡ length xs + length ys
  length-append [] ys = omega arith
  length-append (x ∷ xs) ys = omega (arith, length-append xs ys)

  pub keep_if-append :
      (p : A → Bool) (xs ys : List A) → keep_if p (xs ++ ys) ≡ keep_if p xs ++ keep_if p ys
  keep_if-append p [] ys = refl
  keep_if-append p (x ∷ xs) ys = ground (arith, keep_if-append p xs ys)

  pub any_of-append :
      (p : A → Bool) (xs ys : List A) → any_of p (xs ++ ys) ≡ (any_of p xs || any_of p ys)
  any_of-append p [] ys = refl
  any_of-append p (x ∷ xs) ys = ground (arith, any_of-append p xs ys)

module _ {ℓ} {A : Type ℓ} ⦃e : Equality A⦄ where
  -- `a in xs`
  abbrev pub contains : List A → A → Bool
  contains [] a = false
  contains (x ∷ xs) a = x == a || contains xs a

  pub contains-append :
      (xs ys : List A) (a : A) → contains (xs ++ ys) a ≡ (contains xs a || contains ys a)
  contains-append [] ys a = refl
  contains-append (x ∷ xs) ys a = ground (arith, contains-append xs ys a)

  pub contains_self : (a : A) (xs : List A) → contains (a ∷ xs) a ≡ true
  contains_self a xs = rw (beq_refl a)

  -- No item stands twice.
  abbrev pub IsDuplicateFree : List A → Type 0
  IsDuplicateFree [] = Unit
  IsDuplicateFree (x ∷ xs) = (contains xs x ≡ false) × IsDuplicateFree xs

  pub IsDuplicateFree-append :
      (xs : List A) (y : A)
      → IsDuplicateFree xs
      → contains xs y ≡ false
      → IsDuplicateFree (xs ++ y ∷ [])
  IsDuplicateFree-append [] y h k = (refl, tt)
  IsDuplicateFree-append (x ∷ xs) y h k = (
    ground (arith, contains-append xs (y ∷ []) x, h.0, k, e.beq_iff x y, e.beq_iff y x),
    IsDuplicateFree-append xs y h.1 (ground (arith, k)),
  )

  -- The items of a list are in every list that holds them.
  pub All-contains :
      (xs ys : List A)
      → ((x : A) → contains ys x ≡ true → contains xs x ≡ true)
      → All (λ x. contains xs x ≡ true) ys
  All-contains xs [] h = tt
  All-contains xs (y ∷ ys) h =
      (h y (contains_self y ys), All-contains xs ys (λ x k. h x (ground (arith, k))))
