-- ===== src/Graph/GraphqlBreaking/Values.antt =====
-- `_satisfies` against the values that a GraphQL type admits: it decides whether each value of the
-- producer's type is a value of the consumer's.
use beadloom.Base.{
  String, Bool, true, false, not, ◌&&◌, if◌then◌else◌, ◌==◌, string_equality, ◌≡◌, ◌↔◌, refl, arith,
  beq_refl, eq_iff, Bool-cases, inl, inr,
}
use beadloom.Graph.GraphqlBreaking.{WrappedType, named, list_of, non_null, satisfies}

-- A result of a query: null, a value of a named type, or a list.
mutual
  pub data Result : Type 0 where
    null : Result
    leaf : String → Result
    items : Results → Result

  pub data Results : Type 0 where
    nil : Results
    cons : Result → Results → Results

unfoldable mutual
  -- `v` is a value of the type `w`.
  pub fits : WrappedType → Result → Bool
  fits w null = not (non_null w)
  fits (named n a) (leaf b) = a == b
  fits (named n a) (items vs) = false
  fits (list_of n w) (leaf b) = false
  fits (list_of n w) (items vs) = all_fit w vs

  pub all_fit : WrappedType → Results → Bool
  all_fit w nil = true
  all_fit w (cons v vs) = fits w v && all_fit w vs

mutual
  unfolding fits satisfies

  fits_of_satisfies :
      (v : Result) (p c : WrappedType) → satisfies p c ≡ true → fits p v ≡ true → fits c v ≡ true
  fits_of_satisfies null (named m a) (named n b) h k = ground arith
  fits_of_satisfies null (list_of m p) (list_of n c) h k = ground arith
  fits_of_satisfies null (named m a) (list_of n c) h k = ground arith
  fits_of_satisfies null (list_of m p) (named n b) h k = ground arith
  fits_of_satisfies (leaf x) (named m a) (named n b) h k =
      ground (arith, eq_iff a b, eq_iff a x, eq_iff b x)
  fits_of_satisfies (leaf x) (named m a) (list_of n c) h k = ground arith
  fits_of_satisfies (leaf x) (list_of m p) c h k = ground arith
  fits_of_satisfies (items vs) (named m a) c h k = ground arith
  fits_of_satisfies (items vs) (list_of m p) (named n b) h k = ground arith
  fits_of_satisfies (items vs) (list_of m p) (list_of n c) h k =
      ground (arith, all_fit_of_satisfies vs p c)

  all_fit_of_satisfies :
      (vs : Results) (p c : WrappedType)
      → satisfies p c ≡ true
      → all_fit p vs ≡ true
      → all_fit c vs ≡ true
  all_fit_of_satisfies nil p c h k = refl
  all_fit_of_satisfies (cons v vs) p c h k =
      ground (arith, fits_of_satisfies v p c, all_fit_of_satisfies vs p c)

-- A value of the first type that is none of the second, where there is one.
witness : WrappedType → WrappedType → Result
witness (named m a) (named n b) = if n && not m then null else leaf a
witness (named m a) (list_of n c) = leaf a
witness (list_of m p) (named n b) = items nil
witness (list_of m p) (list_of n c) = if n && not m then null else items (cons (witness p c) nil)

witness_lem :
    (p c : WrappedType)
    → satisfies p c ≡ false
    → (fits p (witness p c) ≡ true) × (fits c (witness p c) ≡ false)
unfolding fits satisfies witness
witness_lem (named m a) (named n b) h = ground (arith, eq_iff a b, eq_iff b a, beq_refl a)
witness_lem (named m a) (list_of n c) h = ground (arith, beq_refl a)
witness_lem (list_of m p) (named n b) h = ground arith
witness_lem (list_of m p) (list_of n c) h = ground (arith, witness_lem p c)

-- `_satisfies` is true exactly when every value of the producer's type, null and nested
-- lists included, is a value of the consumer's type.
pub satisfies_iff :
    (p c : WrappedType)
    → (satisfies p c ≡ true) ↔ ((v : Result) → fits p v ≡ true → fits c v ≡ true)
satisfies_iff p c = (
  λ h v k. fits_of_satisfies v p c h k,
  λ all. elim (Bool-cases (satisfies p c)) [
    | inl yes_ ↦ yes_
    | inr fails ↦ ground (arith, witness_lem p c fails, all (witness p c))
  ],
)

-- Every type satisfies itself.
pub satisfies_refl : (w : WrappedType) → satisfies w w ≡ true
satisfies_refl w = (satisfies_iff w w).1 (λ v h. h)

-- What satisfies a type satisfies all that it satisfies.
pub satisfies_trans :
    (a b c : WrappedType) → satisfies a b ≡ true → satisfies b c ≡ true → satisfies a c ≡ true
satisfies_trans a b c h k =
    (satisfies_iff a c).1 (λ v m. (satisfies_iff b c).0 k v ((satisfies_iff a b).0 h v m))

-- A type may be null exactly when the value null fits.
pub non_null_iff : (w : WrappedType) → (non_null w ≡ false) ↔ (fits w null ≡ true)
unfolding fits
non_null_iff (named n a) = ground arith
non_null_iff (list_of n v) = ground arith
