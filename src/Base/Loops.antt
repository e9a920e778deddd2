-- ===== src/Base/Loops.antt =====
-- Loops that append to a list: what they leave empty.
use mathlib.Core.Path.{◌≡◌, refl}
use mathlib.Core.Bool.{Bool, true, false, not}
use mathlib.Core.Logic.Iff
use mathlib.Core.Logic.{◌↔◌, ◌⊎◌, inl, inr}
use mathlib.Core.List.{List, [], ◌∷◌, ◌++◌, map}
use native.Mathlib.Omega.{arith}
use beadloom.Base.Tests.{Bool-cases, if◌then◌else◌}
use beadloom.Base.Lists.{All, any_of, keep_if}

-- `for x in xs: out.extend(f(x))`
unfoldable pub concat_map {ℓ κ} : {A : Type ℓ} {B : Type κ} → (A → List B) → List A → List B
concat_map f [] = []
concat_map f (x ∷ xs) = f x ++ concat_map f xs

pub append-eq-nil_iff {ℓ} :
    {A : Type ℓ} (xs ys : List A) → ((xs ++ ys) ≡ []) ↔ ((xs ≡ []) × (ys ≡ []))
append-eq-nil_iff [] ys = ground arith
append-eq-nil_iff (x ∷ xs) ys = ground arith

pub map-eq-nil_iff {ℓ κ} :
    {A : Type ℓ} {B : Type κ} (f : A → B) (xs : List A) → (map f xs ≡ []) ↔ (xs ≡ [])
map-eq-nil_iff f [] = (λ _. refl, λ _. refl)
map-eq-nil_iff f (x ∷ xs) = ground arith

-- A nested loop appends nothing exactly when each round appends nothing.
pub concat_map-eq-nil_iff {ℓ κ} :
    {A : Type ℓ} {B : Type κ} (f : A → List B) (xs : List A)
    → (concat_map f xs ≡ []) ↔ All (λ x. f x ≡ []) xs
unfolding concat_map
concat_map-eq-nil_iff f [] = (λ _. tt, λ _. refl)
concat_map-eq-nil_iff f (x ∷ xs) = (
  λ e.
      let parts = (append-eq-nil_iff (f x) (concat_map f xs)).0 e in
      (parts.0, (concat_map-eq-nil_iff f xs).0 parts.1),
  λ h. (append-eq-nil_iff (f x) (concat_map f xs)).1 (h.0, (concat_map-eq-nil_iff f xs).1 h.1),
)

module _ {ℓ κ μ} {A : Type ℓ} {P : A → Type κ} {Q : A → Type μ} where
  pub All-map : ((x : A) → P x → Q x) → (xs : List A) → All P xs → All Q xs
  All-map f [] h = tt
  All-map f (x ∷ xs) h = (f x h.0, All-map f xs h.1)

  pub All-iff : ((x : A) → P x ↔ Q x) → (xs : List A) → All P xs ↔ All Q xs
  All-iff f [] = (λ _. tt, λ _. tt)
  All-iff f (x ∷ xs) =
      (λ h. ((f x).0 h.0, (All-iff f xs).0 h.1), λ h. ((f x).1 h.0, (All-iff f xs).1 h.1))

  pub All-iff_on {ν} :
      {R : A → Type ν}
      → ((x : A) → R x → P x ↔ Q x)
      → (xs : List A) → All R xs
      → All P xs ↔ All Q xs
  All-iff_on f [] r = (λ _. tt, λ _. tt)
  All-iff_on f (x ∷ xs) r = (
    λ h. ((f x r.0).0 h.0, (All-iff_on f xs r.1).0 h.1),
    λ h. ((f x r.0).1 h.0, (All-iff_on f xs r.1).1 h.1),
  )

module _ {ℓ} {A : Type ℓ} where
  pub All-true {μ} : {P : A → Type μ} → ((x : A) → P x) → (xs : List A) → All P xs
  All-true f [] = tt
  All-true f (x ∷ xs) = (f x, All-true f xs)

  pub All-append_iff {μ} :
      (P : A → Type μ) (xs ys : List A) → All P (xs ++ ys) ↔ (All P xs × All P ys)
  All-append_iff P [] ys = (λ h. (tt, h), λ h. h.1)
  All-append_iff P (x ∷ xs) ys =
      let rest = All-append_iff P xs ys in
      (λ h. ((h.0, (rest.0 h.1).0), (rest.0 h.1).1), λ h. (h.0.0, rest.1 (h.0.1, h.1)))

module _ {ℓ κ} {A : Type ℓ} {B : Type κ} where
  All-exchange {μ} :
      (P : A → B → Type μ) (xs : List A) (ys : List B)
      → All (λ a. All (P a) ys) xs
      → All (λ b. All (λ a. P a b) xs) ys
  All-exchange P xs [] h = tt
  All-exchange P xs (y ∷ ys) h =
      (All-map (λ a k. k.0) xs h, All-exchange P xs ys (All-map (λ a k. k.1) xs h))

  pub All-concat_map_iff {μ} :
      (P : B → Type μ) (f : A → List B) (xs : List A)
      → All P (concat_map f xs) ↔ All (λ x. All P (f x)) xs
  unfolding concat_map
  All-concat_map_iff P f [] = (λ _. tt, λ _. tt)
  All-concat_map_iff P f (x ∷ xs) =
      let parts = All-append_iff P (f x) (concat_map f xs) in
      let rest = All-concat_map_iff P f xs in
      (λ h. ((parts.0 h).0, rest.0 (parts.0 h).1), λ h. parts.1 (h.0, rest.1 h.1))

-- Two nested loops can be exchanged.
pub All-swap {ℓ κ μ} :
    {A : Type ℓ} {B : Type κ} (P : A → B → Type μ) (xs : List A) (ys : List B)
    → All (λ a. All (P a) ys) xs ↔ All (λ b. All (λ a. P a b) xs) ys
All-swap P xs ys = (All-exchange P xs ys, All-exchange (λ b a. P a b) ys xs)

module _ {ℓ} {A : Type ℓ} where
  pub any_of_covers : (p : A → Bool) (xs : List A) → All (λ x. p x ≡ true → any_of p xs ≡ true) xs
  any_of_covers p [] = tt
  any_of_covers p (x ∷ xs) =
      (λ h. ground (arith, h), All-map (λ y k h. ground (arith, k h)) xs (any_of_covers p xs))

  pub any_of-false_iff :
      (p : A → Bool) (xs : List A) → (any_of p xs ≡ false) ↔ All (λ x. p x ≡ false) xs
  any_of-false_iff p [] = (λ _. tt, λ _. refl)
  any_of-false_iff p (x ∷ xs) =
      let rest = any_of-false_iff p xs in
      (λ h. (ground (arith, h), rest.0 (ground (arith, h))), λ h. ground (arith, h.0, rest.1 h.1))

  pub All-keep_if_iff {μ} :
      (P : A → Type μ) (p : A → Bool) (xs : List A)
      → All P (keep_if p xs) ↔ All (λ x. p x ≡ true → P x) xs
  All-keep_if_iff P p [] = (λ _. tt, λ _. tt)
  All-keep_if_iff P p (x ∷ xs) =
      let rest = All-keep_if_iff P p xs in
      elim (Bool-cases (p x)) [
        | inl e ↦ rw e (λ h. ((λ _. h.0), rest.0 h.1), λ h. (h.0 refl, rest.1 h.1))
        | inr e ↦ rw e (λ h. ((λ k. absurd (ground (arith, k))), rest.0 h), λ h. rest.1 h.1)
      ]

-- Guards before the rest of a loop's body. Nothing is appended unless each guard lets the body go on.
module _ {ℓ κ μ} {A : Type ℓ} {P : Type κ} {Q : Type μ} where
  pub unless_iff :
      (t : Bool) (rest : List A)
      → (t ≡ false) ↔ P
      → (rest ≡ []) ↔ ¬ Q
      → ((if t then [] else rest) ≡ []) ↔ ¬ (P × Q)
  unless_iff true rest h k = (λ _ p. absurd (ground (arith, h.1 p.0)), λ _. refl)
  unless_iff false rest h k = (λ e p. k.0 e p.1, λ n. k.1 (λ q. n (h.0 refl, q)))

  pub unless-not_iff :
      (t : Bool) (rest : List A)
      → (t ≡ true) ↔ P
      → (rest ≡ []) ↔ ¬ Q
      → ((if not t then [] else rest) ≡ []) ↔ ¬ (P × Q)
  unless-not_iff false rest h k = (λ _ p. absurd (ground (arith, h.1 p.0)), λ _. refl)
  unless-not_iff true rest h k = (λ e p. k.0 e p.1, λ n. k.1 (λ q. n (h.0 refl, q)))

module _ {ℓ κ} {A : Type ℓ} {P : Type κ} where
  pub unless-one_iff :
      (t : Bool) (x : A) → (t ≡ false) ↔ P → ((if t then [] else x ∷ []) ≡ []) ↔ ¬ P
  unless-one_iff true x h = (λ _ p. absurd (ground (arith, h.1 p)), λ _. refl)
  unless-one_iff false x h = (λ e. absurd (ground (arith, e)), λ n. absurd (n (h.0 refl)))

  pub unless-not-one_iff :
      (t : Bool) (x : A) → (t ≡ true) ↔ P → ((if not t then [] else x ∷ []) ≡ []) ↔ ¬ P
  unless-not-one_iff false x h = (λ _ p. absurd (ground (arith, h.1 p)), λ _. refl)
  unless-not-one_iff true x h = (λ e. absurd (ground (arith, e)), λ n. absurd (n (h.0 refl)))

pub false_iff {ℓ} : {P : Type ℓ} (t : Bool) → (t ≡ true) ↔ P → (t ≡ false) ↔ ¬ P
false_iff true h = (λ e. absurd (ground (arith, e)), λ n. absurd (n (h.0 refl)))
false_iff false h = ((λ _ p. absurd (ground (arith, h.1 p))), λ _. refl)

pub neither_iff {ℓ κ} : {P : Type ℓ} {Q : Type κ} → (¬ P × ¬ Q) ↔ ¬ (P ⊎ Q)
neither_iff =
    (λ h s. elim s [ inl p ↦ h.0 p | inr q ↦ h.1 q ], λ n. (λ p. n (inl p), λ q. n (inr q)))

module _ {ℓ} {A : Type ℓ} where
  abbrev pub Any : (A → Type 0) → List A → Type 0
  Any P [] = ⊥
  Any P (x ∷ xs) = P x ⊎ Any P xs

  pub All-not_iff : (P : A → Type 0) (xs : List A) → All (λ x. ¬ P x) xs ↔ ¬ Any P xs
  All-not_iff P [] = (λ _ n. absurd n, λ _. tt)
  All-not_iff P (x ∷ xs) = Iff.trans (Iff.and Iff.rfl (All-not_iff P xs)) neither_iff

-- Two parts of a report are empty exactly when both requirements hold of each item.
module _ {ℓ κ μ ν} {A : Type ℓ} {B : Type ν} (P : A → Type κ) (Q : A → Type μ) where
  pub append-both_iff :
      {xs ys : List B} (items : List A)
      → (xs ≡ []) ↔ All P items
      → (ys ≡ []) ↔ All Q items
      → (xs ++ ys ≡ []) ↔ All (λ a. P a × Q a) items
  append-both_iff {xs} {ys} items h k =
      Iff.trans (append-eq-nil_iff xs ys) (Iff.trans (Iff.and h k) (both items))
    where
      both : (more : List A) → (All P more × All Q more) ↔ All (λ a. P a × Q a) more
      both [] = (λ _. tt, λ _. (tt, tt))
      both (a ∷ more) = (
        λ s. ((s.0.0, s.1.0), (both more).0 (s.0.1, s.1.1)),
        λ s. ((s.0.0, ((both more).1 s.1).0), (s.0.1, ((both more).1 s.1).1)),
      )
