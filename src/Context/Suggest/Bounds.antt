-- ===== src/Context/Suggest/Bounds.antt =====
-- What `suggest_ref_id` suggests: few names, each of a node, none twice, and all of them close.
use native.Mathlib.Omega.{arith}
use beadloom.Base.{
  ℕ, zero, suc, ◌≤◌, String, true, false, List, [], ◌∷◌, ◌++◌, leb, length, keep_if, contains,
  string_equality, map, ◌≡◌, refl, ◌⊎◌, inl, inr, Bool-cases, All, IsDuplicateFree, All-sort_by_iff,
  eq_iff, ◌==◌, contains_self, All-contains, All-append_iff, subst,
}
use beadloom.Context.Distance.{levenshtein}
use beadloom.Context.Suggest.{
  take, is_prefix_match, max_dist, scored, lev_matches, unseen, suggest_ref_id,
}

-- A name is close if one of the two begins with the other, whatever the case, or few edits lead to it.
abbrev pub IsClose : String → String → Type 0
IsClose ref_id rid =
    (is_prefix_match ref_id rid ≡ true) ⊎ (levenshtein ref_id rid ≤ max_dist ref_id)

-- The name is one of the nodes', and close.
abbrev pub IsApt : List String → String → String → Type 0
IsApt all_ids ref_id rid = (contains all_ids rid ≡ true) × IsClose ref_id rid

length-take : {A : Type 0} (n : ℕ) (xs : List A) → length (take n xs) ≤ n
unfolding take
length-take zero xs = omega arith
length-take (suc n) [] = omega arith
length-take (suc n) (x ∷ xs) = omega (arith, length-take n xs)

All-take : {A : Type 0} (P : A → Type 0) (n : ℕ) (xs : List A) → All P xs → All P (take n xs)
unfolding take
All-take P zero xs h = tt
All-take P (suc n) [] h = tt
All-take P (suc n) (x ∷ xs) h = (h.0, All-take P n xs h.1)

contains-take :
    (n : ℕ) (xs : List String) (x : String) → contains xs x ≡ false → contains (take n xs) x ≡ false
unfolding take
contains-take zero xs x h = refl
contains-take (suc n) [] x h = refl
contains-take (suc n) (y ∷ xs) x h = ground (arith, h, contains-take n xs x)

IsDuplicateFree-take : (n : ℕ) (xs : List String) → IsDuplicateFree xs → IsDuplicateFree (take n xs)
unfolding take
IsDuplicateFree-take zero xs h = tt
IsDuplicateFree-take (suc n) [] h = tt
IsDuplicateFree-take (suc n) (x ∷ xs) h = (contains-take n xs x h.0, IsDuplicateFree-take n xs h.1)

All-unseen : (P : String → Type 0) (seen rids : List String) → All P rids → All P (unseen seen rids)
unfolding unseen
All-unseen P seen [] h = tt
All-unseen P seen (rid ∷ rids) h = elim (Bool-cases (contains seen rid)) [
  | inl e ↦ rw e (All-unseen P seen rids h.1)
  | inr e ↦ rw e (h.0, All-unseen P (rid ∷ seen) rids h.1)
]

contains-unseen :
    (seen rids : List String) (x : String)
    → contains seen x ≡ true
    → contains (unseen seen rids) x ≡ false
unfolding unseen
contains-unseen seen [] x h = refl
contains-unseen seen (rid ∷ rids) x h = elim (Bool-cases (contains seen rid)) [
  | inl e ↦ rw e (contains-unseen seen rids x h)
  | inr e ↦
      let rest = contains-unseen (rid ∷ seen) rids x (ground (arith, h)) in
      rw e (elim (Bool-cases (rid == x)) [
        | inl same ↦
            let f = subst (λ y. contains seen y ≡ false) ((eq_iff rid x).0 same) e in
            absurd (ground (arith, f, h))
        | inr other ↦ ground (arith, other, rest)
      ])
]

IsDuplicateFree-unseen : (seen rids : List String) → IsDuplicateFree (unseen seen rids)
unfolding unseen
IsDuplicateFree-unseen seen [] = tt
IsDuplicateFree-unseen seen (rid ∷ rids) = elim (Bool-cases (contains seen rid)) [
  | inl e ↦ rw e (IsDuplicateFree-unseen seen rids)
  | inr e ↦ rw e (
    contains-unseen (rid ∷ seen) rids rid (contains_self rid seen),
    IsDuplicateFree-unseen (rid ∷ seen) rids,
  )
]

All-prefix :
    (all_ids : List String) (ref_id : String) (rids : List String)
    → All (λ rid. contains all_ids rid ≡ true) rids
    → All (IsApt all_ids ref_id) (keep_if (is_prefix_match ref_id) rids)
All-prefix all_ids ref_id [] h = tt
All-prefix all_ids ref_id (rid ∷ rids) h = elim (Bool-cases (is_prefix_match ref_id rid)) [
  | inl e ↦ rw e ((h.0, inl e), All-prefix all_ids ref_id rids h.1)
  | inr e ↦ rw e (All-prefix all_ids ref_id rids h.1)
]

-- An entry of `scored` has a node's name and its distance.
abbrev IsScored : List String → String → String × ℕ → Type 0
IsScored all_ids ref_id x = (contains all_ids x.0 ≡ true) × (x.1 ≡ levenshtein ref_id x.0)

All-scores :
    (all_ids : List String) (ref_id : String) (rids : List String)
    → All (λ rid. contains all_ids rid ≡ true) rids
    → All (IsScored all_ids ref_id) (map (λ rid. (rid, levenshtein ref_id rid)) rids)
All-scores all_ids ref_id [] h = tt
All-scores all_ids ref_id (rid ∷ rids) h = ((h.0, refl), All-scores all_ids ref_id rids h.1)

leb→≤ : (a b : ℕ) → leb a b ≡ true → a ≤ b
leb→≤ a b h = ground (arith, h)

All-near :
    (all_ids : List String) (ref_id : String) (entries : List (String × ℕ))
    → All (IsScored all_ids ref_id) entries
    → All (IsApt all_ids ref_id) (
        map
          (λ (x : String × ℕ). x.0)
          (keep_if (λ (x : String × ℕ). leb x.1 (max_dist ref_id)) entries))
All-near all_ids ref_id [] h = tt
All-near all_ids ref_id ((rid, dist) ∷ entries) h = elim (Bool-cases (leb dist (max_dist ref_id))) [
  | inl e ↦
      let near : levenshtein ref_id rid ≤ max_dist ref_id =
        subst (λ n. n ≤ max_dist ref_id) h.0.1 (leb→≤ dist (max_dist ref_id) e) in
      rw e ((h.0.0, inr near), All-near all_ids ref_id entries h.1)
  | inr e ↦ rw e (All-near all_ids ref_id entries h.1)
]

-- At most five names are suggested, none of them twice, and each is the name of a node and close to what was
-- asked for: one of the two begins with the other, or the distance is at most three or half of its length.
pub suggest_ref_id-IsApt :
    (all_ids : List String) (ref_id : String)
    → (length (suggest_ref_id all_ids ref_id) ≤ 5)
      × (IsDuplicateFree (suggest_ref_id all_ids ref_id)
          × All (IsApt all_ids ref_id) (suggest_ref_id all_ids ref_id))
unfolding suggest_ref_id lev_matches scored
suggest_ref_id-IsApt all_ids ref_id = elim (Bool-cases (contains all_ids ref_id)) [
  | inl e ↦ rw e (omega arith, (tt, tt))
  | inr e ↦
      let here = All-contains all_ids all_ids (λ x h. h) in
      let near = keep_if (is_prefix_match ref_id) all_ids ++ lev_matches ref_id all_ids in
      let apt : All (IsApt all_ids ref_id) near =
        (All-append_iff (IsApt all_ids ref_id) (keep_if (is_prefix_match ref_id) all_ids)
            (lev_matches ref_id all_ids)).1
          (
            All-prefix all_ids ref_id all_ids here,
            All-near all_ids ref_id (scored ref_id all_ids) (
                (All-sort_by_iff (IsScored all_ids ref_id) _ _).1
                  (All-scores all_ids ref_id all_ids here)),
          ) in
      rw e (
        length-take 5 (unseen [] near),
        (
          IsDuplicateFree-take 5 (unseen [] near) (IsDuplicateFree-unseen [] near),
          All-take (IsApt all_ids ref_id) 5 (unseen [] near)
              (All-unseen (IsApt all_ids ref_id) [] near apt),
        ),
      )
]
