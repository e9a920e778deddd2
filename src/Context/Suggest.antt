-- ===== src/Context/Suggest.antt =====
-- `suggest_ref_id` of src/beadloom/context_oracle/builder.py. The proofs are in the modules below.
pub mod Bounds
use Prim.Native.Nat.{◌/◌}
use beadloom.Base.{
  ℕ, zero, suc, ◌+◌, String, Bool, true, false, ◌||◌, List, [], ◌∷◌, ◌++◌, if◌then◌else◌, ltb, leb,
  length, keep_if, contains, string_equality, sort_by, map, lower, starts_with,
}
use beadloom.Context.Distance.{codes, levenshtein}

-- `xs[:n]`
unfoldable pub take : {A : Type 0} → ℕ → List A → List A
take zero xs = []
take (suc n) [] = []
take (suc n) (x ∷ xs) = x ∷ take n xs

-- `rid.lower().startswith(ref_lower) or ref_lower.startswith(rid.lower())`
abbrev pub is_prefix_match : String → String → Bool
is_prefix_match ref_id rid =
    starts_with (lower ref_id) (lower rid) || starts_with (lower rid) (lower ref_id)

-- `max(len(ref_id) // 2, 3)`
abbrev pub max_dist : String → ℕ
max_dist ref_id = let half = length (codes ref_id) / 2 in if ltb half 3 then 3 else half

-- `scored`, sorted
unfoldable pub scored : String → List String → List (String × ℕ)
unfolding levenshtein sort_by
scored ref_id all_ids =
    sort_by (λ (x : String × ℕ) (y : String × ℕ). ltb x.1 y.1)
      (map (λ rid. (rid, levenshtein ref_id rid)) all_ids)

-- `lev_matches`
unfoldable pub lev_matches : String → List String → List String
unfolding scored
lev_matches ref_id all_ids =
    map (λ (x : String × ℕ). x.0)
      (keep_if (λ (x : String × ℕ). leb x.1 (max_dist ref_id)) (scored ref_id all_ids))

-- the loop that combines the matches
unfoldable pub unseen : List String → List String → List String
unseen seen [] = []
unseen seen (rid ∷ rids) =
    let kept = unseen (rid ∷ seen) rids in
    let dropped = unseen seen rids in if contains seen rid then dropped else rid ∷ kept

-- `suggest_ref_id`, from the names of all nodes
unfoldable pub suggest_ref_id : List String → String → List String
unfolding lev_matches unseen take
suggest_ref_id all_ids ref_id =
    if contains all_ids ref_id
    then []
    else take 5 (unseen [] (keep_if (is_prefix_match ref_id) all_ids ++ lev_matches ref_id all_ids))
