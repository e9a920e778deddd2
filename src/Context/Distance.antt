-- ===== src/Context/Distance.antt =====
-- `_levenshtein` of src/beadloom/context_oracle/builder.py. The proofs are in the modules below.
pub mod Alignment
use Prim.Native.Char.{code}
use beadloom.Base.{
  ℕ, zero, suc, ◌+◌, ◌<◌, String, Bool, true, false, List, [], ◌∷◌, if◌then◌else◌, ◌==◌,
  nat_equality, ltb, length,
}

-- the characters of a text, as the loops walk it
abbrev pub codes : String → List ℕ
codes String.[] = []
codes (String.◌∷◌ c s) = code c ∷ codes s

-- `min(a, b)`
abbrev pub lesser : ℕ → ℕ → ℕ
lesser a b = if ltb b a then b else a

-- `0 if c_s == c_t else 1`
abbrev pub cost : ℕ → ℕ → ℕ
cost a b = if a == b then 0 else 1

-- the inner loop, from the last entry of `curr_row`, and `prev_row` from index `j` on
unfoldable pub extend_row : ℕ → ℕ → List ℕ → List ℕ → List ℕ
extend_row c_s left (diagonal ∷ above ∷ prev_row) (c_t ∷ t) =
    let entry = lesser (lesser (left + 1) (above + 1)) (diagonal + cost c_s c_t) in
    entry ∷ extend_row c_s entry (above ∷ prev_row) t
extend_row c_s left prev_row t = []

-- the outer loop
unfoldable pub last_row : ℕ → List ℕ → List ℕ → List ℕ → List ℕ
unfolding extend_row
last_row i prev_row [] t = prev_row
last_row i prev_row (c_s ∷ s) t = last_row (i + 1) ((i + 1) ∷ extend_row c_s (i + 1) prev_row t) s t

-- `list(range(n + 1))`, from an index on
unfoldable pub range_from : ℕ → List ℕ → List ℕ
range_from n [] = n ∷ []
range_from n (_ ∷ t) = n ∷ range_from (n + 1) t

-- `row[-1]`
abbrev pub last_entry : List ℕ → ℕ
last_entry [] = 0
last_entry (n ∷ []) = n
last_entry (n ∷ m ∷ row) = last_entry (m ∷ row)

-- `_levenshtein` of texts of which the second is not longer
unfoldable pub ordered_distance : List ℕ → List ℕ → ℕ
unfolding last_row range_from
ordered_distance s [] = length s
ordered_distance s (c ∷ t) = last_entry (last_row 0 (range_from 0 (c ∷ t)) s (c ∷ t))

-- `_levenshtein`
unfoldable pub levenshtein : String → String → ℕ
unfolding ordered_distance
levenshtein s t =
    if ltb (length (codes s)) (length (codes t))
    then ordered_distance (codes t) (codes s)
    else ordered_distance (codes s) (codes t)
