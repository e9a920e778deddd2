-- ===== src/Graph/GraphqlBreaking/Parsing.antt =====
-- `_parse_wrapped`: it ends on every text, follows the equation of the source, and reads back what the
-- canonical form of a GraphQL type prints.
use beadloom.Base.{
  ℕ, zero, suc, ◌≤◌, ◌<◌, String, true, ◌&&◌, some, if◌then◌else◌, ◌≡◌, arith, Bool-cases, inl, inr,
  size, strip, strip_left, strip_right, ends_with_code, starts_with_code, drop_first, drop_last,
}
use beadloom.Graph.GraphqlBreaking.{WrappedType, named, list_of, parse_fuel, parse_wrapped}

size-strip_left : (s : String) → size (strip_left s) ≤ size s
unfolding strip_left
size-strip_left String.[] = omega arith
size-strip_left (String.◌∷◌ c s) = ground (arith, size-strip_left s)

size-strip_right : (s : String) → size (strip_right s) ≤ size s
unfolding strip_right
size-strip_right String.[] = omega arith
size-strip_right (String.◌∷◌ c s) = ground (arith, size-strip_right s)

size-strip : (s : String) → size (strip s) ≤ size s
unfolding strip
size-strip s = omega (arith, size-strip_right (strip_left s), size-strip_left s)

size-drop_last : (s : String) → size (drop_last s) ≤ size s
unfolding drop_last
size-drop_last String.[] = omega arith
size-drop_last (String.◌∷◌ c String.[]) = omega arith
size-drop_last (String.◌∷◌ c (String.◌∷◌ d s)) = omega (arith, size-drop_last (String.◌∷◌ d s))

size-drop_first : (s : String) (k : ℕ) → starts_with_code k s ≡ true → size (drop_first s) < size s
unfolding drop_first starts_with_code
size-drop_first String.[] k h = ground arith
size-drop_first (String.◌∷◌ c s) k h = omega arith

-- The inner text of a list level is shorter.
size_inner :
    (t : String) → starts_with_code b'[' t ≡ true → size (drop_last (drop_first t)) < size t
size_inner t h = omega (arith, size-drop_last (drop_first t), size-drop_first t b'[' h)

-- the text without its mark
unfoldable pub body_of : String → String
body_of s = let t = strip s in if ends_with_code b'!' t then strip (drop_last t) else t

size-body_of : (s : String) → size (body_of s) ≤ size s
unfolding body_of
size-body_of s =
    ground (arith, size-strip s, size-strip (drop_last (strip s)), size-drop_last (strip s))

-- More fuel than characters is enough, and then the amount makes no difference.
parse_fuel_enough :
    (m n : ℕ) (s : String)
    → size s < m
    → size s < n
    → (w : WrappedType) × (parse_fuel m s ≡ some w) × (parse_fuel n s ≡ some w)
unfolding parse_fuel body_of
parse_fuel_enough zero n s h k = absurd (omega arith)
parse_fuel_enough (suc m) zero s h k = absurd (omega arith)
parse_fuel_enough (suc m) (suc n) s h k =
    elim (Bool-cases (starts_with_code b'[' (body_of s) && ends_with_code b']' (body_of s))) [
      | inl level ↦
          let inner = drop_last (drop_first (body_of s)) in
          let small : size inner < size (body_of s) = size_inner (body_of s) (ground arith) in
          let (w, e, f) =
            parse_fuel_enough m n inner (omega (arith, size-body_of s))
              (omega (arith, size-body_of s)) in
          (list_of (ends_with_code b'!' (strip s)) w, rw (level, e), rw (level, f))
      | inr name ↦ (named (ends_with_code b'!' (strip s)) (body_of s), rw name, rw name)
    ]

-- The parser returns on every text: one more than its length is enough fuel.
pub parse_fuel_total : (s : String) → parse_fuel (suc (size s)) s ≡ some (parse_wrapped s)
unfolding parse_wrapped
parse_fuel_total s =
    let (w, e, _) = parse_fuel_enough (suc (size s)) (suc (size s)) s (omega arith) (omega arith) in
    rw e

parse_fuel_eq : (m : ℕ) (s : String) → size s < m → parse_fuel m s ≡ some (parse_wrapped s)
unfolding parse_wrapped
parse_fuel_eq m s h = let (w, e, f) = parse_fuel_enough m (suc (size s)) s h (omega arith) in cc

read : (s : String) (w : WrappedType) → parse_fuel (suc (size s)) s ≡ some w → parse_wrapped s ≡ w
read s w h = cc (parse_fuel_total s)

-- `_parse_wrapped` as the source writes it: the recursion on the inner text needs no fuel.
pub parse_wrapped_lem :
    (s : String)
    → parse_wrapped s ≡ (
        if starts_with_code b'[' (body_of s) && ends_with_code b']' (body_of s)
        then list_of
            (ends_with_code b'!' (strip s))
            (parse_wrapped (drop_last (drop_first (body_of s))))
        else named (ends_with_code b'!' (strip s)) (body_of s))
unfolding parse_fuel body_of
parse_wrapped_lem s =
    elim (Bool-cases (starts_with_code b'[' (body_of s) && ends_with_code b']' (body_of s))) [
      | inl level ↦
          let inner = drop_last (drop_first (body_of s)) in
          let small : size inner < size (body_of s) = size_inner (body_of s) (ground arith) in
          let e : parse_fuel (size s) inner ≡ some (parse_wrapped inner) =
            parse_fuel_eq (size s) inner (omega (arith, size-body_of s)) in
          rw level
            (read s (list_of (ends_with_code b'!' (strip s)) (parse_wrapped inner)) (rw (level, e)))
      | inr name ↦ rw name (read s (named (ends_with_code b'!' (strip s)) (body_of s)) (rw name))
    ]
