-- ===== src/Graph/GraphqlBreaking/RoundTrip.antt =====
-- `_parse_wrapped` reads back the canonical text of a GraphQL type: a name, or `[...]` round a type, with
-- `!` behind each level that is not null.
use Prim.Native.Char.{Char, code}
use Prim.Native.String.{◌++◌ as str_append}
use text.Mathlib.TextLemmas.{append_assoc, cons-append, nil-append, append-nil}
use beadloom.Base.{
  ℕ, String, Bool, true, false, not, ◌&&◌, ◌||◌, ◌≡◌, refl, arith, nat_beq, leb, strip, strip_left,
  strip_right, is_blank, is_space, ends_with_code, starts_with_code, drop_first, drop_last, ap, ◌∙◌,
}
use beadloom.Graph.GraphqlBreaking.{WrappedType, named, list_of, non_null, parse_wrapped}
use beadloom.Graph.GraphqlBreaking.Parsing.{parse_wrapped_lem, body_of}

-- `[_0-9A-Za-z]`
name_code : ℕ → Bool
name_code c =
    leb b'a' c && leb c b'z'
    || leb b'A' c && leb c b'Z'
    || leb b'0' c && leb c b'9'
    || nat_beq c b'_'

-- The text is a name of GraphQL.
unfoldable pub is_name : String → Bool
unfolding name_code
is_name String.[] = false
is_name (String.◌∷◌ c String.[]) = name_code (code c)
is_name (String.◌∷◌ c (String.◌∷◌ d s)) = name_code (code c) && is_name (String.◌∷◌ d s)

abbrev pub HasNames : WrappedType → Type 0
HasNames (named n a) = is_name a ≡ true
HasNames (list_of n w) = HasNames w

abbrev bang : Bool → String
bang true = "!"
bang false = ""

-- `str` of a type: what stands before the mark of its outermost level, and the mark.
unfoldable mutual
  pub core : WrappedType → String
  core (named n a) = a
  core (list_of n w) = str_append "[" (str_append (print w) "]")

  pub print : WrappedType → String
  print (named n a) = str_append a (bang n)
  print (list_of n w) = str_append "[" (str_append (str_append (print w) "]") (bang n))

print-core : (w : WrappedType) → print w ≡ str_append (core w) (bang (non_null w))
unfolding print
print-core (named n a) = refl
print-core (list_of n w) = simp (append_assoc)

-- The text begins with a character that is no white space.
begins_visible : String → Bool
begins_visible String.[] = false
begins_visible (String.◌∷◌ c s) = not (is_space (code c))

-- A text with no white space at its ends, and no mark behind it.
record IsTight (s : String) : Type 0 where
  left : begins_visible s ≡ true
  right : strip_right s ≡ s
  unmarked : ends_with_code b'!' s ≡ false

is_blank_of_visible : (s : String) → begins_visible s ≡ true → is_blank s ≡ false
unfolding begins_visible is_blank
is_blank_of_visible String.[] h = ground arith
is_blank_of_visible (String.◌∷◌ c s) h = refl

strip_left_of_visible : (s : String) → begins_visible s ≡ true → strip_left s ≡ s
unfolding begins_visible strip_left
strip_left_of_visible String.[] h = refl
strip_left_of_visible (String.◌∷◌ c s) h = ground arith

strip_of_IsTight : (s : String) → begins_visible s ≡ true → strip_right s ≡ s → strip s ≡ s
unfolding strip
strip_of_IsTight s h k = rw (strip_left_of_visible s h, k)

begins_visible-append :
    (s t : String) → begins_visible s ≡ true → begins_visible (str_append s t) ≡ true
unfolding begins_visible
begins_visible-append String.[] t h = ground arith
begins_visible-append (String.◌∷◌ c s) t h = rw cons-append h

is_blank-append : (s t : String) → is_blank t ≡ false → is_blank (str_append s t) ≡ false
unfolding is_blank
is_blank-append String.[] t h = rw nil-append h
is_blank-append (String.◌∷◌ c s) t h = rw cons-append

strip_right-append :
    (s t : String)
    → strip_right t ≡ t
    → is_blank t ≡ false
    → strip_right (str_append s t) ≡ str_append s t
unfolding strip_right
strip_right-append String.[] t h b = rw nil-append h
strip_right-append (String.◌∷◌ c s) t h b =
    rw cons-append (rw (strip_right-append s t h b) (rw (is_blank-append s t b) (ground arith)))

ends_with_code-append :
    (k : ℕ) (s t : String)
    → is_blank t ≡ false
    → ends_with_code k (str_append s t) ≡ ends_with_code k t
unfolding ends_with_code is_blank
ends_with_code-append k String.[] t b = rw nil-append
ends_with_code-append k (String.◌∷◌ c String.[]) String.[] b = ground arith
ends_with_code-append k (String.◌∷◌ c String.[]) (String.◌∷◌ d t) b = simp (cons-append, nil-append)
ends_with_code-append k (String.◌∷◌ c (String.◌∷◌ d s)) t b =
    simp cons-append (simp cons-append at (ends_with_code-append k (String.◌∷◌ d s) t b))

drop_last-append :
    (s t : String) → is_blank t ≡ false → drop_last (str_append s t) ≡ str_append s (drop_last t)
unfolding drop_last is_blank
drop_last-append String.[] t b = simp nil-append
drop_last-append (String.◌∷◌ c String.[]) String.[] b = ground arith
drop_last-append (String.◌∷◌ c String.[]) (String.◌∷◌ d t) b = simp (cons-append, nil-append)
drop_last-append (String.◌∷◌ c (String.◌∷◌ d s)) t b =
    simp cons-append
      (ap (String.◌∷◌ c) (simp cons-append at (drop_last-append (String.◌∷◌ d s) t b)))

drop_last-mark : (s : String) (c : Char) → drop_last (str_append s (String.◌∷◌ c String.[])) ≡ s
unfolding drop_last is_blank
drop_last-mark s c = rw (drop_last-append s (String.◌∷◌ c String.[]) refl) (append-nil s)

-- A name has no white space, no bracket and no mark.
name_code_lem :
    (c : ℕ)
    → name_code c ≡ true
    → (is_space c ≡ false) × (nat_beq c b'!' ≡ false) × (nat_beq c b'[' ≡ false)
unfolding name_code is_space
name_code_lem c h = ground arith

is_name-IsTight : (s : String) → is_name s ≡ true → IsTight s
unfolding is_name begins_visible strip_right ends_with_code is_blank
is_name-IsTight String.[] h = ground arith
is_name-IsTight (String.◌∷◌ c String.[]) h = record {
  left = ground (arith, name_code_lem (code c));
  right = ground (arith, name_code_lem (code c));
  unmarked = ground (arith, name_code_lem (code c));
}
is_name-IsTight (String.◌∷◌ c (String.◌∷◌ d s)) h =
    let rest = is_name-IsTight (String.◌∷◌ d s) (ground arith) in
    record {
      left = ground (arith, name_code_lem (code c));
      right = ground (arith, name_code_lem (code c), rest.right);
      unmarked = rest.unmarked;
    }

core-IsTight : (w : WrappedType) → HasNames w → IsTight (core w)
unfolding core
core-IsTight (named n a) h = is_name-IsTight a h
core-IsTight (list_of n w) h =
    unfold strip_right begins_visible ends_with_code is_blank in
    let filled = is_blank-append (print w) "]" refl in
    record {
      left = begins_visible-append "[" (str_append (print w) "]") refl;
      right = strip_right-append "[" _ (strip_right-append (print w) "]" refl refl) filled;
      unmarked =
          ends_with_code-append b'!' "[" (str_append (print w) "]") filled
          ∙ ends_with_code-append b'!' (print w) "]" refl;
    }

-- What the parser makes of a printed type before it looks for brackets.
mark-print :
    (w : WrappedType)
    → HasNames w
    → (ends_with_code b'!' (strip (print w)) ≡ non_null w) × (body_of (print w) ≡ core w)
unfolding body_of
mark-print w h = go (non_null w) (core-IsTight w h) (print-core w)
  where
    go :
        (n : Bool)
        → IsTight (core w)
        → print w ≡ str_append (core w) (bang n)
        → (ends_with_code b'!' (strip (print w)) ≡ n) × (body_of (print w) ≡ core w)
    go true tight e =
        let s = str_append (core w) "!" in
        let whole : strip s ≡ s =
          strip_of_IsTight s (begins_visible-append (core w) "!" tight.left)
            (unfold strip_right is_blank in strip_right-append (core w) "!" refl refl) in
        let marked : ends_with_code b'!' s ≡ true =
          unfold ends_with_code is_blank in ends_with_code-append b'!' (core w) "!" refl in
        let plain = strip_of_IsTight (core w) tight.left tight.right in
        let last : drop_last s ≡ core w = drop_last-mark (core w) "!" in
        rw e (rw whole (rw marked (refl, rw last plain)))
    go false tight e =
        let whole = strip_of_IsTight (core w) tight.left tight.right in
        rw (e, append-nil) (rw whole (rw tight.unmarked (refl, refl)))

name_unbracketed : (a : String) → is_name a ≡ true → starts_with_code b'[' a ≡ false
unfolding is_name starts_with_code
name_unbracketed String.[] h = refl
name_unbracketed (String.◌∷◌ c String.[]) h = ground (arith, name_code_lem (code c))
name_unbracketed (String.◌∷◌ c (String.◌∷◌ d s)) h = ground (arith, name_code_lem (code c))

core-brackets :
    (n : Bool) (w : WrappedType)
    → (starts_with_code b'[' (core (list_of n w)) ≡ true)
      × (ends_with_code b']' (core (list_of n w)) ≡ true)
      × (drop_last (drop_first (core (list_of n w))) ≡ print w)
unfolding core starts_with_code ends_with_code is_blank drop_first
core-brackets n w =
    let inside = str_append (print w) "]" in
    let filled = is_blank-append (print w) "]" refl in
    (
      rw cons-append,
      ends_with_code-append b']' "[" inside filled ∙ ends_with_code-append b']' (print w) "]" refl,
      rw (cons-append, nil-append) (drop_last-mark (print w) "]"),
    )

-- Parsing the canonical text of a type gives the type back, for every type whose leaf is a name of GraphQL.
pub parse_wrapped-print : (w : WrappedType) → HasNames w → parse_wrapped (print w) ≡ w
parse_wrapped-print (named n a) h =
    let (mark, body) = mark-print (named n a) h in
    rw (parse_wrapped_lem (print (named n a)))
      (rw (mark, body) (unfold core in rw (name_unbracketed a h)))
parse_wrapped-print (list_of n w) h =
    let (mark, body) = mark-print (list_of n w) h in
    let (opens, closes, inner) = core-brackets n w in
    rw (parse_wrapped_lem (print (list_of n w)))
      (rw (mark, body, opens, closes, inner, parse_wrapped-print w h))
