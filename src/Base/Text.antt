-- ===== src/Base/Text.antt =====
-- The operations of Python's `str` that the program walks a text with.
use Prim.Native.Nat.{ℕ, zero, suc, ◌+◌, ◌-◌, ◌/◌, ◌%◌}
use Prim.Native.Char.{Char, code}
use Prim.Native.String.{String, ◌++◌, char_at, slice}
use mathlib.Core.Bool.{Bool, true, false, ◌&&◌, ◌||◌}
use mathlib.Core.Option.{Option, none, some}
use mathlib.Core.List.{List, [], ◌∷◌}
use beadloom.Base.Tests.{nat_beq, leb, ltb, if◌then◌else◌}

-- `bool(s)` for a text
unfoldable pub is_blank : String → Bool
is_blank String.[] = true
is_blank (String.◌∷◌ _ _) = false

-- `s.startswith(c)` for one character
unfoldable pub starts_with_code : ℕ → String → Bool
starts_with_code k String.[] = false
starts_with_code k (String.◌∷◌ c s) = nat_beq (code c) k

-- `s.endswith(c)` for one character
unfoldable pub ends_with_code : ℕ → String → Bool
ends_with_code k String.[] = false
ends_with_code k (String.◌∷◌ c String.[]) = nat_beq (code c) k
ends_with_code k (String.◌∷◌ c (String.◌∷◌ d s)) = ends_with_code k (String.◌∷◌ d s)

-- `s[1:]`
unfoldable pub drop_first : String → String
drop_first String.[] = String.[]
drop_first (String.◌∷◌ _ s) = s

-- `s[:-1]`
unfoldable pub drop_last : String → String
drop_last String.[] = String.[]
drop_last (String.◌∷◌ c String.[]) = String.[]
drop_last (String.◌∷◌ c (String.◌∷◌ d s)) = String.◌∷◌ c (drop_last (String.◌∷◌ d s))

abbrev in_range : ℕ → ℕ → ℕ → Bool
in_range lo hi c = leb lo c && leb c hi

-- `c.isspace()`: the white space of Unicode, with the separators 28 to 31
unfoldable pub is_space : ℕ → Bool
is_space c =
    in_range 9 13 c
    || in_range 28 32 c
    || nat_beq c 133
    || nat_beq c 160
    || nat_beq c 5760
    || in_range 8192 8202 c
    || in_range 8232 8233 c
    || nat_beq c 8239
    || nat_beq c 8287
    || nat_beq c 12288

-- `s.lstrip()`
unfoldable pub strip_left : String → String
unfolding is_space
strip_left String.[] = String.[]
strip_left (String.◌∷◌ c s) = if is_space (code c) then strip_left s else String.◌∷◌ c s

-- `s.rstrip()`: a character of white space goes if nothing is left behind it.
unfoldable pub strip_right : String → String
unfolding is_space is_blank
strip_right String.[] = String.[]
strip_right (String.◌∷◌ c s) =
    let rest = strip_right s in
    if is_space (code c) && is_blank rest then String.[] else String.◌∷◌ c rest

unfoldable pub strip : String → String
unfolding strip_left strip_right
strip s = strip_right (strip_left s)

-- `c.lower()` on the letters of ASCII; other characters are left as they are.
unfoldable pub lower_char : Char → Char
lower_char c =
    if in_range b'A' b'Z' (code c) then char_at "abcdefghijklmnopqrstuvwxyz" (code c - b'A') else c

-- `s.lower()`
unfoldable pub lower : String → String
unfolding lower_char
lower String.[] = String.[]
lower (String.◌∷◌ c s) = String.◌∷◌ (lower_char c) (lower s)

-- `len(s)`
abbrev pub size : String → ℕ
size String.[] = 0
size (String.◌∷◌ _ s) = suc (size s)

-- `s.partition(c)` for one character: what stands before it, and what stands behind it if it is
-- there.
unfoldable pub partition : ℕ → String → String × Option String
partition k String.[] = (String.[], none)
partition k (String.◌∷◌ c s) =
    let (before, after) = partition k s in
    if nat_beq (code c) k then (String.[], some s) else (String.◌∷◌ c before, after)

-- `sep.join(xs)`
unfoldable pub join : String → List String → String
join sep [] = ""
join sep (x ∷ []) = x
join sep (x ∷ y ∷ ys) = x ++ (sep ++ join sep (y ∷ ys))

-- `s.startswith(prefix)`
unfoldable pub starts_with : String → String → Bool
starts_with String.[] s = true
starts_with (String.◌∷◌ c prefix) String.[] = false
starts_with (String.◌∷◌ c prefix) (String.◌∷◌ d s) =
    let rest = starts_with prefix s in nat_beq (code c) (code d) && rest

-- `s.rstrip(c)` for one character
unfoldable pub strip_code : ℕ → String → String
unfolding is_blank
strip_code k String.[] = String.[]
strip_code k (String.◌∷◌ c s) =
    let rest = strip_code k s in
    if nat_beq (code c) k && is_blank rest then String.[] else String.◌∷◌ c rest

-- `s.replace(c, d)` for two characters
unfoldable pub replace_code : ℕ → Char → String → String
replace_code k d String.[] = String.[]
replace_code k d (String.◌∷◌ c s) =
    String.◌∷◌ (if nat_beq (code c) k then d else c) (replace_code k d s)

-- `s[n:]`
abbrev pub drop_size : String → String → String
drop_size String.[] s = s
drop_size (String.◌∷◌ _ prefix) String.[] = String.[]
drop_size (String.◌∷◌ _ prefix) (String.◌∷◌ _ s) = drop_size prefix s

show_fuel : ℕ → ℕ → String
show_fuel zero n = ""
show_fuel (suc f) n =
    let tens = show_fuel f (n / 10) in
    let digit = slice "0123456789" (n % 10) (n % 10 + 1) in
    if ltb n 10 then digit else tens ++ digit

-- `str(n)` of a number that is not negative
unfoldable pub show : ℕ → String
unfolding show_fuel
show n = show_fuel (n + 1) n
