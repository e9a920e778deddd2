-- ===== src/Json.antt =====
-- The values of Python that a JSON text can hold, as the program reads them from an export or a graph
-- file: `dict.get`, `str(x)` and the truth of a value.
use Prim.Native.Nat.{ℕ, ◌+◌, ◌/◌, ◌%◌}
use Prim.Native.Char.{Char, code}
use Prim.Native.String.{String, ◌++◌, slice}
use beadloom.Base.{
  Bool, true, false, not, ◌&&◌, ◌||◌, Option, none, some, ltb, nat_beq, if◌then◌else◌, ◌==◌,
  string_equality,
}

-- A number stands as the text that `str` prints for it.
mutual
  pub data Value : Type 0 where
    null : Value
    bool : Bool → Value
    num : String → Value
    str : String → Value
    obj : Fields → Value
    arr : Items → Value

  pub data Fields : Type 0 where
    end : Fields
    field : String → Value → Fields → Fields

  pub data Items : Type 0 where
    nil : Items
    cons : Value → Items → Items

-- `d.get(k)`; a `dict` has each key once.
unfoldable pub get : String → Fields → Option Value
get k end = none
get k (field j v r) = if j == k then some v else get k r

hex_digit : ℕ → String
hex_digit n = slice "0123456789abcdef" n (n + 1)

has_code : ℕ → String → Bool
has_code k String.[] = false
has_code k (String.◌∷◌ c s) = nat_beq (code c) k || has_code k s

-- One character of `repr(s)` between quotation marks `q`.
repr_char : ℕ → Char → String
unfolding hex_digit
repr_char q c =
    if nat_beq (code c) 92
    then "\\\\"
    else if nat_beq (code c) q
    then "\\" ++ String.◌∷◌ c String.[]
    else if nat_beq (code c) 10
    then "\\n"
    else if nat_beq (code c) 13
    then "\\r"
    else if nat_beq (code c) 9
    then "\\t"
    else if ltb (code c) 32 || nat_beq (code c) 127
    then "\\x" ++ (hex_digit (code c / 16) ++ hex_digit (code c % 16))
    else String.◌∷◌ c String.[]

repr_chars : ℕ → String → String
unfolding repr_char
repr_chars q String.[] = ""
repr_chars q (String.◌∷◌ c s) = repr_char q c ++ repr_chars q s

-- `repr(s)`: double quotation marks only where they spare an escape. Characters beyond ASCII are taken
-- to be printable.
repr_text : String → String
unfolding repr_chars has_code
repr_text s =
    if has_code 39 s && not (has_code 34 s)
    then "\"" ++ (repr_chars 34 s ++ "\"")
    else "'" ++ (repr_chars 39 s ++ "'")

unfoldable mutual
  unfolding repr_text

  -- `repr(v)`
  pub repr : Value → String
  repr null = "None"
  repr (bool true) = "True"
  repr (bool false) = "False"
  repr (num n) = n
  repr (str s) = repr_text s
  repr (arr nil) = "[]"
  repr (arr (cons v r)) = "[" ++ (repr v ++ repr_items r)
  repr (obj end) = "{}"
  repr (obj (field k v r)) = "{" ++ (repr_text k ++ (": " ++ (repr v ++ repr_fields r)))

  pub repr_items : Items → String
  repr_items nil = "]"
  repr_items (cons v r) = ", " ++ (repr v ++ repr_items r)

  pub repr_fields : Fields → String
  repr_fields end = "}"
  repr_fields (field k v r) = ", " ++ (repr_text k ++ (": " ++ (repr v ++ repr_fields r)))

-- `str(v)`
unfoldable pub py_str : Value → String
unfolding repr
py_str (str s) = s
py_str v = repr v

-- `str(d.get(k, default))`
unfoldable pub str_or : String → Option Value → String
unfolding py_str
str_or default none = default
str_or default (some v) = py_str v

-- `bool(v)`
unfoldable pub truthy : Value → Bool
truthy null = false
truthy (bool b) = b
truthy (num n) = not (n == "0" || n == "0.0" || n == "-0.0")
truthy (str String.[]) = false
truthy (str (String.◌∷◌ _ _)) = true
truthy (arr nil) = false
truthy (arr (cons _ _)) = true
truthy (obj end) = false
truthy (obj (field _ _ _)) = true

-- `a or b` on a value that may be missing
unfoldable pub or_else : Option Value → Option Value → Option Value
unfolding truthy
or_else none b = b
or_else (some a) b = if truthy a then some a else b
