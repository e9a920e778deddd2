-- ===== src/Graph/GraphqlBreaking.antt =====
-- src/beadloom/graph/graphql_breaking.py: which references of a consumer does a producer's typed
-- surface break? The proofs are in the modules below.
pub mod Parsing
pub mod RoundTrip
pub mod Values
pub mod Descriptors
pub mod Tests
use Prim.Native.String.{◌++◌ as str_append}
use mathlib.Core.Option
use beadloom.Base.{
  ℕ, zero, suc, String, Bool, true, false, not, ◌&&◌, Option, none, some, List, [], ◌∷◌, ◌++◌, map,
  if◌then◌else◌, ◌==◌, string_equality, size, strip, ends_with_code, starts_with_code, drop_first,
  drop_last, lookup, sort_unique,
}
use beadloom.Json.{Value, Fields, get}

-- `_WrappedType`: a named leaf, or a list level; the flag is `non_null`.
pub data WrappedType : Type 0 where
  named : Bool → String → WrappedType
  list_of : Bool → WrappedType → WrappedType

abbrev pub non_null : WrappedType → Bool
non_null (named n _) = n
non_null (list_of n _) = n

-- `_parse_wrapped` on fuel; `none` means that the fuel ran out.
unfoldable pub parse_fuel : ℕ → String → Option WrappedType
parse_fuel zero type_str = none
parse_fuel (suc fuel) type_str =
    let text = strip type_str in
    let bang = ends_with_code b'!' text in
    let body = if bang then strip (drop_last text) else text in
    let inner = parse_fuel fuel (drop_last (drop_first body)) in
    if starts_with_code b'[' body && ends_with_code b']' body
    then Option.map (list_of bang) inner
    else some (named bang body)

abbrev given : Option WrappedType → WrappedType
given none = named false ""
given (some w) = w

-- `_parse_wrapped`: one more than the length of the text is enough fuel.
unfoldable pub parse_wrapped : String → WrappedType
unfolding parse_fuel
parse_wrapped type_str = given (parse_fuel (suc (size type_str)) type_str)

-- `_satisfies`
unfoldable pub satisfies : WrappedType → WrappedType → Bool
satisfies (named p a) (named c b) = if c && not p then false else a == b
satisfies (named p a) (list_of c w) = false
satisfies (list_of p v) (named c b) = false
satisfies (list_of p v) (list_of c w) = if c && not p then false else satisfies v w

-- `_return_type_broken`
unfoldable pub return_type_broken : String → String → Bool
return_type_broken producer consumer =
    not (satisfies (parse_wrapped producer) (parse_wrapped consumer))

abbrev text_of : Option Value → String
text_of (some (Value.str s)) = s
text_of _ = ""

-- `_type_of`
unfoldable pub type_of : Fields → String
type_of typed = text_of (get "type" typed)

-- the comprehension of `_args_of`
unfoldable pub text_items : Fields → List (String × String)
text_items Fields.end = []
text_items (Fields.field name (Value.str s) r) = (name, s) ∷ text_items r
text_items (Fields.field name _ r) = text_items r

abbrev mapping_items : Option Value → List (String × String)
mapping_items (some (Value.obj args)) = text_items args
mapping_items _ = []

-- `_args_of`
unfoldable pub args_of : Fields → List (String × String)
unfolding text_items
args_of typed = mapping_items (get "args" typed)

-- The test of `_broken_args` on one argument of the producer: its type, and what the consumer supplies.
unfoldable pub arg_broken : String → Option String → Bool
arg_broken producer_type none = non_null (parse_wrapped producer_type)
arg_broken producer_type (some consumer_type) =
    not (satisfies (parse_wrapped consumer_type) (parse_wrapped producer_type))

-- the loop of `_broken_args`
unfoldable pub broken_args_in : List (String × String) → List (String × String) → List String
unfolding arg_broken
broken_args_in consumer_args [] = []
broken_args_in consumer_args ((arg, producer_type) ∷ rest) =
    let broken = broken_args_in consumer_args rest in
    if arg_broken producer_type (lookup arg consumer_args) then arg ∷ broken else broken

-- `_broken_args`
unfoldable pub broken_args : Fields → Fields → List String
unfolding broken_args_in
broken_args producer consumer = broken_args_in (args_of consumer) (args_of producer)

-- f"{name}({arg})"
unfoldable pub arg_descriptor : String → String → String
arg_descriptor name arg = str_append name (str_append "(" (str_append arg ")"))

-- the body of the loop of `breaking_field_descriptors`: what one reference adds to `breaks`
unfoldable pub reference_breaks : String → Fields → Option Fields → List String
unfolding return_type_broken
reference_breaks name consumer none = name ∷ []
reference_breaks name consumer (some producer) =
    let retyped = return_type_broken (type_of producer) (type_of consumer) in
    let args = map (arg_descriptor name) (broken_args producer consumer) in
    if retyped then name ∷ args else args

-- `breaks`, as the loop adds to it
unfoldable pub collect_breaks : List (String × Fields) → List (String × Fields) → List String
unfolding reference_breaks
collect_breaks exposed [] = []
collect_breaks exposed ((name, consumer) ∷ rest) =
    reference_breaks name consumer (lookup name exposed) ++ collect_breaks exposed rest

-- `breaking_field_descriptors`
unfoldable pub breaking_field_descriptors :
    List (String × Fields) → List (String × Fields) → List String
unfolding collect_breaks
breaking_field_descriptors exposed referenced = sort_unique (collect_breaks exposed referenced)
