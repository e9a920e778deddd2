-- ===== src/Graph/GraphqlBreaking/Tests.antt =====
-- Runs of the analysis at small surfaces, and the theorems at them.
use beadloom.Base.{
  String, Bool, true, false, List, [], ◌∷◌, ◌++◌, ◌≡◌, ◌↔◌, refl, arith, some, suc, size,
}
use beadloom.Json.{Value, Fields, end, field, str, obj}
use beadloom.Graph.GraphqlBreaking.{
  WrappedType, named, list_of, parse_fuel, parse_wrapped, satisfies, args_of,
  breaking_field_descriptors,
}
use beadloom.Graph.GraphqlBreaking.Parsing.{parse_fuel_total}
use beadloom.Graph.GraphqlBreaking.RoundTrip
use beadloom.Graph.GraphqlBreaking.RoundTrip.{print, parse_wrapped-print}
use beadloom.Graph.GraphqlBreaking.Values.{Result, fits, satisfies_iff}
use beadloom.Graph.GraphqlBreaking.Descriptors.{
  AllServed, breaking_field_descriptors-eq-nil, breaking_field_descriptors-append,
  breaking_field_descriptors_self,
}

parse_nested : parse_wrapped " [ [Int!] ]! " ≡ list_of true (list_of false (named true "Int"))
unfolding parse_wrapped beadloom.Base.starts_with_code beadloom.Base.ends_with_code
    beadloom.Base.strip beadloom.Base.drop_last beadloom.Base.drop_first
parse_nested = refl

parse_bracket : parse_wrapped "[" ≡ named false "["
unfolding parse_wrapped beadloom.Base.starts_with_code beadloom.Base.ends_with_code
    beadloom.Base.strip
parse_bracket = refl

abbrev orders : WrappedType
orders = list_of true (named true "Order")

abbrev loose_orders : WrappedType
loose_orders = list_of false (named true "Order")

abbrev looser_orders : WrappedType
looser_orders = list_of false (named false "Order")

abbrev args_of_order : Fields
args_of_order = field "id" (str "ID!") end

abbrev order_field : Fields
order_field = field "type" (str "Order") (field "args" (obj args_of_order) end)

abbrev order_field_v2 : Fields
order_field_v2 =
    field "type" (str "Order")
      (field "args" (obj (field "id" (str "Int") (field "lang" (str "String!") end))) end)

abbrev surface : List (String × Fields)
surface = ("order", order_field) ∷ []

abbrev surface_v2 : List (String × Fields)
surface_v2 = ("order", order_field_v2) ∷ []

abbrev more : List (String × Fields)
more = ("user", order_field) ∷ []

breaking_runs :
    breaking_field_descriptors surface_v2 (("user", order_field) ∷ surface)
    ≡ "order(id)" ∷ "order(lang)" ∷ "user" ∷ []
unfolding breaking_field_descriptors parse_wrapped satisfies beadloom.Base.sort_unique
    beadloom.Base.starts_with_code beadloom.Base.ends_with_code beadloom.Base.strip
    beadloom.Graph.GraphqlBreaking.type_of beadloom.Json.get
    beadloom.Graph.GraphqlBreaking.broken_args args_of beadloom.Base.drop_last
    beadloom.Graph.GraphqlBreaking.arg_descriptor
breaking_runs = refl

parse_fuel_total_example : parse_fuel (suc (size "[Int!]")) "[Int!]" ≡ some (parse_wrapped "[Int!]")
parse_fuel_total_example = parse_fuel_total "[Int!]"

parse_wrapped-print_example : parse_wrapped (print orders) ≡ orders
parse_wrapped-print_example = parse_wrapped-print orders (unfold RoundTrip.is_name in refl)

satisfies_iff_example :
    (satisfies orders loose_orders ≡ true)
    ↔ ((v : Result) → fits orders v ≡ true → fits loose_orders v ≡ true)
satisfies_iff_example = satisfies_iff orders loose_orders

breaking_field_descriptors-eq-nil_example :
    (breaking_field_descriptors surface_v2 surface ≡ []) ↔ AllServed surface_v2 surface
breaking_field_descriptors-eq-nil_example = breaking_field_descriptors-eq-nil surface_v2 surface

breaking_field_descriptors-append_example :
    breaking_field_descriptors (surface_v2 ++ more) surface
    ≡ breaking_field_descriptors surface_v2 surface
breaking_field_descriptors-append_example =
    breaking_field_descriptors-append surface_v2 more surface (refl, tt)

breaking_field_descriptors_self_example : breaking_field_descriptors surface surface ≡ []
unfolding args_of beadloom.Json.get
breaking_field_descriptors_self_example =
    breaking_field_descriptors_self surface (refl, tt) ((refl, tt), tt)
