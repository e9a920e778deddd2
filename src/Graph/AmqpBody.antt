-- ===== src/Graph/AmqpBody.antt =====
-- src/beadloom/graph/amqp_body.py: the JSON-Schema of a message body, its canonical payload, and the paths
-- that a producer's body breaks for a consumer. The proofs are in the modules below.
pub mod Payload
pub mod Order
pub mod Diff
pub mod Inner
pub mod Unchanged
pub mod Tests
use Prim.Native.Nat.{Ordering}
use Prim.Native.String.{compare, ◌++◌ as str_append}
use beadloom.Base.{
  String, Bool, true, false, not, ◌&&◌, ◌||◌, Option, none, some, List, [], ◌∷◌, ◌++◌, map,
  if◌then◌else◌, ◌==◌, string_equality, contains, is_empty, sort_unique,
}
use beadloom.Json.{Value, Items, Fields, null, str, arr, obj, nil, cons, end, field, get, py_str}

-- `BodySchema`: type, properties, required, enum, items. A set stands as a list of its members.
mutual
  pub data BodySchema : Type 0 where
    schema : String → Properties → List String → List String → ItemsSchema → BodySchema

  -- `properties: dict[str, BodySchema]`
  pub data Properties : Type 0 where
    no_property : Properties
    property : String → BodySchema → Properties → Properties

  -- `items: BodySchema | None`
  pub data ItemsSchema : Type 0 where
    no_items : ItemsSchema
    items_of : BodySchema → ItemsSchema

-- `BodySchema()`
abbrev pub empty_schema : BodySchema
empty_schema = schema "" no_property [] [] no_items

abbrev text_value : Option Value → String
text_value (some (Value.str s)) = s
text_value _ = ""

abbrev texts_of : Items → List String
texts_of nil = []
texts_of (cons v r) = py_str v ∷ texts_of r

-- `_str_set`
unfoldable pub str_set : Option Value → List String
str_set (some (Value.arr xs)) = texts_of xs
str_set _ = []

-- the node that `parse_body` builds once the children are parsed
unfoldable pub node : Fields → Properties → ItemsSchema → BodySchema
unfolding str_set
node payload properties items =
    schema (text_value (get "type" payload)) properties (str_set (get "required" payload))
      (str_set (get "enum" payload)) items

-- `parse_body`; the recursion goes with `payload.get(...)` in one walk over the mapping.
unfoldable mutual
  pub parse_body : Value → BodySchema
  parse_body (obj payload) = node payload (get_properties payload) (get_items payload)
  parse_body _ = empty_schema

  -- `payload.get("properties")`, parsed
  pub get_properties : Fields → Properties
  get_properties end = no_property
  get_properties (field k v r) = if k == "properties" then parse_properties v else get_properties r

  pub parse_properties : Value → Properties
  parse_properties (obj raw) = parse_children raw
  parse_properties _ = no_property

  pub parse_children : Fields → Properties
  parse_children end = no_property
  parse_children (field name child r) =
      let rest = parse_children r in
      if name == "" then rest else property name (parse_body child) rest

  -- `payload.get("items")`, parsed
  pub get_items : Fields → ItemsSchema
  get_items end = no_items
  get_items (field k v r) = if k == "items" then parse_items v else get_items r

  pub parse_items : Value → ItemsSchema
  parse_items (obj payload) = items_of (node payload (get_properties payload) (get_items payload))
  parse_items _ = no_items

-- A field at its place in the order of the names. A mapping has each name once.
unfoldable pub insert_field : String → Value → Fields → Fields
insert_field k v end = field k v end
insert_field k v (field j w r) = elim (compare k j) [
  | Ordering.lt ↦ field k v (field j w r)
  | Ordering.eq ↦ field k v r
  | Ordering.gt ↦ field j w (insert_field k v r)
]

abbrev pub to_items : List String → Items
to_items [] = nil
to_items (x ∷ xs) = cons (str x) (to_items xs)

-- `payload[_ENUM] = sorted(self.enum)`, where there is one
abbrev with_enum : List String → Fields → Fields
with_enum [] rest = rest
with_enum (x ∷ xs) rest = field "enum" (arr (to_items (sort_unique (x ∷ xs)))) rest

-- `BodySchema.to_payload`
unfoldable mutual
  unfolding insert_field

  pub to_payload : BodySchema → Value
  to_payload (schema type properties required enum items) = obj (
      field "type" (str type) (
        field "properties" (obj (properties_payload properties)) (
          field "required" (arr (to_items (sort_unique required)))
            (with_enum enum (items_payload items)))))

  pub properties_payload : Properties → Fields
  properties_payload no_property = end
  properties_payload (property name child rest) =
      insert_field name (to_payload child) (properties_payload rest)

  pub items_payload : ItemsSchema → Fields
  items_payload no_items = end
  items_payload (items_of items) = field "items" (to_payload items) end

-- `serialize_body` of a payload
unfoldable pub serialize_body : Value → Value
serialize_body payload = to_payload (parse_body payload)

-- `producer.properties.get(name)`
unfoldable pub find_property : String → Properties → Option BodySchema
find_property name no_property = none
find_property name (property j child rest) =
    if j == name then some child else find_property name rest

abbrev pub type_of : BodySchema → String
type_of (schema type _ _ _ _) = type

abbrev pub properties_of : BodySchema → Properties
properties_of (schema _ properties _ _ _) = properties

abbrev pub required_of : BodySchema → List String
required_of (schema _ _ required _ _) = required

abbrev pub enum_of : BodySchema → List String
enum_of (schema _ _ _ enum _) = enum

-- `producer.items or BodySchema()`
abbrev pub items_or_empty : BodySchema → BodySchema
items_or_empty (schema _ _ _ _ no_items) = empty_schema
items_or_empty (schema _ _ _ _ (items_of items)) = items

abbrev pub has_properties : Properties → Bool
has_properties no_property = false
has_properties (property _ _ _) = true

-- `_types_compatible`
unfoldable pub types_compatible : String → String → Bool
types_compatible producer consumer =
    if producer == "" || consumer == "" then true else producer == consumer

-- `consumer.enum <= producer.enum`
abbrev pub is_subset : List String → List String → Bool
is_subset [] ys = true
is_subset (x ∷ xs) ys = contains ys x && is_subset xs ys

-- `_enum_narrowed`
unfoldable pub enum_narrowed : List String → List String → Bool
enum_narrowed producer consumer =
    if is_empty consumer || is_empty producer then false else not (is_subset consumer producer)

-- The body of the loop of `_diff`: one property of the consumer, given what the producer has under its
-- name, and the breaks of a node that both have.
unfoldable pub property_breaks :
    List String
    → List String
    → String
    → String
    → Option BodySchema
    → (BodySchema → List String)
    → List String
property_breaks producer_required required name path none node_breaks = path ∷ []
property_breaks producer_required required name path (some found) node_breaks =
    if contains required name && not (contains producer_required name)
    then path ∷ []
    else node_breaks found

-- `_diff`, `_diff_node` and `_diff_items`: the paths that break, over the properties of the consumer.
unfoldable mutual
  unfolding property_breaks

  pub diff_properties : BodySchema → Properties → List String → String → List String
  diff_properties producer no_property required prefix = []
  diff_properties producer (property name child rest) required prefix =
      let path = str_append prefix name in
      property_breaks (required_of producer) required name path
        (find_property name (properties_of producer)) (λ found. diff_node found child path)
      ++ diff_properties producer rest required prefix

  pub diff_node : BodySchema → BodySchema → String → List String
  diff_node producer (schema type properties required enum items) path =
      if not (types_compatible (type_of producer) type)
      then path ∷ []
      else if enum_narrowed (enum_of producer) enum
      then path ∷ []
      else if type == "object" || has_properties properties
      then diff_properties producer properties required (str_append path ".")
      else if type == "array"
      then diff_items producer items path
      else []

  pub diff_items : BodySchema → ItemsSchema → String → List String
  diff_items producer no_items path = []
  diff_items producer (items_of (schema type properties required enum items)) path =
      if not (types_compatible (type_of (items_or_empty producer)) type)
      then str_append path "[]" ∷ []
      else if enum_narrowed (enum_of (items_or_empty producer)) enum
      then str_append path "[]" ∷ []
      else if type == "object" || has_properties properties
      then diff_properties (items_or_empty producer) properties required (str_append path "[].")
      else []

-- `_diff` at the root
unfoldable pub diff : BodySchema → BodySchema → List String
unfolding diff_properties
diff producer (schema type properties required enum items) =
    diff_properties producer properties required ""

-- `breaking_body_descriptors`
unfoldable pub breaking_body_descriptors : Value → Value → List String
unfolding diff
breaking_body_descriptors producer_body consumer_body =
    sort_unique (diff (parse_body producer_body) (parse_body consumer_body))
