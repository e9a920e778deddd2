-- ===== src/Graph/AmqpBody/Inner.antt =====
-- What the body diff leaves out: the items of arrays that are themselves the items of an array.
use native.Mathlib.Omega.{arith}
use Prim.Native.String.{◌++◌ as str_append}
use beadloom.Base.{String, Option, none, some, List, ◌≡◌, refl, string_equality}
use beadloom.Graph.AmqpBody.{
  BodySchema, Properties, ItemsSchema, schema, no_property, property, no_items, items_of,
  find_property, type_of, enum_of, properties_of, required_of, items_or_empty, has_properties,
  property_breaks, diff_properties, diff_node, diff_items, diff,
}

-- The body without the items of items, at every depth.
unfoldable mutual
  pub shallow : BodySchema → BodySchema
  shallow (schema type properties required enum items) =
      schema type (shallow_properties properties) required enum (shallow_items items)

  pub shallow_properties : Properties → Properties
  shallow_properties no_property = no_property
  shallow_properties (property name child rest) =
      property name (shallow child) (shallow_properties rest)

  pub shallow_items : ItemsSchema → ItemsSchema
  shallow_items no_items = no_items
  shallow_items (items_of (schema type properties required enum items)) =
      items_of (schema type (shallow_properties properties) required enum no_items)

abbrev shallow_found : Option BodySchema → Option BodySchema
shallow_found none = none
shallow_found (some found) = some (shallow found)

find_property-shallow :
    (name : String) (ps : Properties)
    → find_property name (shallow_properties ps) ≡ shallow_found (find_property name ps)
unfolding find_property shallow
find_property-shallow name no_property = refl
find_property-shallow name (property j child rest) = ground (arith, find_property-shallow name rest)

has_properties-shallow :
    (ps : Properties) → has_properties (shallow_properties ps) ≡ has_properties ps
unfolding shallow
has_properties-shallow no_property = refl
has_properties-shallow (property name child rest) = refl

-- The second schema is the first without the items of its items, its own items left open.
abbrev IsShallow : BodySchema → BodySchema → Type 0
IsShallow p q =
    (type_of q ≡ type_of p)
    × (enum_of q ≡ enum_of p)
    × (required_of q ≡ required_of p)
    × (properties_of q ≡ shallow_properties (properties_of p))

IsShallow-shallow : (p : BodySchema) → IsShallow p (shallow p)
unfolding shallow
IsShallow-shallow (schema type properties required enum items) = (refl, refl, refl, refl)

IsShallow-items : (p : BodySchema) → IsShallow (items_or_empty p) (items_or_empty (shallow p))
unfolding shallow
IsShallow-items (schema type properties required enum no_items) = (refl, refl, refl, refl)
IsShallow-items (schema type properties required enum (items_of (schema t qs r e inner))) =
    (refl, refl, refl, refl)

property_breaks-shallow :
    (producer_required required : List String) (name path : String) (o : Option BodySchema)
    (f g : BodySchema → List String)
    → ((found : BodySchema) → f (shallow found) ≡ g found)
    → property_breaks producer_required required name path (shallow_found o) f
      ≡ property_breaks producer_required required name path o g
unfolding property_breaks
property_breaks-shallow producer_required required name path none f g h = refl
property_breaks-shallow producer_required required name path (some found) f g h = rw (h found) refl

mutual
  unfolding diff_properties shallow

  diff_properties-shallow :
      (p q : BodySchema) (ps : Properties) (required : List String) (prefix : String)
      → IsShallow p q
      → diff_properties q (shallow_properties ps) required prefix
        ≡ diff_properties p ps required prefix
  diff_properties-shallow p q no_property required prefix s = refl
  diff_properties-shallow p q (property name child rest) required prefix s =
      let path = str_append prefix name in
      rw (s.2, s.3)
        (rw (find_property-shallow name (properties_of p)) (
          rw
            (property_breaks-shallow (required_of p) required name path
              (find_property name (properties_of p)) (λ found. diff_node found (shallow child) path)
              (λ found. diff_node found child path) (λ found. diff_node-shallow found child path))
            (rw (diff_properties-shallow p q rest required prefix s) refl)))

  diff_node-shallow :
      (p c : BodySchema) (path : String)
      → diff_node (shallow p) (shallow c) path ≡ diff_node p c path
  diff_node-shallow p (schema type ps required enum items) path =
      let s = IsShallow-shallow p in
      rw (s.0, s.1, has_properties-shallow ps)
        (rw (diff_properties-shallow p (shallow p) ps required (str_append path ".") s)
          (rw (diff_items-shallow p items path) refl))

  diff_items-shallow :
      (p : BodySchema) (items : ItemsSchema) (path : String)
      → diff_items (shallow p) (shallow_items items) path ≡ diff_items p items path
  diff_items-shallow p no_items path = refl
  diff_items-shallow p (items_of (schema type ps required enum items)) path =
      let s = IsShallow-items p in
      rw (s.0, s.1, has_properties-shallow ps)
        (rw
          (diff_properties-shallow (items_or_empty p) (items_or_empty (shallow p)) ps required
            (str_append path "[].") s)
          refl)

-- The diff of two bodies is that of the same bodies without the items of items: whatever the producer puts
-- into, and the consumer expects of, the arrays that are themselves the items of an array, at any depth,
-- the reported paths are the same.
pub diff-shallow : (p c : BodySchema) → diff (shallow p) (shallow c) ≡ diff p c
unfolding diff shallow
diff-shallow p (schema type ps required enum items) =
    diff_properties-shallow p (shallow p) ps required "" (IsShallow-shallow p)
