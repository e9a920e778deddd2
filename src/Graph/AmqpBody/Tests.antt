-- ===== src/Graph/AmqpBody/Tests.antt =====
-- Runs of the body diff, and the theorems at them.
use beadloom.Base.{String, List, [], ◌∷◌, ◌≡◌, ◌↔◌, refl, none, arith, eq_iff}
use beadloom.Json.{Value, Fields, end, field, str, obj, arr, nil, cons}
use beadloom.Graph.AmqpBody.{
  BodySchema, Properties, ItemsSchema, schema, property, no_property, no_items, items_of,
  parse_body, serialize_body, to_payload, diff, breaking_body_descriptors,
}
use beadloom.Graph.AmqpBody.Payload.{serialize_body_idem}
use beadloom.Graph.AmqpBody.Order.{to_payload-ext}
use beadloom.Graph.AmqpBody.Unchanged
use beadloom.Graph.AmqpBody.Unchanged.{breaking_body_descriptors_self}
use beadloom.Graph.AmqpBody.Diff.{Reads, breaking_body_descriptors-eq-nil}
use beadloom.Graph.AmqpBody.Inner.{shallow, diff-shallow}

abbrev text_type : Value
text_type = obj (field "type" (str "string") end)

abbrev number_type : Value
number_type = obj (field "type" (str "number") end)

-- {"type": "object", "properties": {"id": ..., "lines": [{"sku": ...}]}, "required": ["id"]}
abbrev order_body : Value → Value
order_body sku = obj (
    field "type" (str "object") (
      field "properties"
        (obj (
          field "id" text_type (
            field "lines"
              (obj (
                field "type" (str "array")
                  (field "items" (obj (field "properties" (obj (field "sku" sku end)) end)) end)))
              end)))
        (field "required" (arr (cons (str "id") nil)) end)))

breaking_runs :
    breaking_body_descriptors (order_body number_type) (order_body text_type) ≡ "lines[].sku" ∷ []
unfolding breaking_body_descriptors beadloom.Base.sort_unique parse_body
    beadloom.Graph.AmqpBody.node beadloom.Graph.AmqpBody.find_property beadloom.Json.get
    beadloom.Json.py_str beadloom.Graph.AmqpBody.types_compatible
    beadloom.Graph.AmqpBody.enum_narrowed
breaking_runs = refl

serialize_body_idem_example :
    serialize_body (serialize_body (order_body text_type)) ≡ serialize_body (order_body text_type)
serialize_body_idem_example = serialize_body_idem (order_body text_type)

breaking_body_descriptors-eq-nil_example :
    (breaking_body_descriptors (order_body number_type) (order_body text_type) ≡ [])
    ↔ Reads (parse_body (order_body number_type)) (parse_body (order_body text_type))
breaking_body_descriptors-eq-nil_example =
    breaking_body_descriptors-eq-nil (order_body number_type) (order_body text_type)

breaking_body_descriptors_self_example :
    breaking_body_descriptors (order_body text_type) (order_body text_type) ≡ []
unfolding Unchanged.IsUnique parse_body beadloom.Graph.AmqpBody.node
    beadloom.Graph.AmqpBody.find_property
breaking_body_descriptors_self_example =
    breaking_body_descriptors_self (order_body text_type)
      ((refl, (tt, tt), (refl, (tt, ((refl, (tt, tt), tt), tt)), tt)), tt)

-- A body with one property, an array of arrays.
abbrev matrix : String → BodySchema
matrix cell =
    schema "object"
      (property "cells"
        (schema "array" no_property [] [] (
          items_of
            (schema "array" no_property [] [] (items_of (schema cell no_property [] [] no_items)))))
        no_property)
      [] [] no_items

diff-shallow_example :
    diff (shallow (matrix "number")) (shallow (matrix "string"))
    ≡ diff (matrix "number") (matrix "string")
diff-shallow_example = diff-shallow (matrix "number") (matrix "string")

abbrev leaf : BodySchema
leaf = schema "string" no_property [] [] no_items

abbrev id_only : Properties
id_only = property "id" leaf no_property

to_payload-ext_example :
    to_payload (schema "object" id_only ("id" ∷ "id" ∷ []) [] no_items)
    ≡ to_payload (schema "object" id_only ("id" ∷ []) [] no_items)
to_payload-ext_example =
    to_payload-ext "object" id_only id_only ("id" ∷ "id" ∷ []) ("id" ∷ []) [] [] no_items no_items
      (λ name. refl) (λ a. ground (arith, eq_iff "id" a)) (λ a. refl) refl
