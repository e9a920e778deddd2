-- ===== src/Graph/AmqpBody/Order.antt =====
-- The order in which a body declares its properties and its sets does not show in its payload.
use Prim.Native.Nat.{Ordering}
use Prim.Native.String.{compare}
use mathlib.Core.Option
use text.Mathlib.TextPositions.{compare_refl}
use beadloom.Base.{
  String, Option-cases, inl, inr, some, List, [], ◌∷◌, ◌≡◌, refl, arith, ap, sym, ◌∙◌,
  compare-lt_trans, compare-gt_iff, sort_unique-ext, contains, ◌==◌, string_equality, if◌then◌else◌,
  eq_iff, beq_refl,
}
use beadloom.Json.{Value, Fields, arr, end, field, get}
use beadloom.Graph.AmqpBody.{
  Properties, ItemsSchema, schema, no_property, property, with_enum, to_items, find_property,
  insert_field, to_payload, properties_payload, items_payload,
}

get-insert_field :
    (k j : String) (v : Value) (r : Fields)
    → get j (insert_field k v r) ≡ (if k == j then some v else get j r)
unfolding get insert_field
get-insert_field k j v end = refl
get-insert_field k j v (field i w r) =
    ground (arith, eq_iff k i, eq_iff k j, eq_iff i j, get-insert_field k j v r)

get-properties_payload :
    (name : String) (ps : Properties)
    → get name (properties_payload ps) ≡ Option.map to_payload (find_property name ps)
unfolding get to_payload find_property
get-properties_payload name no_property = refl
get-properties_payload name (property j child rest) = ground (
  arith,
  get-insert_field j name (to_payload child) (properties_payload rest),
  get-properties_payload name rest,
)

-- Each name of the fields stands above `k`.
abbrev Above : String → Fields → Type 0
Above k r = (j : String) (v : Value) → get j r ≡ some v → compare k j ≡ Ordering.lt

abbrev IsSorted : Fields → Type 0
IsSorted end = Unit
IsSorted (field k v r) = Above k r × IsSorted r

insert_field-IsSorted :
    (k : String) (v : Value) (r : Fields) → IsSorted r → IsSorted (insert_field k v r)
unfolding insert_field get
insert_field-IsSorted k v end h = ((λ j w m. ground arith), tt)
insert_field-IsSorted k v (field i w r) h = go (insert_field-IsSorted k v r h.1) (compare k i) refl
  where
    go :
        IsSorted (insert_field k v r)
        → (o : Ordering) → compare k i ≡ o
        → IsSorted (elim o [
          | Ordering.lt ↦ field k v (field i w r)
          | Ordering.eq ↦ field k v r
          | Ordering.gt ↦ field i w (insert_field k v r)
        ])
    go rest Ordering.lt e =
        ((λ j u m. ground (arith, eq_iff i j, h.0 j u, compare-lt_trans k i j)), h)
    go rest Ordering.eq e = ((λ j u m. ground (arith, eq_iff k i, h.0 j u)), h.1)
    go rest Ordering.gt e = (
      (λ j u m. ground (arith, get-insert_field k j v r, eq_iff k j, h.0 j u, compare-gt_iff k i)),
      rest,
    )

properties_payload-IsSorted : (ps : Properties) → IsSorted (properties_payload ps)
unfolding to_payload
properties_payload-IsSorted no_property = tt
properties_payload-IsSorted (property name child rest) =
    insert_field-IsSorted name (to_payload child) (properties_payload rest)
      (properties_payload-IsSorted rest)

tail_eq :
    (a i j : String) (v w : Value) (r s : Fields)
    → IsSorted (field i v r)
    → IsSorted (field j w s)
    → i ≡ j
    → get a (field i v r) ≡ get a (field j w s)
    → get a r ≡ get a s
unfolding get
tail_eq a i j v w r s h k e same = elim (Option-cases (get a r)) [
  | inr (u, found) ↦ ground (arith, h.0 a u found, eq_iff i a, eq_iff j a, compare_refl a)
  | inl missing ↦ elim (Option-cases (get a s)) [
    | inr (u, found) ↦ ground (arith, k.0 a u found, eq_iff i a, eq_iff j a, compare_refl a)
    | inl missing' ↦ cc
  ]
]

IsSorted-ext : (r s : Fields) → IsSorted r → IsSorted s → ((j : String) → get j r ≡ get j s) → r ≡ s
unfolding get
IsSorted-ext end end h k same = refl
IsSorted-ext end (field i w s) h k same = ground (arith, same i, beq_refl i)
IsSorted-ext (field i w r) end h k same = ground (arith, same i, beq_refl i)
IsSorted-ext (field i v r) (field j w s) h k same =
    let names : i ≡ j = ground (
      arith,
      same i,
      same j,
      beq_refl i,
      beq_refl j,
      eq_iff i j,
      eq_iff j i,
      h.0 j w,
      k.0 i v,
      compare-gt_iff i j,
    ) in
    let values : v ≡ w = ground (arith, names, same i, beq_refl i, eq_iff j i) in
    let tails : r ≡ s = IsSorted-ext r s h.1 k.1 (λ a. tail_eq a i j v w r s h k names (same a)) in
    λ n. field (names n) (values n) (tails n)

-- What `to_payload` shows of an enum depends on its members only.
with_enum-ext :
    (xs ys : List String) (r : Fields)
    → ((a : String) → contains xs a ≡ contains ys a)
    → with_enum xs r ≡ with_enum ys r
with_enum-ext [] [] r same = refl
with_enum-ext [] (y ∷ ys) r same = ground (arith, same y, beq_refl y)
with_enum-ext (x ∷ xs) [] r same = ground (arith, same x, beq_refl x)
with_enum-ext (x ∷ xs) (y ∷ ys) r same =
    ap (λ l. field "enum" (arr (to_items l)) r) (sort_unique-ext (x ∷ xs) (y ∷ ys) same)

-- Two bodies have one payload if they have the same type, if under each name they have properties of one
-- payload or no property, if the same names are required, if they have the same enum values, and if
-- their items have one payload: the order of declaration and repetitions do not matter.
pub to_payload-ext :
    (type : String) (ps qs : Properties) (required required' enum enum' : List String)
    (items items' : ItemsSchema)
    → ((name : String)
        → Option.map to_payload (find_property name ps)
          ≡ Option.map to_payload (find_property name qs))
    → ((a : String) → contains required a ≡ contains required' a)
    → ((a : String) → contains enum a ≡ contains enum' a)
    → items_payload items ≡ items_payload items'
    → to_payload (schema type ps required enum items)
      ≡ to_payload (schema type qs required' enum' items')
unfolding to_payload
to_payload-ext type ps qs required required' enum enum' items items' props reqs enums same = rw (
  IsSorted-ext (properties_payload ps) (properties_payload qs) (properties_payload-IsSorted ps)
      (properties_payload-IsSorted qs)
      (λ name. get-properties_payload name ps ∙ props name ∙ sym (get-properties_payload name qs)),
  sort_unique-ext required required' reqs,
  same,
  with_enum-ext enum enum' (items_payload items') enums,
)
