-- ===== src/Graph/AmqpBody/Payload.antt =====
-- The canonical payload of a body: what is serialized is read back, and serialized to the same payload.
use Prim.Native.Nat.{Ordering}
use Prim.Native.String.{compare}
use beadloom.Base.{
  String, Bool, true, false, List, [], ◌∷◌, ◌≡◌, refl, arith, ap, sym, ◌∙◌, compare-gt_iff,
  sort_unique, sort_unique_idem, sort_unique-eq-nil, Bool-cases, inl, inr, ◌==◌, string_equality,
  if◌then◌else◌, eq_iff,
}
use beadloom.Json.{Value, Fields, null, bool, num, str, arr, obj, end, field, get, py_str}
use beadloom.Graph.AmqpBody.{
  BodySchema, Properties, ItemsSchema, schema, no_property, property, no_items, items_of, node,
  str_set, texts_of, to_items, with_enum, parse_body, get_properties, parse_properties,
  parse_children, parse_items, get_items, insert_field, to_payload, properties_payload,
  items_payload, serialize_body,
}

texts_of-to_items : (xs : List String) → texts_of (to_items xs) ≡ xs
unfolding py_str
texts_of-to_items [] = refl
texts_of-to_items (x ∷ xs) = ap (λ r. x ∷ r) (texts_of-to_items xs)

-- No property has the empty name, at any depth.
unfoldable mutual
  pub HasNames : BodySchema → Type 0
  HasNames (schema _ properties _ _ items) = NamedProperties properties × NamedItems items

  pub NamedProperties : Properties → Type 0
  NamedProperties no_property = Unit
  NamedProperties (property name child rest) =
      ((name == "") ≡ false) × HasNames child × NamedProperties rest

  pub NamedItems : ItemsSchema → Type 0
  NamedItems no_items = Unit
  NamedItems (items_of items) = HasNames items

-- `name` stands before the first name of the fields.
abbrev Before : String → Fields → Type 0
Before k end = Unit
Before k (field j w r) = compare k j ≡ Ordering.lt

-- Fields in the order of their names, whose values are canonical bodies.
abbrev Canonical : Fields → Type 0
Canonical end = Unit
Canonical (field k v r) =
    Before k r × ((k == "") ≡ false) × (to_payload (parse_body v) ≡ v) × Canonical r

Before-insert_field :
    (i k : String) (v : Value) (r : Fields)
    → compare i k ≡ Ordering.lt
    → Before i r
    → Before i (insert_field k v r)
unfolding insert_field
Before-insert_field i k v end h b = h
Before-insert_field i k v (field j w r) h b = go (compare k j)
  where
    go :
        (o : Ordering)
        → Before i (elim o [
          | Ordering.lt ↦ field k v (field j w r)
          | Ordering.eq ↦ field k v r
          | Ordering.gt ↦ field j w (insert_field k v r)
        ])
    go Ordering.lt = h
    go Ordering.eq = h
    go Ordering.gt = b

Before-trans : (k j : String) (r : Fields) → compare k j ≡ Ordering.eq → Before j r → Before k r
Before-trans k j end h b = tt
Before-trans k j (field i w r) h b = ground (arith, eq_iff k j)

insert_field-Canonical :
    (k : String) (v : Value) (r : Fields)
    → (k == "") ≡ false
    → to_payload (parse_body v) ≡ v
    → Canonical r
    → Canonical (insert_field k v r)
unfolding insert_field
insert_field-Canonical k v end h s c = (tt, h, s, tt)
insert_field-Canonical k v (field j w r) h s (before, named, stable, rest) =
    go (insert_field-Canonical k v r h s rest) (compare k j) refl
  where
    go :
        Canonical (insert_field k v r)
        → (o : Ordering) → compare k j ≡ o
        → Canonical (elim o [
          | Ordering.lt ↦ field k v (field j w r)
          | Ordering.eq ↦ field k v r
          | Ordering.gt ↦ field j w (insert_field k v r)
        ])
    go c Ordering.lt e = (e, h, s, (before, named, stable, rest))
    go c Ordering.eq e = (Before-trans k j r e before, h, s, rest)
    go c Ordering.gt e =
        (Before-insert_field j k v r ((compare-gt_iff k j).0 e) before, named, stable, c)

insert_field-eq-field :
    (k : String) (v : Value) (r : Fields) → Before k r → insert_field k v r ≡ field k v r
unfolding insert_field
insert_field-eq-field k v end b = refl
insert_field-eq-field k v (field j w r) b = rw (b, insert_field)

-- Canonical fields are read back and written as they were.
properties_payload-parse_children :
    (r : Fields) → Canonical r → properties_payload (parse_children r) ≡ r
unfolding to_payload parse_body
properties_payload-parse_children end c = refl
properties_payload-parse_children (field k v r) (before, named, stable, rest) =
    rw named
      (rw (stable, properties_payload-parse_children r rest) (insert_field-eq-field k v r before))

with_enum-sort : (xs : List String) (r : Fields) → with_enum (sort_unique xs) r ≡ with_enum xs r
with_enum-sort [] r = rw ((sort_unique-eq-nil []).1 refl)
with_enum-sort (x ∷ xs) r = go (sort_unique (x ∷ xs)) refl
  where
    go : (ys : List String) → sort_unique (x ∷ xs) ≡ ys → with_enum ys r ≡ with_enum (x ∷ xs) r
    go [] e = ground (arith, sort_unique-eq-nil (x ∷ xs))
    go (y ∷ ys) e =
        ap (λ l. field "enum" (arr (to_items l)) r)
          (ap sort_unique (sym e) ∙ sort_unique_idem (x ∷ xs))

get-enum :
    (xs : List String) (items : ItemsSchema)
    → str_set (get "enum" (with_enum xs (items_payload items))) ≡ sort_unique xs
unfolding str_set get to_payload
get-enum [] no_items = sym ((sort_unique-eq-nil []).1 refl)
get-enum [] (items_of b) = sym ((sort_unique-eq-nil []).1 refl)
get-enum (x ∷ xs) items = texts_of-to_items (sort_unique (x ∷ xs))

parse_items-to_payload :
    (b : BodySchema) → parse_items (to_payload b) ≡ items_of (parse_body (to_payload b))
unfolding to_payload parse_body
parse_items-to_payload (schema type properties required enum items) = refl

get_items-with_enum : (enum : List String) (r : Fields) → get_items (with_enum enum r) ≡ get_items r
unfolding parse_body
get_items-with_enum [] r = refl
get_items-with_enum (x ∷ xs) r = refl

mutual
  unfolding HasNames to_payload parse_body node str_set get

  to_payload_stable :
      (b : BodySchema) → HasNames b → to_payload (parse_body (to_payload b)) ≡ to_payload b
  to_payload_stable (schema type properties required enum items) h =
      let named =
        properties_payload-parse_children _ (properties_payload-Canonical properties h.0) in
      let inner = items_payload_stable items h.1 in
      rw (
        named,
        texts_of-to_items (sort_unique required),
        sort_unique_idem required,
        get-enum enum items,
        with_enum-sort enum,
        get_items-with_enum enum,
        inner,
      )

  properties_payload-Canonical :
      (ps : Properties) → NamedProperties ps → Canonical (properties_payload ps)
  properties_payload-Canonical no_property h = tt
  properties_payload-Canonical (property name child rest) h =
      insert_field-Canonical name (to_payload child) (properties_payload rest) h.0
        (to_payload_stable child h.1) (properties_payload-Canonical rest h.2)

  items_payload_stable :
      (xs : ItemsSchema)
      → NamedItems xs
      → items_payload (get_items (items_payload xs)) ≡ items_payload xs
  items_payload_stable no_items h = refl
  items_payload_stable (items_of b) h =
      rw (parse_items-to_payload b) (ap (λ v. field "items" v end) (to_payload_stable b h))

NamedProperties-if :
    (b : Bool) (ps qs : Properties)
    → NamedProperties ps
    → NamedProperties qs
    → NamedProperties (if b then ps else qs)
NamedProperties-if true _ _ h k = h
NamedProperties-if false _ _ h k = k

NamedItems-if :
    (b : Bool) (xs ys : ItemsSchema)
    → NamedItems xs
    → NamedItems ys
    → NamedItems (if b then xs else ys)
NamedItems-if true _ _ h k = h
NamedItems-if false _ _ h k = k

NamedProperties-skip :
    (name : String) (child : BodySchema) (rest : Properties)
    → HasNames child
    → NamedProperties rest
    → NamedProperties (if name == "" then rest else property name child rest)
unfolding HasNames
NamedProperties-skip name child rest h k = elim (Bool-cases (name == "")) [
  | inl empty ↦ rw empty k
  | inr named ↦ rw named (named, h, k)
]

mutual
  unfolding HasNames parse_body node

  parse_body-HasNames : (v : Value) → HasNames (parse_body v)
  parse_body-HasNames null = (tt, tt)
  parse_body-HasNames (bool b) = (tt, tt)
  parse_body-HasNames (num n) = (tt, tt)
  parse_body-HasNames (str s) = (tt, tt)
  parse_body-HasNames (arr xs) = (tt, tt)
  parse_body-HasNames (obj payload) = (get_properties-Named payload, get_items-Named payload)

  get_properties-Named : (r : Fields) → NamedProperties (get_properties r)
  get_properties-Named end = tt
  get_properties-Named (field k v r) =
      NamedProperties-if (k == "properties") _ _ (parse_properties-Named v) (get_properties-Named r)

  parse_properties-Named : (v : Value) → NamedProperties (parse_properties v)
  parse_properties-Named null = tt
  parse_properties-Named (bool b) = tt
  parse_properties-Named (num n) = tt
  parse_properties-Named (str s) = tt
  parse_properties-Named (arr xs) = tt
  parse_properties-Named (obj raw) = parse_children-Named raw

  parse_children-Named : (r : Fields) → NamedProperties (parse_children r)
  parse_children-Named end = tt
  parse_children-Named (field name v r) =
      NamedProperties-skip name (parse_body v) (parse_children r) (parse_body-HasNames v)
        (parse_children-Named r)

  get_items-Named : (r : Fields) → NamedItems (get_items r)
  get_items-Named end = tt
  get_items-Named (field k v r) =
      NamedItems-if (k == "items") _ _ (parse_items-Named v) (get_items-Named r)

  parse_items-Named : (v : Value) → NamedItems (parse_items v)
  parse_items-Named null = tt
  parse_items-Named (bool b) = tt
  parse_items-Named (num n) = tt
  parse_items-Named (str s) = tt
  parse_items-Named (arr xs) = tt
  parse_items-Named (obj payload) = (get_properties-Named payload, get_items-Named payload)

-- Serializing a serialized body changes nothing, whatever the first payload was.
pub serialize_body_idem : (v : Value) → serialize_body (serialize_body v) ≡ serialize_body v
unfolding serialize_body
serialize_body_idem v = to_payload_stable (parse_body v) (parse_body-HasNames v)
