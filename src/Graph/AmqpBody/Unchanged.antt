-- ===== src/Graph/AmqpBody/Unchanged.antt =====
-- The body diff of a body against itself.
use beadloom.Base.{
  String, true, none, some, List, [], ◌∷◌, ◌≡◌, refl, arith, string_equality, eq_iff, beq_refl,
}
use beadloom.Json.{Value}
use beadloom.Graph.AmqpBody.{
  BodySchema, Properties, ItemsSchema, schema, no_property, property, no_items, items_of,
  parse_body, find_property, properties_of, required_of, is_subset, breaking_body_descriptors,
}
use beadloom.Graph.AmqpBody.Diff.{
  ReadsProperties, ReadsNode, ReadsItems, Reads, breaking_body_descriptors-eq-nil,
}

-- Names stand once among the properties, at every depth.
unfoldable mutual
  pub IsUnique : BodySchema → Type 0
  IsUnique (schema _ ps _ _ items) = UniqueProperties ps × UniqueItems items

  pub UniqueProperties : Properties → Type 0
  UniqueProperties no_property = Unit
  UniqueProperties (property name child rest) =
      (find_property name rest ≡ none) × IsUnique child × UniqueProperties rest

  pub UniqueItems : ItemsSchema → Type 0
  UniqueItems no_items = Unit
  UniqueItems (items_of items) = IsUnique items

-- Each property of the second list is found in the first.
abbrev Found : Properties → Properties → Type 0
Found all no_property = Unit
Found all (property name child rest) = (find_property name all ≡ some child) × Found all rest

Found-property :
    (name : String) (child : BodySchema) (all ps : Properties)
    → find_property name ps ≡ none
    → Found all ps
    → Found (property name child all) ps
unfolding find_property
Found-property name child all no_property h f = tt
Found-property name child all (property j c rest) h f = (
  ground (arith, f.0, eq_iff name j, eq_iff j name),
  Found-property name child all rest (ground arith) f.1,
)

Found-refl : (ps : Properties) → UniqueProperties ps → Found ps ps
unfolding find_property IsUnique
Found-refl no_property u = tt
Found-refl (property name child rest) u =
    (rw (beq_refl name), Found-property name child rest rest u.0 (Found-refl rest u.2))

is_subset-cons :
    (x : String) (xs ys : List String) → is_subset xs ys ≡ true → is_subset xs (x ∷ ys) ≡ true
is_subset-cons x [] ys h = refl
is_subset-cons x (y ∷ xs) ys h = ground (arith, is_subset-cons x xs ys)

is_subset_refl : (xs : List String) → is_subset xs xs ≡ true
is_subset_refl [] = refl
is_subset_refl (x ∷ xs) = ground (arith, beq_refl x, is_subset-cons x xs xs (is_subset_refl xs))

mutual
  unfolding ReadsProperties IsUnique

  ReadsProperties-self :
      (all : BodySchema) (ps : Properties)
      → Found (properties_of all) ps
      → UniqueProperties ps
      → ReadsProperties all ps (required_of all)
  ReadsProperties-self all no_property f u = tt
  ReadsProperties-self all (property name child rest) f u =
      ((child, f.0, (λ r. r), ReadsNode-self child u.1), ReadsProperties-self all rest f.1 u.2)

  ReadsNode-self : (b : BodySchema) → IsUnique b → ReadsNode b b
  ReadsNode-self (schema type ps required enum items) u = (
    ((λ _ _. refl), λ _ _. is_subset_refl enum),
    (λ _. ReadsProperties-self (schema type ps required enum items) ps (Found-refl ps u.0) u.0),
    λ _ _. ReadsItems-self type ps required enum items u.1,
  )

  ReadsItems-self :
      (type : String) (ps : Properties) (required enum : List String) (items : ItemsSchema)
      → UniqueItems items
      → ReadsItems (schema type ps required enum items) items
  ReadsItems-self type ps required enum no_items u = tt
  ReadsItems-self type ps required enum (items_of (schema t qs r e inner)) u = (
    ((λ _ _. refl), λ _ _. is_subset_refl e),
    λ _. ReadsProperties-self (schema t qs r e inner) qs (Found-refl qs u.0) u.0,
  )

-- A body in which no mapping has a name twice breaks nothing of a consumer that reads exactly that body.
pub breaking_body_descriptors_self :
    (body : Value) → IsUnique (parse_body body) → breaking_body_descriptors body body ≡ []
unfolding IsUnique
breaking_body_descriptors_self body u =
    (breaking_body_descriptors-eq-nil body body).1 (Reads_self (parse_body body) u)
  where
    Reads_self : (b : BodySchema) → IsUnique b → Reads b b
    Reads_self (schema type ps required enum items) v =
        ReadsProperties-self (schema type ps required enum items) ps (Found-refl ps v.0) v.0
