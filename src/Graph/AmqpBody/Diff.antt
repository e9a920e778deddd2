-- ===== src/Graph/AmqpBody/Diff.antt =====
-- The body diff against what a consumer needs of the producer's body.
use Prim.Native.String.{◌++◌ as str_append}
use beadloom.Base.{
  String, true, false, not, ◌||◌, Option, none, some, List, [], ◌∷◌, ◌++◌, ◌≡◌, ◌↔◌, refl, arith,
  Bool-cases, inl, inr, if◌then◌else◌, ◌==◌, string_equality, contains, is_empty, eq_iff,
  sort_unique-eq-nil,
}
use beadloom.Json.{Value}
use beadloom.Graph.AmqpBody.{
  BodySchema, Properties, ItemsSchema, schema, no_property, property, no_items, items_of,
  parse_body, find_property, type_of, properties_of, required_of, enum_of, items_or_empty,
  has_properties, types_compatible, is_subset, enum_narrowed, property_breaks, diff_properties,
  diff_node, diff_items, diff, breaking_body_descriptors,
}

-- The producer's node has a type and enum values that the consumer can read: types that are both known
-- are equal, and of enums that are both declared the producer keeps all that the consumer relies on.
abbrev pub NodeFits : BodySchema → String → List String → Type 0
NodeFits producer type enum =
    ((type_of producer == "") ≡ false → (type == "") ≡ false → type_of producer ≡ type)
    × (is_empty enum ≡ false
        → is_empty (enum_of producer) ≡ false
        → is_subset enum (enum_of producer) ≡ true)

-- The consumer requires the property only where the producer does.
abbrev pub RequiredToo : BodySchema → List String → String → Type 0
RequiredToo producer required name =
    contains required name ≡ true → contains (required_of producer) name ≡ true

abbrev pub IsObject : String → Properties → Type 0
IsObject type properties = (type == "object" || has_properties properties) ≡ true

-- The producer's body answers what the consumer reads. Of items that are themselves an array, nothing is asked
-- of their own items.
unfoldable mutual
  pub ReadsProperties : BodySchema → Properties → List String → Type 0
  ReadsProperties producer no_property required = Unit
  ReadsProperties producer (property name child rest) required =
      ((found : BodySchema) × (find_property name (properties_of producer) ≡ some found)
        × RequiredToo producer required name
        × ReadsNode found child)
      × ReadsProperties producer rest required

  pub ReadsNode : BodySchema → BodySchema → Type 0
  ReadsNode producer (schema type properties required enum items) =
      NodeFits producer type enum
      × (IsObject type properties → ReadsProperties producer properties required)
      × (type ≡ "array" → has_properties properties ≡ false → ReadsItems producer items)

  pub ReadsItems : BodySchema → ItemsSchema → Type 0
  ReadsItems producer no_items = Unit
  ReadsItems producer (items_of (schema type properties required enum items)) =
      NodeFits (items_or_empty producer) type enum
      × (IsObject type properties → ReadsProperties (items_or_empty producer) properties required)

types_compatible_iff :
    (p c : String) → (types_compatible p c ≡ true) ↔ ((p == "") ≡ false → (c == "") ≡ false → p ≡ c)
unfolding types_compatible
types_compatible_iff p c = (
  λ h a b. ground (arith, eq_iff p c),
  λ h. elim (Bool-cases (p == "")) [
    | inl e ↦ rw e
    | inr e ↦ elim (Bool-cases (c == "")) [
      | inl f ↦ rw (e, f)
      | inr f ↦ rw (e, f) ((eq_iff p c).1 (h e f))
    ]
  ],
)

enum_narrowed_iff :
    (p c : List String)
    → (enum_narrowed p c ≡ false) ↔ (is_empty c ≡ false → is_empty p ≡ false → is_subset c p ≡ true)
unfolding enum_narrowed
enum_narrowed_iff p c = (
  λ h a b. ground arith,
  λ h. elim (Bool-cases (is_empty c)) [
    | inl e ↦ rw e
    | inr e ↦ elim (Bool-cases (is_empty p)) [ inl f ↦ rw (e, f) | inr f ↦ rw (e, f, h e f) ]
  ],
)

-- What the two tests on a node leave of its breaks.
abbrev guarded : BodySchema → String → List String → String → List String → List String
guarded producer type enum path inner =
    if not (types_compatible (type_of producer) type)
    then path ∷ []
    else if enum_narrowed (enum_of producer) enum
    then path ∷ []
    else inner

guarded_iff :
    (producer : BodySchema) (type : String) (enum : List String) (path : String)
    (inner : List String)
    → (guarded producer type enum path inner ≡ []) ↔ (NodeFits producer type enum × (inner ≡ []))
guarded_iff producer type enum path inner =
    let types = types_compatible_iff (type_of producer) type in
    let enums = enum_narrowed_iff (enum_of producer) enum in
    (
      λ h. ((types.0 (ground arith), enums.0 (ground arith)), ground arith),
      λ ((t, e), r). rw (types.1 t, enums.1 e) r,
    )

append-eq-nil {ℓ} : {A : Type ℓ} (xs ys : List A) → (xs ++ ys ≡ []) ↔ ((xs ≡ []) × (ys ≡ []))
append-eq-nil [] ys = (λ h. (refl, h), λ h. h.1)
append-eq-nil (x ∷ xs) ys = ground arith

property_breaks_sound :
    (producer_required required : List String) (name path : String) (o : Option BodySchema)
    (node_breaks : BodySchema → List String)
    → property_breaks producer_required required name path o node_breaks ≡ []
    → (found : BodySchema) × (o ≡ some found)
      × (contains required name ≡ true → contains producer_required name ≡ true)
      × (node_breaks found ≡ [])
unfolding property_breaks
property_breaks_sound producer_required required name path none node_breaks h =
    absurd (ground arith)
property_breaks_sound producer_required required name path (some found) node_breaks h =
    (found, refl, (λ r. ground arith), ground arith)

property_breaks_complete :
    (producer_required required : List String) (name path : String) (found : BodySchema)
    (node_breaks : BodySchema → List String)
    → (contains required name ≡ true → contains producer_required name ≡ true)
    → node_breaks found ≡ []
    → property_breaks producer_required required name path (some found) node_breaks ≡ []
unfolding property_breaks
property_breaks_complete producer_required required name path found node_breaks req inner =
    elim (Bool-cases (contains required name)) [ inl r ↦ rw (r, req r) inner | inr r ↦ rw r inner ]

mutual
  unfolding diff_properties ReadsProperties

  diff_properties_sound :
      (producer : BodySchema) (ps : Properties) (required : List String) (prefix : String)
      → diff_properties producer ps required prefix ≡ []
      → ReadsProperties producer ps required
  diff_properties_sound producer no_property required prefix h = tt
  diff_properties_sound producer (property name child rest) required prefix h =
      let path = str_append prefix name in
      let both =
        (append-eq-nil
            (property_breaks (required_of producer) required name path
              (find_property name (properties_of producer)) (λ found. diff_node found child path))
            _).0
          h in
      let (found, e, req, inner) =
        property_breaks_sound (required_of producer) required name path
          (find_property name (properties_of producer)) (λ found. diff_node found child path)
          both.0 in
      (
        (found, e, req, diff_node_sound found child path inner),
        diff_properties_sound producer rest required prefix both.1,
      )

  diff_node_sound :
      (producer consumer : BodySchema) (path : String)
      → diff_node producer consumer path ≡ []
      → ReadsNode producer consumer
  diff_node_sound producer (schema type properties required enum items) path h =
      let (fits, inner) = (guarded_iff producer type enum path _).0 h in
      (
        fits,
        λ object.
            diff_properties_sound producer properties required (str_append path ".")
              (rw object at inner),
        λ array plain. diff_items_sound producer items path (rw (array, plain) at inner),
      )

  diff_items_sound :
      (producer : BodySchema) (xs : ItemsSchema) (path : String)
      → diff_items producer xs path ≡ []
      → ReadsItems producer xs
  diff_items_sound producer no_items path h = tt
  diff_items_sound producer (items_of (schema type properties required enum items)) path h =
      let (fits, inner) =
        (guarded_iff (items_or_empty producer) type enum (str_append path "[]") _).0 h in
      (
        fits,
        λ object.
            diff_properties_sound (items_or_empty producer) properties required
              (str_append path "[].") (rw object at inner),
      )

mutual
  unfolding diff_properties ReadsProperties

  diff_properties_complete :
      (producer : BodySchema) (ps : Properties) (required : List String) (prefix : String)
      → ReadsProperties producer ps required
      → diff_properties producer ps required prefix ≡ []
  diff_properties_complete producer no_property required prefix h = refl
  diff_properties_complete producer (property name child rest) required prefix h =
      let (found, e, req, node) = h.0 in
      let path = str_append prefix name in
      rw e (
        rw
          (property_breaks_complete (required_of producer) required name path found
            (λ found. diff_node found child path) req (diff_node_complete found child path node))
          (diff_properties_complete producer rest required prefix h.1))

  diff_node_complete :
      (producer consumer : BodySchema) (path : String)
      → ReadsNode producer consumer
      → diff_node producer consumer path ≡ []
  diff_node_complete producer (schema type properties required enum items) path
        (fits, object, array) =
      (guarded_iff producer type enum path _).1 (
        fits,
        elim (Bool-cases (type == "object" || has_properties properties)) [
          | inl o ↦ rw o (
              diff_properties_complete producer properties required (str_append path ".")
                (object o))
          | inr o ↦ elim (Bool-cases (type == "array")) [
            | inl a ↦
                rw (o, a)
                  (diff_items_complete producer items path
                    (array ((eq_iff type "array").0 a) (ground arith)))
            | inr a ↦ rw (o, a)
          ]
        ],
      )

  diff_items_complete :
      (producer : BodySchema) (xs : ItemsSchema) (path : String)
      → ReadsItems producer xs
      → diff_items producer xs path ≡ []
  diff_items_complete producer no_items path h = refl
  diff_items_complete producer (items_of (schema type properties required enum items)) path
        (fits, object) =
      (guarded_iff (items_or_empty producer) type enum (str_append path "[]") _).1 (
        fits,
        elim (Bool-cases (type == "object" || has_properties properties)) [
          | inl o ↦ rw o (
              diff_properties_complete (items_or_empty producer) properties required
                (str_append path "[].") (object o))
          | inr o ↦ rw o
        ],
      )

abbrev pub Reads : BodySchema → BodySchema → Type 0
Reads producer (schema type properties required enum items) =
    ReadsProperties producer properties required

diff_iff : (p c : BodySchema) → (diff p c ≡ []) ↔ Reads p c
unfolding diff
diff_iff p (schema type properties required enum items) = (
  diff_properties_sound p properties required "",
  diff_properties_complete p properties required "",
)

-- No path is reported exactly when, for each property that the consumer reads, the producer declares it,
-- requires it where the consumer does, and declares for it a compatible type and enum. Of a property that the
-- consumer reads as an object (by its type or because it has properties) the same is asked in turn for its
-- properties. The items of any other property that is an array have a compatible type and enum, and if they
-- are objects the same is asked in turn for their properties; nothing is asked of the items of items.
pub breaking_body_descriptors-eq-nil :
    (producer consumer : Value)
    → (breaking_body_descriptors producer consumer ≡ [])
      ↔ Reads (parse_body producer) (parse_body consumer)
unfolding breaking_body_descriptors
breaking_body_descriptors-eq-nil producer consumer =
    let paths = diff (parse_body producer) (parse_body consumer) in
    let sorted = sort_unique-eq-nil paths in
    let plain = diff_iff (parse_body producer) (parse_body consumer) in
    (λ h. plain.0 (sorted.0 h), λ h. sorted.1 (plain.1 h))
