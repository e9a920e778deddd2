-- ===== src/Graph/GraphqlBreaking/Descriptors.antt =====
-- `breaking_field_descriptors` against what a consumer's query needs of the producer.
use beadloom.Base.{
  String, true, false, Option, none, some, List, [], ◌∷◌, ◌++◌, map, string_equality, ◌≡◌, ◌↔◌,
  refl, arith, contains, lookup, lookup-append, lookup-eq-none_of_not-contains, HasUniqueKeys, keys,
  eq_iff, beq_refl, sort_unique-eq-nil,
}
use beadloom.Json.{Fields}
use beadloom.Graph.GraphqlBreaking.{
  parse_wrapped, return_type_broken, type_of, args_of, arg_broken, broken_args_in, broken_args,
  arg_descriptor, reference_breaks, collect_breaks, breaking_field_descriptors,
}
use beadloom.Graph.GraphqlBreaking.Values.{Result, null, fits, satisfies_iff, non_null_iff}

-- Each value of the first type is a value of the second.
abbrev pub Within : String → String → Type 0
Within s t = (v : Result) → fits (parse_wrapped s) v ≡ true → fits (parse_wrapped t) v ≡ true

-- An argument that the consumer leaves out may be null; one that it supplies has values of the
-- producer's type only.
abbrev pub Accepts : String → Option String → Type 0
Accepts producer_type none = fits (parse_wrapped producer_type) null ≡ true
Accepts producer_type (some consumer_type) = Within consumer_type producer_type

abbrev ArgsAccepted : List (String × String) → List (String × String) → Type 0
ArgsAccepted consumer_args [] = Unit
ArgsAccepted consumer_args ((arg, t) ∷ rest) =
    Accepts t (lookup arg consumer_args) × ArgsAccepted consumer_args rest

-- The producer's field answers the consumer's reference: its results are such as the consumer expects,
-- and its arguments are satisfied.
abbrev pub Serves : Fields → Fields → Type 0
Serves producer consumer =
    Within (type_of producer) (type_of consumer)
    × ArgsAccepted (args_of consumer) (args_of producer)

abbrev Served : Fields → Option Fields → Type 0
Served consumer none = ⊥
Served consumer (some producer) = Serves producer consumer

abbrev pub AllServed : List (String × Fields) → List (String × Fields) → Type 0
AllServed exposed [] = Unit
AllServed exposed ((name, consumer) ∷ rest) =
    Served consumer (lookup name exposed) × AllServed exposed rest

arg_broken_iff :
    (t : String) (supplied : Option String) → (arg_broken t supplied ≡ false) ↔ Accepts t supplied
unfolding arg_broken
arg_broken_iff t none = non_null_iff (parse_wrapped t)
arg_broken_iff t (some s) =
    let spec = satisfies_iff (parse_wrapped s) (parse_wrapped t) in
    (λ h. spec.0 (ground arith), λ h. rw (spec.1 h))

broken_args_in_iff :
    (supplied args : List (String × String))
    → (broken_args_in supplied args ≡ []) ↔ ArgsAccepted supplied args
unfolding broken_args_in
broken_args_in_iff supplied [] = (λ _. tt, λ _. refl)
broken_args_in_iff supplied ((arg, t) ∷ rest) =
    let here = arg_broken_iff t (lookup arg supplied) in
    let there = broken_args_in_iff supplied rest in
    (λ h. (here.0 (ground arith), there.0 (ground arith)), λ (a, r). rw (here.1 a, there.1 r))

map-eq-nil {ℓ κ} : {A : Type ℓ} {B : Type κ} (f : A → B) (xs : List A) → (map f xs ≡ []) ↔ (xs ≡ [])
map-eq-nil f [] = (λ _. refl, λ _. refl)
map-eq-nil f (x ∷ xs) = ground arith

reference_breaks_iff :
    (name : String) (consumer : Fields) (found : Option Fields)
    → (reference_breaks name consumer found ≡ []) ↔ Served consumer found
unfolding reference_breaks return_type_broken broken_args
reference_breaks_iff name consumer none = ground arith
reference_breaks_iff name consumer (some producer) =
    let result =
      satisfies_iff (parse_wrapped (type_of producer)) (parse_wrapped (type_of consumer)) in
    let args = broken_args_in_iff (args_of consumer) (args_of producer) in
    let named = map-eq-nil (arg_descriptor name) (broken_args producer consumer) in
    (λ h. (result.0 (ground arith), args.0 (ground arith)), λ (r, a). rw (result.1 r, args.1 a))

append-eq-nil {ℓ} : {A : Type ℓ} (xs ys : List A) → (xs ++ ys ≡ []) ↔ ((xs ≡ []) × (ys ≡ []))
append-eq-nil [] ys = (λ h. (refl, h), λ h. h.1)
append-eq-nil (x ∷ xs) ys = ground arith

collect_breaks_iff :
    (exposed referenced : List (String × Fields))
    → (collect_breaks exposed referenced ≡ []) ↔ AllServed exposed referenced
unfolding collect_breaks
collect_breaks_iff exposed [] = (λ _. tt, λ _. refl)
collect_breaks_iff exposed ((name, consumer) ∷ rest) =
    let here = reference_breaks_iff name consumer (lookup name exposed) in
    let there = collect_breaks_iff exposed rest in
    let both =
      append-eq-nil (reference_breaks name consumer (lookup name exposed))
        (collect_breaks exposed rest) in
    (λ h. (here.0 (both.0 h).0, there.0 (both.0 h).1), λ (a, r). both.1 (here.1 a, there.1 r))

-- No break is reported exactly when each referenced field is exposed, every value of its type is a value
-- of the type that the consumer expects, and each of its arguments is nullable where the consumer leaves
-- it out and admits every value of the consumer's type where the consumer supplies it.
pub breaking_field_descriptors-eq-nil :
    (exposed referenced : List (String × Fields))
    → (breaking_field_descriptors exposed referenced ≡ []) ↔ AllServed exposed referenced
unfolding breaking_field_descriptors
breaking_field_descriptors-eq-nil exposed referenced =
    let sorted = sort_unique-eq-nil (collect_breaks exposed referenced) in
    let plain = collect_breaks_iff exposed referenced in
    (λ h. plain.0 (sorted.0 h), λ h. sorted.1 (plain.1 h))

-- No reference names a field of `extra`.
abbrev pub Unreferenced : List (String × Fields) → List (String × Fields) → Type 0
Unreferenced extra [] = Unit
Unreferenced extra ((name, consumer) ∷ rest) =
    (contains (keys extra) name ≡ false) × Unreferenced extra rest

lookup-append_of_unreferenced :
    (name : String) (exposed extra : List (String × Fields))
    → contains (keys extra) name ≡ false
    → lookup name (exposed ++ extra) ≡ lookup name exposed
lookup-append_of_unreferenced name exposed extra h =
    ground (arith, lookup-append name exposed extra, lookup-eq-none_of_not-contains name extra h)

collect_breaks-append :
    (exposed extra referenced : List (String × Fields))
    → Unreferenced extra referenced
    → collect_breaks (exposed ++ extra) referenced ≡ collect_breaks exposed referenced
unfolding collect_breaks
collect_breaks-append exposed extra [] h = refl
collect_breaks-append exposed extra ((name, consumer) ∷ rest) h =
    rw (lookup-append_of_unreferenced name exposed extra h.0)
      (rw (collect_breaks-append exposed extra rest h.1))

-- A producer that exposes more fields, none of which the consumer references, has the same breaks as before.
pub breaking_field_descriptors-append :
    (exposed extra referenced : List (String × Fields))
    → Unreferenced extra referenced
    → breaking_field_descriptors (exposed ++ extra) referenced
      ≡ breaking_field_descriptors exposed referenced
unfolding breaking_field_descriptors
breaking_field_descriptors-append exposed extra referenced h =
    rw (collect_breaks-append exposed extra referenced h)

-- As a `dict` has it: no field and no argument stands twice.
abbrev pub HasUniqueArgs : List (String × Fields) → Type 0
HasUniqueArgs [] = Unit
HasUniqueArgs ((name, typed) ∷ rest) = HasUniqueKeys (args_of typed) × HasUniqueArgs rest

-- What `d` answers for its own items, and for what stands before them in a `dict`.
abbrev Extends {ℓ} : {V : Type ℓ} → List (String × V) → List (String × V) → Type ℓ
Extends all [] = Unit
Extends all ((k, v) ∷ d) = (lookup k all ≡ some v) × Extends all d

Extends-cons {ℓ} :
    {V : Type ℓ} (k : String) (v : V) (all d : List (String × V))
    → contains (keys d) k ≡ false
    → Extends all d
    → Extends ((k, v) ∷ all) d
Extends-cons k v all [] h e = tt
Extends-cons k v all ((j, w) ∷ d) h e =
    (ground (arith, e.0, eq_iff k j, eq_iff j k), Extends-cons k v all d (ground arith) e.1)

Extends-refl {ℓ} : {V : Type ℓ} (d : List (String × V)) → HasUniqueKeys d → Extends d d
Extends-refl [] h = tt
Extends-refl ((k, v) ∷ d) h = (rw (beq_refl k), Extends-cons k v d d h.0 (Extends-refl d h.1))

ArgsAccepted-self : (all args : List (String × String)) → Extends all args → ArgsAccepted all args
ArgsAccepted-self all [] e = tt
ArgsAccepted-self all ((arg, t) ∷ rest) e = (rw e.0 (λ v h. h), ArgsAccepted-self all rest e.1)

AllServed-self :
    (all fields : List (String × Fields))
    → Extends all fields
    → HasUniqueArgs fields
    → AllServed all fields
AllServed-self all [] e u = tt
AllServed-self all ((name, typed) ∷ rest) e u = (
  rw e.0 (
    (λ v h. h),
    ArgsAccepted-self (args_of typed) (args_of typed) (Extends-refl (args_of typed) u.0),
  ),
  AllServed-self all rest e.1 u.1,
)

-- A surface in which no field and no argument stands twice breaks nothing of a consumer that references
-- exactly that surface.
pub breaking_field_descriptors_self :
    (fields : List (String × Fields))
    → HasUniqueKeys fields
    → HasUniqueArgs fields
    → breaking_field_descriptors fields fields ≡ []
breaking_field_descriptors_self fields h u =
    (breaking_field_descriptors-eq-nil fields fields).1
      (AllServed-self fields fields (Extends-refl fields h) u)
