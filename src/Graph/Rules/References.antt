-- ===== src/Graph/Rules/References.antt =====
-- The other functions of src/beadloom/graph/rules/loader.py: `validate_rules`, and the tags of
-- `load_rules_with_tags`.
use Prim.Native.String.{◌++◌ as str_append}
use native.Mathlib.Omega.{arith}
use mathlib.Core.Logic.Iff
use beadloom.Base.{
  String, Option, none, some, List, [], ◌∷◌, ◌++◌, ◌≡◌, refl, ◌↔◌, string_equality, sort_unique,
  concat_map, concat_map-eq-nil_iff, All, All-iff,
}
use beadloom.Json.{Value, Fields, end, field}
use beadloom.Graph.Rules.Types.{Rule, deny, require, forbid_edge, cardinality}
use beadloom.Graph.Rules.Database.{NodeRow, Database, get_node}
use beadloom.Graph.Rules.Result.{texts}

abbrev ref_of : Option String → List String
ref_of none = []
ref_of (some ref_id) = ref_id ∷ []

-- the names that the matchers of a rule give
unfoldable pub refs_of : {F : Type 0} → Rule F → List String
refs_of (deny r) = ref_of r.from_matcher.ref_id ++ ref_of r.to_matcher.ref_id
refs_of (require r) = ref_of r.for_matcher.ref_id ++ ref_of r.has_edge_to.ref_id
refs_of (forbid_edge r) = ref_of r.from_matcher.ref_id ++ ref_of r.to_matcher.ref_id
refs_of (cardinality r) = ref_of r.for_matcher.ref_id
refs_of _ = []

abbrev warning_unless : String → Option NodeRow → List String
warning_unless ref_id (some row) = []
warning_unless ref_id none =
    str_append "Rule references unknown ref_id '" (str_append ref_id "' (not found in nodes table)")
    ∷ []

-- `validate_rules`
unfoldable pub validate_rules : {F : Type 0} → Database → List (Rule F) → List String
unfolding refs_of sort_unique get_node
validate_rules db rules =
    concat_map (λ ref_id. warning_unless ref_id (get_node db ref_id))
      (sort_unique (concat_map refs_of rules))

-- the loop over `tags_block`
unfoldable pub tag_assignments : Fields → List (String × List String)
unfolding texts
tag_assignments end = []
tag_assignments (field tag_name (Value.arr ref_ids) tags) =
    (tag_name, texts ref_ids) ∷ tag_assignments tags
tag_assignments (field tag_name _ tags) = tag_assignments tags

abbrev pub tags_of_block : Option Value → List (String × List String)
tags_of_block (some (Value.obj tags)) = tag_assignments tags
tags_of_block _ = []

-- The matchers name a node of the tables.
abbrev pub IsKnown : Database → String → Type 0
IsKnown db ref_id = (row : NodeRow) × (get_node db ref_id ≡ some row)

warning_unless-eq-nil_iff :
    (ref_id : String) (row : Option NodeRow)
    → (warning_unless ref_id row ≡ []) ↔ ((node : NodeRow) × (row ≡ some node))
warning_unless-eq-nil_iff ref_id none =
    (λ e. absurd (ground (arith, e)), λ h. absurd (ground (arith, h.1)))
warning_unless-eq-nil_iff ref_id (some row) = (λ _. (row, refl), λ _. refl)

-- There is no warning exactly when every name that the matchers give is known.
pub validate_rules-eq-nil_iff :
    {F : Type 0} (db : Database) (rules : List (Rule F))
    → (validate_rules db rules ≡ []) ↔ All (IsKnown db) (sort_unique (concat_map refs_of rules))
unfolding validate_rules
validate_rules-eq-nil_iff db rules =
    Iff.trans (concat_map-eq-nil_iff _ (sort_unique (concat_map refs_of rules))) (
      All-iff (λ ref_id. warning_unless-eq-nil_iff ref_id (get_node db ref_id))
        (sort_unique (concat_map refs_of rules)))
