-- ===== src/Graph/Rules/Loader/Accepted.antt =====
-- What a file of rules that is loaded satisfies.
use native.Mathlib.Omega.{arith}
use beadloom.Base.{
  ℕ, ◌+◌, String, false, Option, none, some, List, [], ◌∷◌, string_equality, nat_equality, contains,
  length, ◌≡◌, refl, sym, ap, ◌∙◌, subst, All, IsDuplicateFree, eq_iff,
}
use beadloom.Json.{Value, Fields, Items, nil, cons, get}
use beadloom.Graph.Rules.Types.{
  Rule, deny, require, cycle, import_boundary, forbid_edge, layer, cardinality, feature_candidate,
  module_coverage,
}
use beadloom.Graph.Rules.Result.{
  Result, ok, ◌>>◌, Ensures, bind_lem, then_lem, after_lem, either_lem, weaken_lem, returned_lem,
  mapping_or, list_or,
}
use beadloom.Graph.Rules.Blocks.{Numbers}
use beadloom.Graph.Rules.Limits.{count_items}
use beadloom.Graph.Rules.Loader.{
  has_key, severity_of, or_empty, within, parse_block, parse_named, name_of_entry, parse_rules,
  load_rules,
}
use beadloom.Graph.Rules.Loader.Valid.{
  IsSeverity, IsTagged, IsDenyOf, IsRequireOf, IsForbidOf, IsBoundaryOf, IsDeny, IsRequire,
  IsForbid, IsBoundary, parse_deny_rule-IsDeny, parse_require_rule-IsRequire,
  parse_forbid_rule-IsForbid, parse_forbid_import_rule-IsBoundary,
}
use beadloom.Graph.Rules.Loader.Limited.{
  IsLayeredOf, IsCyclicOf, IsLimitedOf, IsCandidateRuleOf, IsCoverageOf,
  parse_coverage_rule-IsCoverageOf, IsLayered, IsCyclic, IsLimited, IsCandidateRule,
  parse_layer_rule-IsLayered, parse_cycle_rule-IsCyclic, parse_check_rule-IsLimited,
  parse_candidate_rule-IsCandidateRule,
}

abbrev items_of : Option Value → Items
items_of (some (Value.arr items)) = items
items_of _ = nil

abbrev pub rule_name : {F : Type 0} → Rule F → String
rule_name (deny r) = r.name
rule_name (require r) = r.name
rule_name (cycle r) = r.name
rule_name (import_boundary r) = r.name
rule_name (forbid_edge r) = r.name
rule_name (layer r) = r.name
rule_name (cardinality r) = r.name
rule_name (feature_candidate r) = r.name
rule_name (module_coverage r) = r.name

abbrev pub rule_severity : {F : Type 0} → Rule F → String
rule_severity (deny r) = r.severity
rule_severity (require r) = r.severity
rule_severity (cycle r) = r.severity
rule_severity (import_boundary r) = r.severity
rule_severity (forbid_edge r) = r.severity
rule_severity (layer r) = r.severity
rule_severity (cardinality r) = r.severity
rule_severity (feature_candidate r) = r.severity
rule_severity (module_coverage r) = r.severity

abbrev IsNew : List String → String → Type 0
IsNew seen name = contains seen name ≡ false

name_of_entry-IsNew :
    (idx : ℕ) (seen : List String) (block : Fields)
    → Ensures (IsNew seen) (name_of_entry idx seen block)
unfolding name_of_entry
name_of_entry-IsNew idx seen block =
    after_lem (IsNew seen) _ _ (λ name. then_lem (IsNew seen) _ _ _ (λ new. ground (arith, new)))

-- Names that are not the given one do not hold it.
contains_of-IsNew :
    (name : String) (seen names : List String)
    → All (IsNew (name ∷ seen)) names
    → (contains names name ≡ false) × All (IsNew seen) names
contains_of-IsNew name seen [] h = (refl, tt)
contains_of-IsNew name seen (other ∷ names) h =
    let rest = contains_of-IsNew name seen names h.1 in
    (
      ground (arith, h.0, rest.0, eq_iff name other, eq_iff other name),
      (ground (arith, h.0), rest.1),
    )

mapping_or-obj :
    (message : String) (v : Value) → Ensures (λ f. v ≡ Value.obj f) (mapping_or message (some v))
mapping_or-obj message Value.null = tt
mapping_or-obj message (Value.bool _) = tt
mapping_or-obj message (Value.num _) = tt
mapping_or-obj message (Value.str _) = tt
mapping_or-obj message (Value.arr _) = tt
mapping_or-obj message (Value.obj f) = refl

list_or-items :
    (message : String) (v : Option Value)
    → Ensures (λ items. items ≡ items_of v) (list_or message v)
list_or-items message none = tt
list_or-items message (some Value.null) = tt
list_or-items message (some (Value.bool _)) = tt
list_or-items message (some (Value.num _)) = tt
list_or-items message (some (Value.str _)) = tt
list_or-items message (some (Value.obj _)) = tt
list_or-items message (some (Value.arr items)) = refl

module _ {F : Type 0} (numbers : Numbers F) where
  -- What the parser of the rule has checked.
  abbrev pub IsChecked : Rule F → Type 0
  IsChecked (deny r) = IsDeny r
  IsChecked (require r) = IsRequire r
  IsChecked (cycle r) = IsCyclic numbers r
  IsChecked (import_boundary r) = IsBoundary r
  IsChecked (forbid_edge r) = IsForbid r
  IsChecked (layer r) = IsLayered r
  IsChecked (cardinality r) = IsLimited numbers r
  IsChecked (feature_candidate r) = IsCandidateRule numbers r
  IsChecked (module_coverage r) = Unit

  -- A rule that is checked and has the name and the severity of its entry.
  abbrev IsCheckedOf : String → String → Rule F → Type 0
  IsCheckedOf name severity rule =
      IsChecked rule × IsTagged name severity (rule_name rule) (rule_severity rule)

  within-IsCheckedOf :
      {A : Type 0} (P : A → Type 0) (key name severity : String) (block : Fields)
      (parse : Fields → Result A) (make : A → Rule F)
      → ((b : Fields) → Ensures P (parse b))
      → ((a : A) → P a → IsCheckedOf name severity (make a))
      → Ensures (IsCheckedOf name severity) (within numbers key name block parse make)
  within-IsCheckedOf P key name severity block parse make h k =
      after_lem (IsCheckedOf name severity) _ _
        (λ inner. bind_lem P (IsCheckedOf name severity) (parse inner) _ (h inner) k)

  parse_block-IsCheckedOf :
      (name description : String) (block : Fields) (severity : String)
      → Ensures (IsCheckedOf name severity) (parse_block numbers name description block severity)
  unfolding parse_block
  parse_block-IsCheckedOf name description block severity =
      let Q = IsCheckedOf name severity in
      either_lem Q (has_key "deny" block) _ _
        (within-IsCheckedOf (IsDenyOf name severity) "deny" name severity block _ deny
          (λ b. parse_deny_rule-IsDeny name description b severity) (λ r h. h))
        (either_lem Q (has_key "require" block) _ _
          (within-IsCheckedOf (IsRequireOf name severity) "require" name severity block _ require
            (λ b. parse_require_rule-IsRequire name description b severity) (λ r h. h))
          (either_lem Q (has_key "forbid_import" block) _ _
            (within-IsCheckedOf (IsBoundaryOf name severity) "forbid_import" name severity block _
              import_boundary (λ b. parse_forbid_import_rule-IsBoundary name description b severity)
              (λ r h. h))
            (either_lem Q (has_key "forbid" block) _ _
              (within-IsCheckedOf (IsForbidOf name severity) "forbid" name severity block _
                forbid_edge (λ b. parse_forbid_rule-IsForbid name description b severity)
                (λ r h. h))
              (either_lem Q (has_key "layers" block) _ _
                (bind_lem (IsLayeredOf name severity) Q _ _
                  (parse_layer_rule-IsLayered name description block severity) (λ r h. h))
                (either_lem Q (has_key "check" block) _ _
                  (within-IsCheckedOf (IsLimitedOf numbers name severity) "check" name severity
                    block _ cardinality
                    (λ b. parse_check_rule-IsLimited numbers name description b severity)
                    (λ r h. h))
                  (either_lem Q (has_key "unregistered_feature_candidate" block) _ _
                    (within-IsCheckedOf (IsCandidateRuleOf numbers name severity)
                      "unregistered_feature_candidate" name severity block _ feature_candidate
                      (λ b.
                        parse_candidate_rule-IsCandidateRule numbers name description b severity)
                      (λ r h. h))
                    (either_lem Q (has_key "module_coverage" block) _ _
                      (within-IsCheckedOf (IsCoverageOf numbers name severity) "module_coverage"
                        name severity block _ module_coverage
                        (λ b. parse_coverage_rule-IsCoverageOf numbers name description b severity)
                        (λ r h. (tt, h)))
                      (within-IsCheckedOf (IsCyclicOf numbers name severity) "forbid_cycles" name
                        severity block _ cycle
                        (λ b. parse_cycle_rule-IsCyclic numbers name description b severity)
                        (λ r h. h)))))))))

  -- A rule that is checked and has a severity that is known.
  abbrev pub IsValid : Rule F → Type 0
  IsValid rule = IsChecked rule × IsSeverity (rule_severity rule)

  abbrev IsValidOf : String → Rule F → Type 0
  IsValidOf name rule = IsValid rule × (rule_name rule ≡ name)

  parse_named-IsValidOf :
      (name : String) (block : Fields) → Ensures (IsValidOf name) (parse_named numbers name block)
  unfolding parse_named
  parse_named-IsValidOf name block =
      let severity = severity_of block in
      then_lem (IsValidOf name) _ _ _ (λ known. then_lem (IsValidOf name) _ _ _ (λ one.
        weaken_lem (IsCheckedOf name severity) (IsValidOf name) _
          (parse_block-IsCheckedOf name _ block severity)
          (λ rule h. ((h.0, subst IsSeverity (sym h.1.1) known), h.1.0))))

  abbrev pub rule_names : List (Rule F) → List String
  rule_names [] = []
  rule_names (rule ∷ rules) = rule_name rule ∷ rule_names rules

  -- the rules of a list of entries, behind entries whose names are given
  abbrev AreLoaded : List String → Items → List (Rule F) → Type 0
  AreLoaded seen items rules =
      All IsValid rules
      × IsDuplicateFree (rule_names rules)
      × All (IsNew seen) (rule_names rules)
      × (length rules ≡ count_items items)

  parse_rules-AreLoaded :
      (idx : ℕ) (seen : List String) (items : Items)
      → Ensures (AreLoaded seen items) (parse_rules numbers idx seen items)
  unfolding parse_rules
  parse_rules-AreLoaded idx seen nil = (tt, tt, tt, refl)
  parse_rules-AreLoaded idx seen (cons v items) =
      let Q = AreLoaded seen (cons v items) in
      after_lem Q _ _ (λ block.
        bind_lem (IsNew seen) Q _ _ (name_of_entry-IsNew idx seen block) (λ name new.
          bind_lem (IsValidOf name) Q _ _ (parse_named-IsValidOf name block) (λ rule h.
            bind_lem (AreLoaded (name ∷ seen) items) Q _ _
              (parse_rules-AreLoaded (idx + 1) (name ∷ seen) items)
              (λ rules k.
                let apart = contains_of-IsNew name seen (rule_names rules) k.2 in
                (
                  (h.0, k.0),
                  (subst (λ n. contains (rule_names rules) n ≡ false) (sym h.1) apart.0, k.1),
                  (subst (IsNew seen) (sym h.1) new, apart.1),
                  omega (arith, k.3),
                )))))

  -- The rules of a file.
  abbrev pub entries : Value → Items
  entries (Value.obj file) = items_of (or_empty (get "rules" file))
  entries _ = nil

  abbrev IsAccepted : Value → List (Rule F) → Type 0
  IsAccepted file rules =
      All IsValid rules
      × IsDuplicateFree (rule_names rules)
      × (length rules ≡ count_items (entries file))

  load_rules-IsAccepted : (file : Value) → Ensures (IsAccepted file) (load_rules numbers file)
  unfolding load_rules ◌>>◌
  load_rules-IsAccepted file =
      let Q = IsAccepted file in
      bind_lem (λ f. file ≡ Value.obj f) Q _ _ (mapping_or-obj _ file)
        (λ f e. after_lem Q _ _ (λ _.
          bind_lem (λ items. items ≡ items_of (or_empty (get "rules" f))) Q _ _
            (list_or-items _ (or_empty (get "rules" f)))
            (λ items same.
              let all : items ≡ entries file = same ∙ sym (ap entries e) in
              weaken_lem (AreLoaded [] items) Q _ (parse_rules-AreLoaded 0 [] items)
                (λ rules h. (h.0, h.1, h.3 ∙ ap count_items all)))))

  -- Loading raises an error or accepts the file, and of an accepted file every entry has become a rule: its parser
  -- has checked its matchers, kinds of edges, texts and limits, its severity is known, and no two rules have one
  -- name.
  pub load_rules-IsValid :
      (file : Value) (rules : List (Rule F))
      → load_rules numbers file ≡ ok rules
      → All IsValid rules
        × IsDuplicateFree (rule_names rules)
        × (length rules ≡ count_items (entries file))
  load_rules-IsValid file rules h =
      returned_lem (IsAccepted file) (load_rules numbers file) rules (load_rules-IsAccepted file) h
