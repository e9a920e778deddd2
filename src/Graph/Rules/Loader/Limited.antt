-- ===== src/Graph/Rules/Loader/Limited.antt =====
-- What a loaded rule with layers or numbers satisfies.
use native.Mathlib.Omega.{arith}
use beadloom.Base.{
  ℕ, ◌+◌, ◌≤◌, String, true, not, ◌&&◌, Option, none, some, List, [], ◌∷◌, string_equality,
  nat_equality, contains, length, ◌≡◌, refl, All, eq_iff,
}
use beadloom.Json.{Value, Fields, Items, nil, cons, get, py_str}
use beadloom.Graph.Rules.Types.{
  CycleRule, LayerDef, LayerRule, CardinalityRule, FeatureCandidateRule, ModuleCoverageRule,
}
use beadloom.Graph.Rules.Result.{Ensures, bind_lem, then_lem, after_lem, present, texts}
use beadloom.Graph.Rules.Blocks.{Numbers, is_none, valid_edge_kinds, cycle_kinds}
use beadloom.Graph.Rules.Limits.{
  count_items, parse_layer, parse_layers, parse_layer_rule, parse_cycle_rule, share_or,
  parse_check_rule, parse_candidate_rule, parse_coverage_rule,
}
use beadloom.Graph.Rules.Loader.Valid.{
  IsSelective, AreKinds, IsText, IsTagged, parse_node_matcher-IsSelective, check_kinds-AreKinds,
  glob_or-IsText,
}

abbrev pub IsLayer : LayerDef → Type 0
IsLayer l = IsText l.name × IsText l.tag

-- As many layers as items, each with a name and a tag.
abbrev AreLayers : Items → List LayerDef → Type 0
AreLayers items layers = (length layers ≡ count_items items) × All IsLayer layers

parse_layer-IsLayer :
    (name : String) (idx : ℕ) (v : Value) → Ensures IsLayer (parse_layer name idx v)
unfolding parse_layer
parse_layer-IsLayer name idx v = after_lem IsLayer _ _ (λ block.
    bind_lem IsText IsLayer _ _ (glob_or-IsText _ (get "name" block)) (λ layer_name n.
      bind_lem IsText IsLayer _ _ (glob_or-IsText _ (get "tag" block)) (λ layer_tag t. (n, t))))

parse_layers-AreLayers :
    (name : String) (idx : ℕ) (items : Items)
    → Ensures (AreLayers items) (parse_layers name idx items)
unfolding parse_layers
parse_layers-AreLayers name idx nil = (refl, tt)
parse_layers-AreLayers name idx (cons v items) =
    bind_lem IsLayer (AreLayers (cons v items)) _ _ (parse_layer-IsLayer name idx v) (λ l h.
      bind_lem (AreLayers items) (AreLayers (cons v items)) _ _
        (parse_layers-AreLayers name (idx + 1) items) (λ layers k. (omega (arith, k.0), (h, k.1))))

abbrev pub IsLayered : LayerRule → Type 0
IsLayered r =
    (2 ≤ length r.layers)
    × All IsLayer r.layers
    × (r.enforce ≡ "top-down")
    × (contains valid_edge_kinds r.edge_kind ≡ true)

abbrev pub IsLayeredOf : String → String → LayerRule → Type 0
IsLayeredOf name severity r = IsLayered r × IsTagged name severity r.name r.severity

pub parse_layer_rule-IsLayered :
    (name description : String) (block : Fields) (severity : String)
    → Ensures (IsLayeredOf name severity) (parse_layer_rule name description block severity)
unfolding parse_layer_rule
parse_layer_rule-IsLayered name description block severity =
    after_lem (IsLayeredOf name severity) _ _ (λ items.
      then_lem (IsLayeredOf name severity) _ _ _ (λ many.
        bind_lem (AreLayers items) (IsLayeredOf name severity) _ _
          (parse_layers-AreLayers name 0 items)
          (λ layers h. then_lem (IsLayeredOf name severity) _ _ _ (λ _.
            then_lem (IsLayeredOf name severity) _ _ _ (λ same.
              then_lem (IsLayeredOf name severity) _ _ _ (λ valid.
                ((ground (arith, many, h.0), h.1, (eq_iff _ _).0 same, valid), (refl, refl))))))))

cycle_kinds-AreKinds : (name : String) (v : Option Value) → Ensures AreKinds (cycle_kinds name v)
unfolding cycle_kinds
cycle_kinds-AreKinds name none = tt
cycle_kinds-AreKinds name (some (Value.arr items)) =
    check_kinds-AreKinds name "forbid_cycles.edge_kind" (texts items)
cycle_kinds-AreKinds name (some Value.null) =
    check_kinds-AreKinds name "forbid_cycles.edge_kind" (py_str Value.null ∷ [])
cycle_kinds-AreKinds name (some (Value.bool b)) =
    check_kinds-AreKinds name "forbid_cycles.edge_kind" (py_str (Value.bool b) ∷ [])
cycle_kinds-AreKinds name (some (Value.num n)) =
    check_kinds-AreKinds name "forbid_cycles.edge_kind" (py_str (Value.num n) ∷ [])
cycle_kinds-AreKinds name (some (Value.str s)) =
    check_kinds-AreKinds name "forbid_cycles.edge_kind" (py_str (Value.str s) ∷ [])
cycle_kinds-AreKinds name (some (Value.obj f)) =
    check_kinds-AreKinds name "forbid_cycles.edge_kind" (py_str (Value.obj f) ∷ [])

module _ {F : Type 0} (numbers : Numbers F) where
  abbrev pub IsCyclic : CycleRule → Type 0
  IsCyclic r = AreKinds r.edge_kinds

  abbrev pub IsCyclicOf : String → String → CycleRule → Type 0
  IsCyclicOf name severity r = IsCyclic r × IsTagged name severity r.name r.severity

  pub parse_cycle_rule-IsCyclic :
      (name description : String) (block : Fields) (severity : String)
      → Ensures
          (IsCyclicOf name severity)
          (parse_cycle_rule numbers name description block severity)
  unfolding parse_cycle_rule
  parse_cycle_rule-IsCyclic name description block severity =
      bind_lem AreKinds (IsCyclicOf name severity) _ _
        (cycle_kinds-AreKinds name (present (get "edge_kind" block)))
        (λ kinds k. after_lem (IsCyclicOf name severity) _ _ (λ max_depth. (k, (refl, refl))))

  -- A share is one of the unit interval.
  abbrev pub IsShare : Option F → Type 0
  IsShare none = Unit
  IsShare (some share) = numbers.in_unit share ≡ true

  share_or-IsShare :
      (message : String) (v : Option Value) → Ensures IsShare (share_or numbers message v)
  unfolding share_or
  share_or-IsShare message none = tt
  share_or-IsShare message (some v) =
      after_lem IsShare _ _ (λ share. then_lem IsShare _ _ _ (λ within. within))

  -- The rule has a limit, and asks for a share of the unit interval.
  abbrev pub IsLimited : CardinalityRule F → Type 0
  IsLimited r =
      IsSelective r.for_matcher
      × (not (is_none r.max_symbols && (is_none r.max_files && is_none r.min_doc_coverage)) ≡ true)
      × IsShare r.min_doc_coverage

  abbrev pub IsLimitedOf : String → String → CardinalityRule F → Type 0
  IsLimitedOf name severity r = IsLimited r × IsTagged name severity r.name r.severity

  pub parse_check_rule-IsLimited :
      (name description : String) (block : Fields) (severity : String)
      → Ensures
          (IsLimitedOf name severity)
          (parse_check_rule numbers name description block severity)
  unfolding parse_check_rule
  parse_check_rule-IsLimited name description block severity =
      after_lem (IsLimitedOf name severity) _ _ (λ for_block.
        bind_lem IsSelective (IsLimitedOf name severity) _ _
          (parse_node_matcher-IsSelective for_block _)
          (λ for_matcher f. after_lem (IsLimitedOf name severity) _ _ (λ max_symbols.
            after_lem (IsLimitedOf name severity) _ _ (λ max_files.
              bind_lem IsShare (IsLimitedOf name severity) _ _
                (share_or-IsShare _ (present (get "min_doc_coverage" block)))
                (λ share s.
                  then_lem (IsLimitedOf name severity) _ _ _
                    (λ some_of. ((f, some_of, s), (refl, refl))))))))

  abbrev pub IsCandidateRule : FeatureCandidateRule → Type 0
  IsCandidateRule r = IsSelective r.for_matcher

  abbrev pub IsCandidateRuleOf : String → String → FeatureCandidateRule → Type 0
  IsCandidateRuleOf name severity r = IsCandidateRule r × IsTagged name severity r.name r.severity

  pub parse_candidate_rule-IsCandidateRule :
      (name description : String) (block : Fields) (severity : String)
      → Ensures
          (IsCandidateRuleOf name severity)
          (parse_candidate_rule numbers name description block severity)
  unfolding parse_candidate_rule
  parse_candidate_rule-IsCandidateRule name description block severity =
      after_lem (IsCandidateRuleOf name severity) _ _ (λ for_block.
        bind_lem IsSelective (IsCandidateRuleOf name severity) _ _
          (parse_node_matcher-IsSelective for_block _)
          (λ m f. after_lem (IsCandidateRuleOf name severity) _ _ (λ min_symbols.
            after_lem (IsCandidateRuleOf name severity) _ _ (λ items. (f, (refl, refl))))))

  abbrev pub IsCoverageOf : String → String → ModuleCoverageRule → Type 0
  IsCoverageOf name severity r = IsTagged name severity r.name r.severity

  pub parse_coverage_rule-IsCoverageOf :
      (name description : String) (block : Fields) (severity : String)
      → Ensures
          (IsCoverageOf name severity)
          (parse_coverage_rule numbers name description block severity)
  unfolding parse_coverage_rule
  parse_coverage_rule-IsCoverageOf name description block severity =
      after_lem (IsCoverageOf name severity) _ _
        (λ min_symbols. after_lem (IsCoverageOf name severity) _ _ (λ items. (refl, refl)))
