-- ===== src/Graph/Rules/Limits.antt =====
-- The parsers of the blocks with numbers and of the layers in src/beadloom/graph/rules/loader.py.
use beadloom.Base.{
  ℕ, suc, ◌+◌, String, true, false, not, ◌&&◌, Option, none, some, List, [], ◌∷◌, ◌==◌,
  string_equality, contains, join, show, ltb,
}
use beadloom.Json.{Value, Fields, Items, nil, cons, get, py_str, str_or, truthy}
use beadloom.Graph.Rules.Types.{
  CycleRule, LayerDef, LayerRule, CardinalityRule, FeatureCandidateRule, ModuleCoverageRule,
}
use beadloom.Graph.Rules.Result.{
  Result, ok, err, ◌>>=◌, ◌>>◌, guard, mapping_or, list_or, present, texts,
}
use beadloom.Graph.Rules.Blocks.{
  Whole, natural, negative, Numbers, is_none, rule_message, valid_edge_kinds, edge_kinds_text,
  parse_node_matcher, glob_or, cycle_kinds, value_or, depth_of,
}

-- the body of the loop over the layers
unfoldable pub parse_layer : String → ℕ → Value → Result LayerDef
unfolding get glob_or show
parse_layer name idx v = do
  layer ←
      mapping_or (rule_message name ("layer at index " ∷ show idx ∷ " must be a mapping" ∷ []))
        (some v)
  layer_name ←
      glob_or
        (rule_message name ("layer at index " ∷ show idx ∷ " missing required 'name' field" ∷ []))
        (get "name" layer)
  layer_tag ←
      glob_or
        (rule_message name ("layer at index " ∷ show idx ∷ " missing required 'tag' field" ∷ []))
        (get "tag" layer)
  ok (record { name = layer_name; tag = layer_tag })

unfoldable pub parse_layers : String → ℕ → Items → Result (List LayerDef)
unfolding parse_layer
parse_layers name idx nil = ok []
parse_layers name idx (cons v items) =
    let rest = parse_layers name (idx + 1) items in
    do layer ← parse_layer name idx v; layers ← rest; ok (layer ∷ layers)

-- `len(items)`
abbrev pub count_items : Items → ℕ
count_items nil = 0
count_items (cons v items) = suc (count_items items)

-- `_parse_layer_rule`
unfoldable pub parse_layer_rule : String → String → Fields → String → Result LayerRule
unfolding get parse_layers py_str truthy
parse_layer_rule name description block severity = do
  items ← list_or (rule_message name ("'layers' must be a list" ∷ [])) (get "layers" block)
  guard (not (ltb (count_items items) 2))
      (rule_message name ("'layers' must contain at least 2 layer definitions" ∷ []))
  layers ← parse_layers name 0 items
  guard (not (is_none (present (get "enforce" block))))
      (rule_message name ("'enforce' is required for layer rules" ∷ []))
  let enforce = py_str (value_or Value.null (get "enforce" block))
  guard (enforce == "top-down") (
      rule_message name
        ("invalid enforce value '" ∷ enforce ∷ "', must be one of ['top-down']" ∷ []))
  let edge_kind = py_str (value_or (Value.str "uses") (get "edge_kind" block))
  guard (contains valid_edge_kinds edge_kind) (
      rule_message name
        ("invalid edge_kind '" ∷ edge_kind ∷ "', must be one of " ∷ edge_kinds_text ∷ []))
  ok (record {
    name = name;
    description = description;
    layers = layers;
    enforce = enforce;
    allow_skip = truthy (value_or (Value.bool true) (get "allow_skip" block));
    edge_kind = edge_kind;
    severity = severity;
  })

-- `if n < 0: raise ValueError(message)`
abbrev pub not_negative : String → Whole → Result ℕ
not_negative message (natural n) = ok n
not_negative message negative = err message

-- `exclude` and `exempt`: None is no pattern.
abbrev pub patterns : Option Value → Option Value
patterns none = some (Value.arr nil)
patterns (some Value.null) = some (Value.arr nil)
patterns (some v) = some v

module _ {F : Type 0} (numbers : Numbers F) where
  -- `_parse_cycle_rule`
  unfoldable pub parse_cycle_rule : String → String → Fields → String → Result CycleRule
  unfolding get cycle_kinds
  parse_cycle_rule name description block severity = do
    edge_kinds ← cycle_kinds name (present (get "edge_kind" block))
    max_depth ← numbers.to_int (value_or (Value.num "10") (get "max_depth" block))
    ok (record {
      name = name;
      description = description;
      edge_kinds = edge_kinds;
      max_depth = depth_of max_depth;
      severity = severity;
    })

  -- `max_symbols` and `max_files`
  unfoldable pub limit_or : String → Option Value → Result (Option ℕ)
  limit_or message none = ok none
  limit_or message (some v) = do
    n ← numbers.to_int v
    limit ← not_negative message n
    ok (some limit)

  -- `min_doc_coverage`
  unfoldable pub share_or : String → Option Value → Result (Option F)
  share_or message none = ok none
  share_or message (some v) = do
    share ← numbers.to_float v
    guard (numbers.in_unit share) message
    ok (some share)

  -- `_parse_check_rule`
  unfoldable pub parse_check_rule : String → String → Fields → String → Result (CardinalityRule F)
  unfolding get parse_node_matcher limit_or share_or
  parse_check_rule name description block severity = do
    for_block ←
        mapping_or (rule_message name ("check.for must be a mapping" ∷ [])) (get "for" block)
    for_matcher ←
        parse_node_matcher for_block (join "" ("Rule '" ∷ name ∷ "' check.for" ∷ [])) false
    max_symbols ←
        limit_or (rule_message name ("check.max_symbols must be non-negative" ∷ []))
          (present (get "max_symbols" block))
    max_files ←
        limit_or (rule_message name ("check.max_files must be non-negative" ∷ []))
          (present (get "max_files" block))
    min_doc_coverage ←
        share_or (rule_message name ("check.min_doc_coverage must be between 0.0 and 1.0" ∷ []))
          (present (get "min_doc_coverage" block))
    guard (not (is_none max_symbols && (is_none max_files && is_none min_doc_coverage))) (
        rule_message name (
          "check must specify at least one of 'max_symbols', 'max_files', or 'min_doc_coverage'"
          ∷ []))
    ok (record {
      name = name;
      description = description;
      for_matcher = for_matcher;
      max_symbols = max_symbols;
      max_files = max_files;
      min_doc_coverage = min_doc_coverage;
      severity = severity;
    })

  -- `min_symbols`
  unfoldable pub count_or : String → Value → Result ℕ
  count_or message v = do n ← numbers.to_int v; not_negative message n

  -- `_parse_unregistered_feature_candidate_rule`
  unfoldable pub parse_candidate_rule :
      String → String → Fields → String → Result FeatureCandidateRule
  unfolding get parse_node_matcher count_or texts
  parse_candidate_rule name description block severity = do
    for_block ←
        mapping_or (rule_message name ("unregistered_feature_candidate.for must be a mapping" ∷ []))
          (get "for" block)
    for_matcher ←
        parse_node_matcher for_block
          (join "" ("Rule '" ∷ name ∷ "' unregistered_feature_candidate.for" ∷ [])) false
    min_symbols ←
        count_or
          (rule_message name
            ("unregistered_feature_candidate.min_symbols must be non-negative" ∷ []))
          (value_or (Value.num "5") (get "min_symbols" block))
    items ←
        list_or (rule_message name ("unregistered_feature_candidate.exclude must be a list" ∷ []))
          (patterns (get "exclude" block))
    ok (record {
      name = name;
      description = description;
      for_matcher = for_matcher;
      min_symbols = min_symbols;
      exclude = texts items;
      severity = severity;
    })

  -- `_parse_module_coverage_rule`
  unfoldable pub parse_coverage_rule : String → String → Fields → String → Result ModuleCoverageRule
  unfolding get count_or texts str_or
  parse_coverage_rule name description block severity = do
    min_symbols ←
        count_or (rule_message name ("module_coverage.min_symbols must be non-negative" ∷ []))
          (value_or (Value.num "1") (get "min_symbols" block))
    items ←
        list_or (rule_message name ("module_coverage.exempt must be a list" ∷ []))
          (patterns (get "exempt" block))
    ok (record {
      name = name;
      description = description;
      source_root = str_or "src/beadloom/" (get "source_root" block);
      min_symbols = min_symbols;
      exempt = texts items;
      severity = severity;
    })
