-- ===== src/Graph/Rules/Types.antt =====
-- src/beadloom/graph/rules/types.py: matchers, rules and violations. A rule takes the type of its fractions, which
-- are floats in the source.
use beadloom.Base.{
  ℕ, String, Bool, false, not, Option, none, some, List, if◌then◌else◌, ◌==◌, string_equality,
  contains,
}

-- `NodeMatcher`; no `exclude` is the empty list.
pub record NodeMatcher : Type 0 where
  pub ref_id : Option String
  pub kind : Option String
  pub tag : Option String
  pub exclude : List String

-- `wanted is not None and wanted != found`
abbrev pub differs : Option String → String → Bool
differs none found = false
differs (some wanted) found = not (wanted == found)

-- `self.tag is not None and tags is not None and self.tag not in tags`
abbrev pub lacks : Option String → Option (List String) → Bool
lacks none tags = false
lacks (some tag) none = false
lacks (some tag) (some tags) = not (contains tags tag)

-- `NodeMatcher.matches`
unfoldable pub matches : NodeMatcher → String → String → Option (List String) → Bool
matches m node_ref_id node_kind tags =
    if contains m.exclude node_ref_id
    then false
    else if differs m.ref_id node_ref_id
    then false
    else if differs m.kind node_kind
    then false
    else not (lacks m.tag tags)

-- `DenyRule`
pub record DenyRule : Type 0 where
  pub name : String
  pub description : String
  pub from_matcher : NodeMatcher
  pub to_matcher : NodeMatcher
  pub unless_edge : List String
  pub severity : String

-- `RequireRule`
pub record RequireRule : Type 0 where
  pub name : String
  pub description : String
  pub for_matcher : NodeMatcher
  pub has_edge_to : NodeMatcher
  pub edge_kind : Option String
  pub severity : String

-- `CycleRule`, with `edge_kind` as the tuple that `evaluate_cycle_rules` makes of it
pub record CycleRule : Type 0 where
  pub name : String
  pub description : String
  pub edge_kinds : List String
  pub max_depth : ℕ
  pub severity : String

-- `ImportBoundaryRule`
pub record ImportBoundaryRule : Type 0 where
  pub name : String
  pub description : String
  pub from_glob : String
  pub to_glob : String
  pub severity : String

-- `ForbidEdgeRule`
pub record ForbidEdgeRule : Type 0 where
  pub name : String
  pub description : String
  pub from_matcher : NodeMatcher
  pub to_matcher : NodeMatcher
  pub edge_kind : Option String
  pub severity : String

-- `LayerDef`
pub record LayerDef : Type 0 where
  pub name : String
  pub tag : String

-- `LayerRule`
pub record LayerRule : Type 0 where
  pub name : String
  pub description : String
  pub layers : List LayerDef
  pub enforce : String
  pub allow_skip : Bool
  pub edge_kind : String
  pub severity : String

-- `CardinalityRule`
pub record CardinalityRule (F : Type 0) : Type 0 where
  pub name : String
  pub description : String
  pub for_matcher : NodeMatcher
  pub max_symbols : Option ℕ
  pub max_files : Option ℕ
  pub min_doc_coverage : Option F
  pub severity : String

-- `UnregisteredFeatureCandidateRule`
pub record FeatureCandidateRule : Type 0 where
  pub name : String
  pub description : String
  pub for_matcher : NodeMatcher
  pub min_symbols : ℕ
  pub exclude : List String
  pub severity : String

-- `ModuleCoverageRule`
pub record ModuleCoverageRule : Type 0 where
  pub name : String
  pub description : String
  pub source_root : String
  pub min_symbols : ℕ
  pub exempt : List String
  pub severity : String

-- `Rule`
pub data Rule (F : Type 0) : Type 0 where
  deny : DenyRule → Rule F
  require : RequireRule → Rule F
  cycle : CycleRule → Rule F
  import_boundary : ImportBoundaryRule → Rule F
  forbid_edge : ForbidEdgeRule → Rule F
  layer : LayerRule → Rule F
  cardinality : CardinalityRule F → Rule F
  feature_candidate : FeatureCandidateRule → Rule F
  module_coverage : ModuleCoverageRule → Rule F

-- `Violation`
pub record Violation : Type 0 where
  pub rule_name : String
  pub rule_description : String
  pub rule_type : String
  pub severity : String
  pub file_path : Option String
  pub line_number : Option ℕ
  pub from_ref_id : Option String
  pub to_ref_id : Option String
  pub message : String
  pub remediation : Option String
