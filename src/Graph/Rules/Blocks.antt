-- ===== src/Graph/Rules/Blocks.antt =====
-- The parsers of the blocks of a rule in src/beadloom/graph/rules/loader.py, on values that the YAML reader gives.
use beadloom.Base.{
  ℕ, String, Bool, true, false, not, ◌&&◌, ◌||◌, Option, none, some, List, [], ◌∷◌, if◌then◌else◌,
  string_equality, contains, join, strip, is_blank,
}
use beadloom.Json.{Value, Fields, nil, get, py_str}
use beadloom.Graph.Rules.Types.{
  NodeMatcher, DenyRule, RequireRule, ImportBoundaryRule, ForbidEdgeRule,
}
use beadloom.Graph.Rules.Result.{
  Result, ok, err, ◌>>=◌, ◌>>◌, guard, mapping_or, list_or, present, text_or_none, texts,
}

-- `VALID_NODE_KINDS`
abbrev pub valid_node_kinds : List String
valid_node_kinds = "domain" ∷ "feature" ∷ "component" ∷ "service" ∷ "entity" ∷ "adr" ∷ []

-- `VALID_EDGE_KINDS`
abbrev pub valid_edge_kinds : List String
valid_edge_kinds =
    "part_of" ∷ "depends_on" ∷ "uses" ∷ "implements" ∷ "touches_entity" ∷ "touches_code" ∷ []

-- `sorted(...)` of the two, as a message prints it
abbrev node_kinds_text : String
node_kinds_text = "['adr', 'component', 'domain', 'entity', 'feature', 'service']"

abbrev pub edge_kinds_text : String
edge_kinds_text =
    "['depends_on', 'implements', 'part_of', 'touches_code', 'touches_entity', 'uses']"

-- `int(v)`, which is below zero or not
pub data Whole : Type 0 where
  natural : ℕ → Whole
  negative : Whole

-- What the conversions `int` and `float` of Python make of a value, and the test `0.0 <= x <= 1.0`.
pub record Numbers (F : Type 0) : Type 0 where
  pub to_int : Value → Result Whole
  pub to_float : Value → Result F
  pub in_unit : F → Bool

abbrev pub is_none : {A : Type 0} → Option A → Bool
is_none none = true
is_none (some _) = false

abbrev pub none_or_in : List String → Option String → Bool
none_or_in valid none = true
none_or_in valid (some text) = contains valid text

abbrev pub text_or_empty : Option String → String
text_or_empty none = ""
text_or_empty (some text) = text

abbrev pub rule_message : String → List String → String
rule_message name rest = join "" ("Rule '" ∷ name ∷ "': " ∷ rest)

abbrev excluded : Option Value → List String
excluded none = []
excluded (some (Value.arr items)) = texts items
excluded (some v) = py_str v ∷ []

-- `_parse_node_matcher`
unfoldable pub parse_node_matcher : Fields → String → Bool → Result NodeMatcher
unfolding get py_str texts
parse_node_matcher block context allow_empty = do
  let ref_id = text_or_none (present (get "ref_id" block))
  let kind = text_or_none (present (get "kind" block))
  let tag = text_or_none (present (get "tag" block))
  guard (allow_empty || not (is_none ref_id && (is_none kind && is_none tag))) (
      join ""
        (context ∷ ": node matcher must have at least one of 'ref_id', 'kind', or 'tag'" ∷ []))
  guard (none_or_in valid_node_kinds kind) (
      join "" (
        context
        ∷ ": invalid kind '"
        ∷ text_or_empty kind
        ∷ "', must be one of "
        ∷ node_kinds_text
        ∷ []))
  ok (record {
    ref_id = ref_id;
    kind = kind;
    tag = tag;
    exclude = excluded (present (get "exclude" block));
  })

-- the loop over edge kinds, of which each must be valid
unfoldable pub check_kinds : String → String → List String → Result (List String)
check_kinds name place [] = ok []
check_kinds name place (kind ∷ kinds) =
    let rest = check_kinds name place kinds in
    do
      guard (contains valid_edge_kinds kind) (
          rule_message name (
            "invalid edge kind '" ∷ kind ∷ "' in " ∷ place ∷ ", must be one of " ∷ edge_kinds_text
            ∷ []))
      checked ← rest
      ok (kind ∷ checked)

-- `edge_kind`, which may be missing
unfoldable pub check_edge_kind : String → Option String → Result (Option String)
check_edge_kind name edge_kind = do
  guard (none_or_in valid_edge_kinds edge_kind) (
      rule_message name (
        "invalid edge_kind '"
        ∷ text_or_empty edge_kind
        ∷ "', must be one of "
        ∷ edge_kinds_text
        ∷ []))
  ok edge_kind

abbrev unless_edges : Option Value → Option Value
unless_edges none = some (Value.arr nil)
unless_edges (some v) = some v

-- `_parse_deny_rule`
unfoldable pub parse_deny_rule : String → String → Fields → String → Result DenyRule
unfolding get parse_node_matcher check_kinds texts
parse_deny_rule name description block severity = do
  from_data ← mapping_or (rule_message name ("deny.from must be a mapping" ∷ [])) (get "from" block)
  to_data ← mapping_or (rule_message name ("deny.to must be a mapping" ∷ [])) (get "to" block)
  from_matcher ← parse_node_matcher from_data (join "" ("Rule '" ∷ name ∷ "' deny.from" ∷ [])) false
  to_matcher ← parse_node_matcher to_data (join "" ("Rule '" ∷ name ∷ "' deny.to" ∷ [])) false
  kinds ←
      list_or (rule_message name ("deny.unless_edge must be a list" ∷ []))
        (unless_edges (get "unless_edge" block))
  unless_edge ← check_kinds name "unless_edge" (texts kinds)
  ok (record {
    name = name;
    description = description;
    from_matcher = from_matcher;
    to_matcher = to_matcher;
    unless_edge = unless_edge;
    severity = severity;
  })

-- `_parse_require_rule`
unfoldable pub parse_require_rule : String → String → Fields → String → Result RequireRule
unfolding get parse_node_matcher check_edge_kind py_str
parse_require_rule name description block severity = do
  for_data ← mapping_or (rule_message name ("require.for must be a mapping" ∷ [])) (get "for" block)
  edge_data ←
      mapping_or (rule_message name ("require.has_edge_to must be a mapping" ∷ []))
        (get "has_edge_to" block)
  for_matcher ← parse_node_matcher for_data (join "" ("Rule '" ∷ name ∷ "' require.for" ∷ [])) false
  has_edge_to ←
      parse_node_matcher edge_data (join "" ("Rule '" ∷ name ∷ "' require.has_edge_to" ∷ [])) true
  edge_kind ← check_edge_kind name (text_or_none (present (get "edge_kind" block)))
  ok (record {
    name = name;
    description = description;
    for_matcher = for_matcher;
    has_edge_to = has_edge_to;
    edge_kind = edge_kind;
    severity = severity;
  })

-- `edge_kind` of a cycle rule: a list of kinds or one kind
unfoldable pub cycle_kinds : String → Option Value → Result (List String)
unfolding check_kinds texts py_str
cycle_kinds name none = err (rule_message name ("forbid_cycles.edge_kind is required" ∷ []))
cycle_kinds name (some (Value.arr items)) = check_kinds name "forbid_cycles.edge_kind" (texts items)
cycle_kinds name (some v) = check_kinds name "forbid_cycles.edge_kind" (py_str v ∷ [])

abbrev pub value_or : Value → Option Value → Value
value_or default none = default
value_or default (some v) = v

-- A depth below zero acts as zero.
abbrev pub depth_of : Whole → ℕ
depth_of (natural n) = n
depth_of negative = 0

-- `_parse_forbid_import_rule` of a glob: a text that is not blank
unfoldable pub glob_or : String → Option Value → Result String
unfolding strip is_blank
glob_or message (some (Value.str glob)) = if is_blank (strip glob) then err message else ok glob
glob_or message _ = err message

-- `_parse_forbid_import_rule`
unfoldable pub parse_forbid_import_rule :
    String → String → Fields → String → Result ImportBoundaryRule
unfolding get glob_or
parse_forbid_import_rule name description block severity = do
  from_glob ←
      glob_or (rule_message name ("forbid_import.from must be a non-empty string" ∷ []))
        (get "from" block)
  to_glob ←
      glob_or (rule_message name ("forbid_import.to must be a non-empty string" ∷ []))
        (get "to" block)
  ok (record {
    name = name;
    description = description;
    from_glob = from_glob;
    to_glob = to_glob;
    severity = severity;
  })

-- `_parse_forbid_rule`
unfoldable pub parse_forbid_rule : String → String → Fields → String → Result ForbidEdgeRule
unfolding get parse_node_matcher check_edge_kind py_str
parse_forbid_rule name description block severity = do
  from_data ←
      mapping_or (rule_message name ("forbid.from must be a mapping" ∷ [])) (get "from" block)
  to_data ← mapping_or (rule_message name ("forbid.to must be a mapping" ∷ [])) (get "to" block)
  from_matcher ←
      parse_node_matcher from_data (join "" ("Rule '" ∷ name ∷ "' forbid.from" ∷ [])) false
  to_matcher ← parse_node_matcher to_data (join "" ("Rule '" ∷ name ∷ "' forbid.to" ∷ [])) false
  edge_kind ← check_edge_kind name (text_or_none (present (get "edge_kind" block)))
  ok (record {
    name = name;
    description = description;
    from_matcher = from_matcher;
    to_matcher = to_matcher;
    edge_kind = edge_kind;
    severity = severity;
  })
