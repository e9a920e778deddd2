-- ===== src/Graph/Rules/Loader.antt =====
-- `load_rules` of src/beadloom/graph/rules/loader.py, on the value that the YAML reader gives. The proofs are in the
-- modules below.
pub mod Valid
pub mod Limited
pub mod Accepted
mod Tests
use beadloom.Base.{
  ℕ, zero, suc, ◌+◌, String, Bool, true, false, not, ◌&&◌, ◌||◌, Option, none, some, List, [], ◌∷◌,
  if◌then◌else◌, ◌==◌, string_equality, nat_equality, contains, keep_if, join, strip, is_blank,
  show, length,
}
use beadloom.Json.{Value, Fields, Items, nil, cons, get, py_str, str_or}
use beadloom.Graph.Rules.Types.{
  Rule, deny, require, cycle, import_boundary, forbid_edge, layer, cardinality, feature_candidate,
  module_coverage,
}
use beadloom.Graph.Rules.Result.{Result, ok, err, ◌>>=◌, ◌>>◌, guard, mapping_or, list_or, present}
use beadloom.Graph.Rules.Blocks.{
  Numbers, is_none, rule_message, glob_or, parse_deny_rule, parse_require_rule,
  parse_forbid_import_rule, parse_forbid_rule,
}
use beadloom.Graph.Rules.Limits.{
  patterns, parse_layer_rule, parse_cycle_rule, parse_check_rule, parse_candidate_rule,
  parse_coverage_rule,
}

-- `VALID_RULE_SEVERITIES`
abbrev pub valid_rule_severities : List String
valid_rule_severities = "error" ∷ "warn" ∷ []

-- `key in block`
unfoldable pub has_key : String → Fields → Bool
unfolding get
has_key key block = not (is_none (get key block))

-- The keys of which a rule must have one.
abbrev pub rule_types : List String
rule_types =
    "deny" ∷ "require" ∷ "forbid_cycles" ∷ "forbid_import" ∷ "forbid" ∷ "layers" ∷ "check"
    ∷ "unregistered_feature_candidate" ∷ "module_coverage" ∷ []

-- `version not in SUPPORTED_SCHEMA_VERSIONS`; a list or a mapping cannot be looked up in a set, and True is 1.
unfoldable pub check_version : Option Value → Result (Unit {0})
unfolding py_str
check_version none = err "rules.yml: missing required 'version' field"
check_version (some (Value.arr _)) = err "unhashable type: 'list'"
check_version (some (Value.obj _)) = err "unhashable type: 'dict'"
check_version (some (Value.num n)) =
    guard (contains ("1" ∷ "2" ∷ "3" ∷ "1.0" ∷ "2.0" ∷ "3.0" ∷ []) n)
      (join "" ("rules.yml: unsupported version " ∷ n ∷ ", expected one of [1, 2, 3]" ∷ []))
check_version (some (Value.bool true)) = ok tt
check_version (some v) =
    err
      (join "" ("rules.yml: unsupported version " ∷ py_str v ∷ ", expected one of [1, 2, 3]" ∷ []))

-- `data.get("rules", [])`
abbrev pub or_empty : Option Value → Option Value
or_empty none = some (Value.arr nil)
or_empty (some v) = some v

-- `severity`, with its default
unfoldable pub severity_of : Fields → String
unfolding has_key str_or get
severity_of block =
    str_or
      (if has_key "unregistered_feature_candidate" block || has_key "module_coverage" block
        then "warn"
        else "error")
      (get "severity" block)

-- the name of a rule, which no rule before it has
unfoldable pub name_of_entry : ℕ → List String → Fields → Result String
unfolding get glob_or show
name_of_entry idx seen_names block = do
  name ←
      glob_or
        (join "" ("rules.yml: rule at index " ∷ show idx ∷ " missing required 'name' field" ∷ []))
        (get "name" block)
  guard (not (contains seen_names name))
      (join "" ("rules.yml: Duplicate rule name '" ∷ name ∷ "'" ∷ []))
  ok name

module _ {F : Type 0} (numbers : Numbers F) where
  -- a block of the rule that is a mapping, and its parser
  abbrev pub within :
      {A : Type 0} → String → String → Fields → (Fields → Result A) → (A → Rule F) → Result (Rule F)
  within key name block parse make = do
    inner ← mapping_or (rule_message name ("'" ∷ key ∷ "' must be a mapping" ∷ [])) (get key block)
    rule ← parse inner
    ok (make rule)

  -- the choice of the parser
  unfoldable pub parse_block : String → String → Fields → String → Result (Rule F)
  unfolding has_key get parse_deny_rule parse_require_rule parse_forbid_import_rule
      parse_forbid_rule parse_layer_rule parse_cycle_rule parse_check_rule parse_candidate_rule
      parse_coverage_rule
  parse_block name description block severity =
      if has_key "deny" block
      then within "deny" name block (λ b. parse_deny_rule name description b severity) deny
      else if has_key "require" block
      then within "require" name block (λ b. parse_require_rule name description b severity) require
      else if has_key "forbid_import" block
      then within "forbid_import" name block
          (λ b. parse_forbid_import_rule name description b severity) import_boundary
      else if has_key "forbid" block
      then within "forbid" name block (λ b. parse_forbid_rule name description b severity)
          forbid_edge
      else if has_key "layers" block
      then (do rule ← parse_layer_rule name description block severity; ok (layer rule))
      else if has_key "check" block
      then within "check" name block (λ b. parse_check_rule numbers name description b severity)
          cardinality
      else if has_key "unregistered_feature_candidate" block
      then within "unregistered_feature_candidate" name block
          (λ b. parse_candidate_rule numbers name description b severity) feature_candidate
      else if has_key "module_coverage" block
      then within "module_coverage" name block
          (λ b. parse_coverage_rule numbers name description b severity) module_coverage
      else within "forbid_cycles" name block
          (λ b. parse_cycle_rule numbers name description b severity) cycle

  -- the body of the loop, behind the test of the name
  unfoldable pub parse_named : String → Fields → Result (Rule F)
  unfolding parse_block severity_of has_key str_or get
  parse_named name block = do
    let severity = severity_of block
    guard (contains valid_rule_severities severity) (
        join "" (
          "rules.yml: rule '" ∷ name ∷ "' has invalid severity '" ∷ severity
          ∷ "', must be one of ['error', 'warn']" ∷ []))
    guard (length (keep_if (λ key. has_key key block) rule_types) == 1) (
        join "" (
          "rules.yml: rule '" ∷ name
          ∷ "' must have exactly one of 'deny', 'require', 'forbid_cycles', 'forbid_import', 'forbid', 'layers', 'check', 'unregistered_feature_candidate', or 'module_coverage'"
          ∷ []))
    parse_block name (str_or "" (get "description" block)) block severity

  -- the loop over the rules
  unfoldable pub parse_rules : ℕ → List String → Items → Result (List (Rule F))
  unfolding parse_named name_of_entry show
  parse_rules idx seen_names nil = ok []
  parse_rules idx seen_names (cons v items) = do
    block ←
        mapping_or (join "" ("rules.yml: rule at index " ∷ show idx ∷ " must be a mapping" ∷ []))
          (some v)
    name ← name_of_entry idx seen_names block
    rule ← parse_named name block
    rules ← parse_rules (idx + 1) (name ∷ seen_names) items
    ok (rule ∷ rules)

  -- `load_rules`
  unfoldable pub load_rules : Value → Result (List (Rule F))
  unfolding get check_version parse_rules
  load_rules v = do
    file ← mapping_or "rules.yml must be a YAML mapping" (some v)
    check_version (present (get "version" file))
    items ← list_or "rules.yml: 'rules' must be a list" (or_empty (get "rules" file))
    parse_rules 0 [] items
