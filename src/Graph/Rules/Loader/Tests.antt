-- ===== src/Graph/Rules/Loader/Tests.antt =====
-- Files of rules that are loaded and refused, and the theorem at one of them.
use beadloom.Base.{
  ℕ, String, Bool, true, List, [], ◌∷◌, none, some, ◌≡◌, refl, length, All, IsDuplicateFree,
  string_equality,
}
use beadloom.Json.{Value, end, field, Items, nil, cons}
use beadloom.Graph.Rules.Types.{Rule, NodeMatcher, deny}
use beadloom.Graph.Rules.Result.{Result, ok, err}
use beadloom.Graph.Rules.Blocks.{Numbers, natural}
use beadloom.Graph.Rules.Limits.{count_items}
use beadloom.Graph.Rules.Loader.{load_rules}
use beadloom.Graph.Rules.Loader.Accepted.{IsValid, rule_names, entries, load_rules-IsValid}

-- Every number is read as one.
abbrev numbers : Numbers ℕ
numbers = record { to_int = λ _. ok (natural 1); to_float = λ _. ok 1; in_unit = λ _. true }

abbrev matcher : String → Value
matcher tag = Value.obj (field "tag" (Value.str tag) end)

abbrev entry : Value → Value
entry name = Value.obj (
    field "name" name (
      field "deny" (Value.obj (field "from" (matcher "core") (field "to" (matcher "ui") end))) end))

abbrev file : Items → Value
file items = Value.obj (field "version" (Value.num "3") (field "rules" (Value.arr items) end))

abbrev tagged : String → NodeMatcher
tagged tag = record { ref_id = none; kind = none; tag = some tag; exclude = [] }

abbrev rule : Rule ℕ
rule = deny (record {
  name = "a";
  description = "";
  from_matcher = tagged "core";
  to_matcher = tagged "ui";
  unless_edge = [];
  severity = "error";
})

load_runs : load_rules numbers (file (cons (entry (Value.str "a")) nil)) ≡ ok (rule ∷ [])
unfolding load_rules beadloom.Graph.Rules.Result.◌>>=◌ beadloom.Graph.Rules.Result.◌>>◌
    beadloom.Graph.Rules.Result.guard
load_runs = refl

duplicate_runs :
    load_rules numbers (file (cons (entry (Value.str "a")) (cons (entry (Value.str "a")) nil)))
    ≡ err "rules.yml: Duplicate rule name 'a'"
unfolding load_rules beadloom.Graph.Rules.Result.◌>>=◌ beadloom.Graph.Rules.Result.◌>>◌
    beadloom.Graph.Rules.Result.guard beadloom.Base.join
duplicate_runs = refl

blank_runs :
    load_rules numbers (file (cons (entry (Value.str " ")) nil))
    ≡ err "rules.yml: rule at index 0 missing required 'name' field"
unfolding load_rules beadloom.Graph.Rules.Result.◌>>=◌ beadloom.Graph.Rules.Result.◌>>◌
    beadloom.Graph.Rules.Result.guard beadloom.Base.join
blank_runs = refl

load_rules-IsValid_example :
    All (IsValid numbers) (rule ∷ [])
    × IsDuplicateFree (rule_names numbers (rule ∷ []))
    × (length (rule ∷ []) ≡ count_items (entries numbers (file (cons (entry (Value.str "a")) nil))))
load_rules-IsValid_example =
    load_rules-IsValid numbers (file (cons (entry (Value.str "a")) nil)) (rule ∷ []) load_runs
