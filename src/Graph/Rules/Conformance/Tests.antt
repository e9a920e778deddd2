-- ===== src/Graph/Rules/Conformance/Tests.antt =====
-- The evaluators at a shop of three services, and the theorem at it.
use Prim.Native.Nat.{◌/◌}
use Prim.Native.String.{◌++◌ as str_append}
use beadloom.Base.{
  ℕ, ◌*◌, String, true, Option, none, some, List, [], ◌∷◌, ◌≡◌, refl, ◌↔◌, ◌==◌, string_equality,
  nat_equality, ◌&&◌, not, any_of, ltb, All, concat_map, sort_by, strip_code, starts_with,
  drop_last, show, map,
}
use beadloom.Graph.Rules.Types.{
  NodeMatcher, Rule, deny, require, cycle, layer, cardinality, Violation,
}
use beadloom.Graph.Rules.Database.{Database, SymbolRow}
use beadloom.Graph.Rules.Externals.{Externals}
use beadloom.Graph.Rules.Evaluate.{evaluate_all}
use beadloom.Graph.Rules.Types.{matches}
use beadloom.Graph.Rules.Database.{get_file_node, get_node_tags}
use beadloom.Graph.Rules.Deny.{evaluate_deny_rules}
use beadloom.Graph.Rules.Require.{evaluate_require_rules}
use beadloom.Graph.Rules.Cycles.{evaluate_cycle_rules}
use beadloom.Graph.Rules.ForbidEdge.{evaluate_forbid_edge_rules}
use beadloom.Graph.Rules.ImportBoundary.{evaluate_import_boundary_rules}
use beadloom.Graph.Rules.Layers.{live_edges, evaluate_layer_rules}
use beadloom.Graph.Rules.Cardinality.{evaluate_cardinality_rules}
use beadloom.Graph.Rules.Modules.{evaluate_feature_candidate_rules, evaluate_module_coverage_rules}
use beadloom.Graph.Rules.Modules.{is_domain, has_key, candidate_files}
use beadloom.Graph.Rules.Modules.Tallies.{is_of, has_row, symbols_of, candidate_files_iff}
use beadloom.Graph.Rules.Conformance.{Conforms, evaluate_all-Conforms}
use beadloom.Json.{Value, end, field}

-- Equal texts match; LIKE compares what stands before the last character; fractions are parts of a hundred.
abbrev ext : Externals ℕ
ext = record {
  fnmatch = λ path pattern. path == pattern;
  like = λ path pattern. starts_with (drop_last pattern) path;
  ratio = λ a b. a * 100 / b;
  nought = 0;
  below = ltb;
  percent = λ a. str_append (show a) "%";
  disk_modules = λ _. [];
}

abbrev any_node : NodeMatcher
any_node = record { ref_id = none; kind = none; tag = none; exclude = [] }

abbrev tagged : String → NodeMatcher
tagged tag = record { ref_id = none; kind = none; tag = some tag; exclude = [] }

abbrev annotation : String → Option Value
annotation ref_id = some (Value.obj (field "service" (Value.str ref_id) end))

abbrev shop : Database
shop = record {
  nodes =
      record { ref_id = "web"; kind = "service"; source = some "src/web/"; tags = "ui" ∷ [] }
      ∷ record { ref_id = "cart"; kind = "service"; source = some "src/cart/"; tags = "core" ∷ [] }
      ∷ record { ref_id = "pay"; kind = "service"; source = none; tags = "core" ∷ [] }
      ∷ [];
  edges =
      record { src_ref_id = "web"; dst_ref_id = "cart"; kind = "depends_on"; lifecycle = "active" }
      ∷ record {
        src_ref_id = "cart";
        dst_ref_id = "pay";
        kind = "depends_on";
        lifecycle = "active";
      }
      ∷ [];
  code_imports =
      record {
        file_path = "src/cart/a.py";
        line_number = 3;
        import_path = "web";
        resolved_ref_id = some "web";
      }
      ∷ [];
  code_symbols =
      record { file_path = "src/cart/a.py"; annotations = annotation "cart" }
      ∷ record { file_path = "src/web/b.py"; annotations = annotation "web" }
      ∷ [];
  file_index = "src/cart/a.py" ∷ "src/web/b.py" ∷ [];
  sync_state = record { ref_id = "cart"; status = "ok" } ∷ [];
}

-- The core must not import the user interface.
abbrev no_core_to_ui : Rule ℕ
no_core_to_ui = deny (record {
  name = "no-core-to-ui";
  description = "The core does not know the user interface.";
  from_matcher = tagged "core";
  to_matcher = tagged "ui";
  unless_edge = [];
  severity = "error";
})

abbrev no_cycles : Rule ℕ
no_cycles = cycle (record {
  name = "no-cycles";
  description = "";
  edge_kinds = "depends_on" ∷ [];
  max_depth = 10;
  severity = "error";
})

abbrev layers : Rule ℕ
layers = layer (record {
  name = "layers";
  description = "";
  layers = record { name = "ui"; tag = "ui" } ∷ record { name = "core"; tag = "core" } ∷ [];
  enforce = "top-down";
  allow_skip = true;
  edge_kind = "depends_on";
  severity = "error";
})

abbrev small : Rule ℕ
small = cardinality (record {
  name = "small";
  description = "";
  for_matcher = tagged "core";
  max_symbols = some 1;
  max_files = none;
  min_doc_coverage = none;
  severity = "warn";
})

-- Each service depends on another.
abbrev connected : Rule ℕ
connected = require (record {
  name = "connected";
  description = "";
  for_matcher = any_node;
  has_edge_to = any_node;
  edge_kind = some "depends_on";
  severity = "warn";
})

abbrev rule_names : List Violation → List (String × Option String)
rule_names = map (λ (v : Violation). (v.rule_name, v.from_ref_id))

quiet_runs : evaluate_all ext shop (no_cycles ∷ layers ∷ small ∷ []) ≡ []
unfolding evaluate_all sort_by evaluate_deny_rules concat_map get_file_node matches get_node_tags
    evaluate_require_rules evaluate_cycle_rules evaluate_import_boundary_rules
    evaluate_forbid_edge_rules live_edges evaluate_layer_rules evaluate_cardinality_rules
    evaluate_feature_candidate_rules evaluate_module_coverage_rules starts_with drop_last strip_code
    show
quiet_runs = refl

loud_runs :
    rule_names (evaluate_all ext shop (no_core_to_ui ∷ connected ∷ small ∷ []))
    ≡ ("connected", some "pay") ∷ ("no-core-to-ui", some "cart") ∷ []
unfolding evaluate_all sort_by evaluate_deny_rules concat_map get_file_node matches get_node_tags
    evaluate_require_rules evaluate_cycle_rules evaluate_import_boundary_rules
    evaluate_forbid_edge_rules live_edges evaluate_layer_rules evaluate_cardinality_rules
    evaluate_feature_candidate_rules evaluate_module_coverage_rules starts_with drop_last strip_code
    show
loud_runs = refl

evaluate_all-Conforms_example :
    (evaluate_all ext shop (no_core_to_ui ∷ no_cycles ∷ layers ∷ small ∷ connected ∷ []) ≡ [])
    ↔ All (Conforms ext shop) (no_core_to_ui ∷ no_cycles ∷ layers ∷ small ∷ connected ∷ [])
evaluate_all-Conforms_example =
    evaluate_all-Conforms ext shop (no_core_to_ui ∷ no_cycles ∷ layers ∷ small ∷ connected ∷ [])

-- A domain with two symbols in one file, of which one is annotated with the domain.
abbrev domain_row : Option Value → SymbolRow
domain_row annotations = record { file_path = "src/shop/cart.py"; annotations = annotations }

abbrev domain : Database
domain = record shop {
  code_symbols =
      domain_row (some (Value.obj (field "domain" (Value.str "shop") end))) ∷ domain_row none ∷ [];
}

candidate_runs :
    any_of
      (is_of "src/shop/cart.py" (λ tally. tally.count == 2))
      (candidate_files ext domain "shop" "src/shop/")
    ≡ true
unfolding candidate_files sort_by starts_with drop_last beadloom.Json.get
candidate_runs = refl

candidate_files_iff_example :
    any_of
      (is_of "src/shop/cart.py" (λ tally. tally.count == 2))
      (candidate_files ext domain "shop" "src/shop/")
    ≡ (ext.like "src/shop/cart.py" (str_append "src/shop/" "%")
        && has_row (is_domain "shop") "src/shop/cart.py" domain.code_symbols
        && not (has_row (has_key "feature") "src/shop/cart.py" domain.code_symbols)
        && symbols_of "src/shop/cart.py" domain.code_symbols == 2)
candidate_files_iff_example = candidate_files_iff ext domain "shop" "src/shop/" "src/shop/cart.py" 2
