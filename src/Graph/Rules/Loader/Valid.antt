-- ===== src/Graph/Rules/Loader/Valid.antt =====
-- What a rule that is loaded satisfies.
use beadloom.Base.{
  String, Bool, true, false, not, ◌&&◌, Option, none, some, List, [], ◌∷◌, string_equality,
  nat_equality, contains, strip, is_blank, ◌≡◌, refl, All, Bool-cases, inl, inr,
}
use beadloom.Json.{Value, Fields, get}
use beadloom.Graph.Rules.Types.{
  NodeMatcher, DenyRule, RequireRule, ImportBoundaryRule, ForbidEdgeRule,
}
use beadloom.Graph.Rules.Result.{
  Ensures, bind_lem, then_lem, after_lem, present, text_or_none, texts,
}
use beadloom.Graph.Rules.Blocks.{
  is_none, none_or_in, valid_node_kinds, valid_edge_kinds, parse_node_matcher, check_kinds,
  check_edge_kind, parse_deny_rule, parse_require_rule, glob_or, parse_forbid_import_rule,
  parse_forbid_rule,
}
use beadloom.Graph.Rules.Loader.{valid_rule_severities}

-- A matcher asks for a known kind, if it asks for one, and for something.
abbrev pub IsMatcher : NodeMatcher → Type 0
IsMatcher m = none_or_in valid_node_kinds m.kind ≡ true

abbrev pub IsSelective : NodeMatcher → Type 0
IsSelective m = (not (is_none m.ref_id && (is_none m.kind && is_none m.tag)) ≡ true) × IsMatcher m

abbrev pub AreKinds : List String → Type 0
AreKinds kinds = All (λ kind. contains valid_edge_kinds kind ≡ true) kinds

abbrev pub IsText : String → Type 0
IsText text = is_blank (strip text) ≡ false

abbrev pub IsSeverity : String → Type 0
IsSeverity severity = contains valid_rule_severities severity ≡ true

-- The rule has the name and the severity of its entry.
abbrev pub IsTagged : String → String → String → String → Type 0
IsTagged name severity own_name own_severity = (own_name ≡ name) × (own_severity ≡ severity)

pub parse_node_matcher-IsSelective :
    (block : Fields) (context : String)
    → Ensures IsSelective (parse_node_matcher block context false)
unfolding parse_node_matcher
parse_node_matcher-IsSelective block context =
    then_lem IsSelective _ _ _ (λ some_of. then_lem IsSelective _ _ _ (λ known. (some_of, known)))

parse_node_matcher-IsMatcher :
    (block : Fields) (context : String) (allow_empty : Bool)
    → Ensures IsMatcher (parse_node_matcher block context allow_empty)
unfolding parse_node_matcher
parse_node_matcher-IsMatcher block context allow_empty =
    then_lem IsMatcher _ _ _ (λ _. then_lem IsMatcher _ _ _ (λ known. known))

pub check_kinds-AreKinds :
    (name place : String) (kinds : List String) → Ensures AreKinds (check_kinds name place kinds)
unfolding check_kinds
check_kinds-AreKinds name place [] = tt
check_kinds-AreKinds name place (kind ∷ kinds) = then_lem AreKinds _ _ _ (λ valid.
    bind_lem AreKinds AreKinds _ _ (check_kinds-AreKinds name place kinds)
      (λ checked rest. (valid, rest)))

abbrev pub IsDeny : DenyRule → Type 0
IsDeny r = IsSelective r.from_matcher × IsSelective r.to_matcher × AreKinds r.unless_edge

abbrev pub IsDenyOf : String → String → DenyRule → Type 0
IsDenyOf name severity r = IsDeny r × IsTagged name severity r.name r.severity

pub parse_deny_rule-IsDeny :
    (name description : String) (block : Fields) (severity : String)
    → Ensures (IsDenyOf name severity) (parse_deny_rule name description block severity)
unfolding parse_deny_rule
parse_deny_rule-IsDeny name description block severity =
    after_lem (IsDenyOf name severity) _ _ (λ from_block.
      after_lem (IsDenyOf name severity) _ _ (λ to_block.
        bind_lem IsSelective (IsDenyOf name severity) _ _
          (parse_node_matcher-IsSelective from_block _)
          (λ from_matcher f.
            bind_lem IsSelective (IsDenyOf name severity) _ _
              (parse_node_matcher-IsSelective to_block _)
              (λ to_matcher t. after_lem (IsDenyOf name severity) _ _ (λ kinds.
                bind_lem AreKinds (IsDenyOf name severity) _ _
                  (check_kinds-AreKinds name "unless_edge" (texts kinds))
                  (λ unless_edge u. ((f, t, u), (refl, refl))))))))

abbrev pub IsKind : Option String → Type 0
IsKind edge_kind = none_or_in valid_edge_kinds edge_kind ≡ true

check_edge_kind-IsKind :
    (name : String) (edge_kind : Option String) → Ensures IsKind (check_edge_kind name edge_kind)
unfolding check_edge_kind
check_edge_kind-IsKind name edge_kind = then_lem IsKind _ _ _ (λ valid. valid)

abbrev pub IsRequire : RequireRule → Type 0
IsRequire r = IsSelective r.for_matcher × IsMatcher r.has_edge_to × IsKind r.edge_kind

abbrev pub IsRequireOf : String → String → RequireRule → Type 0
IsRequireOf name severity r = IsRequire r × IsTagged name severity r.name r.severity

pub parse_require_rule-IsRequire :
    (name description : String) (block : Fields) (severity : String)
    → Ensures (IsRequireOf name severity) (parse_require_rule name description block severity)
unfolding parse_require_rule
parse_require_rule-IsRequire name description block severity =
    after_lem (IsRequireOf name severity) _ _ (λ for_block.
      after_lem (IsRequireOf name severity) _ _ (λ edge_block.
        bind_lem IsSelective (IsRequireOf name severity) _ _
          (parse_node_matcher-IsSelective for_block _)
          (λ for_matcher f.
            bind_lem IsMatcher (IsRequireOf name severity) _ _
              (parse_node_matcher-IsMatcher edge_block _ true)
              (λ has_edge_to t.
                bind_lem IsKind (IsRequireOf name severity) _ _
                  (check_edge_kind-IsKind name (text_or_none (present (get "edge_kind" block))))
                  (λ edge_kind k. ((f, t, k), (refl, refl)))))))

abbrev pub IsForbid : ForbidEdgeRule → Type 0
IsForbid r = IsSelective r.from_matcher × IsSelective r.to_matcher × IsKind r.edge_kind

abbrev pub IsForbidOf : String → String → ForbidEdgeRule → Type 0
IsForbidOf name severity r = IsForbid r × IsTagged name severity r.name r.severity

pub parse_forbid_rule-IsForbid :
    (name description : String) (block : Fields) (severity : String)
    → Ensures (IsForbidOf name severity) (parse_forbid_rule name description block severity)
unfolding parse_forbid_rule
parse_forbid_rule-IsForbid name description block severity =
    after_lem (IsForbidOf name severity) _ _ (λ from_block.
      after_lem (IsForbidOf name severity) _ _ (λ to_block.
        bind_lem IsSelective (IsForbidOf name severity) _ _
          (parse_node_matcher-IsSelective from_block _)
          (λ from_matcher f.
            bind_lem IsSelective (IsForbidOf name severity) _ _
              (parse_node_matcher-IsSelective to_block _)
              (λ to_matcher t.
                bind_lem IsKind (IsForbidOf name severity) _ _
                  (check_edge_kind-IsKind name (text_or_none (present (get "edge_kind" block))))
                  (λ edge_kind k. ((f, t, k), (refl, refl)))))))

pub glob_or-IsText : (message : String) (v : Option Value) → Ensures IsText (glob_or message v)
unfolding glob_or
glob_or-IsText message none = tt
glob_or-IsText message (some Value.null) = tt
glob_or-IsText message (some (Value.bool _)) = tt
glob_or-IsText message (some (Value.num _)) = tt
glob_or-IsText message (some (Value.obj _)) = tt
glob_or-IsText message (some (Value.arr _)) = tt
glob_or-IsText message (some (Value.str glob)) = elim (Bool-cases (is_blank (strip glob))) [
  | inl e ↦ rw e tt
  | inr e ↦ rw e e
]

abbrev pub IsBoundary : ImportBoundaryRule → Type 0
IsBoundary r = IsText r.from_glob × IsText r.to_glob

abbrev pub IsBoundaryOf : String → String → ImportBoundaryRule → Type 0
IsBoundaryOf name severity r = IsBoundary r × IsTagged name severity r.name r.severity

pub parse_forbid_import_rule-IsBoundary :
    (name description : String) (block : Fields) (severity : String)
    → Ensures
        (IsBoundaryOf name severity)
        (parse_forbid_import_rule name description block severity)
unfolding parse_forbid_import_rule
parse_forbid_import_rule-IsBoundary name description block severity =
    bind_lem IsText (IsBoundaryOf name severity) _ _ (glob_or-IsText _ (get "from" block))
      (λ from_glob f.
        bind_lem IsText (IsBoundaryOf name severity) _ _ (glob_or-IsText _ (get "to" block))
          (λ to_glob t. ((f, t), (refl, refl))))
