-- ===== src/Graph/Rules/Selection.antt =====
-- What a matcher of src/beadloom/graph/rules/types.py selects, and the tags that the evaluators load for it.
use beadloom.Base.{
  String, Bool, true, false, not, Option, none, some, List, ◌≡◌, refl, ◌↔◌, string_equality, eq_iff,
  contains, arith, sym, ◌∙◌, if◌then◌else◌,
}
use beadloom.Graph.Rules.Types.{NodeMatcher, differs, lacks, matches}
use beadloom.Graph.Rules.Database.{Database, get_node_tags}
use beadloom.Graph.Rules.Deny.{has_tag, is_some, loaded}

abbrev pub Agrees : Option String → String → Type 0
Agrees none found = Unit
Agrees (some wanted) found = wanted ≡ found

abbrev pub Carries : Option String → List String → Type 0
Carries none tags = Unit
Carries (some tag) tags = contains tags tag ≡ true

-- The node has the name, the kind and the tag that the matcher asks for, and is not excluded.
abbrev pub Selects : Database → NodeMatcher → String → String → Type 0
Selects db m ref_id kind =
    (contains m.exclude ref_id ≡ false)
    × Agrees m.ref_id ref_id
    × Agrees m.kind kind
    × Carries m.tag (get_node_tags db ref_id)

-- Both are there, and so related.
abbrev pub OnBoth {ℓ κ} :
    {A : Type ℓ} {B : Type κ} → (A → B → Type 0) → Option A → Option B → Type 0
OnBoth P (some a) (some b) = P a b
OnBoth P (some a) none = ⊥
OnBoth P none b = ⊥

pub differs_iff :
    (wanted : Option String) (found : String) → (differs wanted found ≡ false) ↔ Agrees wanted found
differs_iff none found = (λ _. tt, λ _. refl)
differs_iff (some wanted) found = ground (arith, eq_iff wanted found)

lacks_iff :
    (tag : Option String) (tags : List String) → (lacks tag (some tags) ≡ false) ↔ Carries tag tags
lacks_iff none tags = (λ _. tt, λ _. refl)
lacks_iff (some tag) tags = ground arith

lacks-loaded :
    (db : Database) (tag : Option String) (any_tag_rule : Bool) (ref_id : String)
    → (is_some tag ≡ true → any_tag_rule ≡ true)
    → lacks tag (loaded any_tag_rule db ref_id) ≡ lacks tag (some (get_node_tags db ref_id))
lacks-loaded db tag true ref_id h = refl
lacks-loaded db none false ref_id h = refl
lacks-loaded db (some tag) false ref_id h = absurd (ground (arith, h refl))

passes_iff :
    (a b c d : Bool)
    → ((if a then false else if b then false else if c then false else not d) ≡ true)
      ↔ ((a ≡ false) × (b ≡ false) × (c ≡ false) × (d ≡ false))
passes_iff a b c d = ground arith

-- A matcher selects by the tags of a node also where they are loaded only if some rule has a tag.
pub matches_iff :
    (db : Database) (m : NodeMatcher) (any_tag_rule : Bool) (ref_id kind : String)
    → (has_tag m ≡ true → any_tag_rule ≡ true)
    → (matches m ref_id kind (loaded any_tag_rule db ref_id) ≡ true) ↔ Selects db m ref_id kind
unfolding matches
matches_iff db m any_tag_rule ref_id kind h =
    let a = differs_iff m.ref_id ref_id in
    let b = differs_iff m.kind kind in
    let c = lacks_iff m.tag (get_node_tags db ref_id) in
    let d = lacks-loaded db m.tag any_tag_rule ref_id h in
    let p =
      passes_iff (contains m.exclude ref_id) (differs m.ref_id ref_id) (differs m.kind kind)
        (lacks m.tag (loaded any_tag_rule db ref_id)) in
    (
      λ e. let (out, same, kinds, tags) = p.0 e in (out, a.0 same, b.0 kinds, c.0 (sym d ∙ tags)),
      λ (out, same, kinds, tags). p.1 (out, a.1 same, b.1 kinds, d ∙ c.1 tags),
    )

-- It is there, and so.
abbrev pub OnOne {ℓ} : {A : Type ℓ} → (A → Type 0) → Option A → Type 0
OnOne P none = ⊥
OnOne P (some a) = P a
