-- ===== src/Graph/Federation/Gate/Failures.antt =====
-- What the gate reports.
use native.Mathlib.Omega.{arith}
use beadloom.Base.{
  String, Bool, true, false, not, ◌&&◌, ◌||◌, Option, none, some, List, [], ◌∷◌, ◌++◌, ◌==◌,
  string_equality, ◌≡◌, ◌≢◌, refl, eq_iff, contains, any_of, any_of-append, any_of-sort_by,
  is_blank, strip, lower, Bool-cases, All, subst, ap, inl, inr, ◌↔◌,
}
use beadloom.Graph.Edge.{Edge}
use beadloom.Graph.Contracts.{Contract}
use beadloom.Graph.Federation.Gate.{
  GateFailure, safe_default_fail_on, never_fail_verdicts, edge_text, contract_text, wanted,
  is_wanted, edge_failures, contract_failures, contract_failure, failure_less, gate_failures,
  gate_failure_remediation,
}

-- Some failure of the list is about the verdict.
abbrev pub reports : String → List GateFailure → Bool
reports verdict failures = any_of (λ f. f.verdict == verdict) failures

abbrev pub edge_judged : String → Edge → Bool
edge_judged verdict edge = lower (edge_text edge) == verdict

abbrev pub contract_judged : String → Contract → Bool
contract_judged verdict c = lower (contract_text c) == verdict

reports-edges :
    (chosen : List String) (verdict : String) (edges : List Edge)
    → reports verdict (edge_failures chosen edges)
      ≡ (is_wanted chosen verdict && any_of (edge_judged verdict) edges)
unfolding edge_failures
reports-edges chosen verdict [] = ground arith
reports-edges chosen verdict (edge ∷ edges) =
    ground (arith, reports-edges chosen verdict edges, eq_iff (lower (edge_text edge)) verdict)

reports-contracts :
    (chosen : List String) (verdict : String) (contracts : List Contract)
    → reports verdict (contract_failures chosen contracts)
      ≡ (is_wanted chosen verdict && any_of (contract_judged verdict) contracts)
unfolding contract_failures contract_failure
reports-contracts chosen verdict [] = ground arith
reports-contracts chosen verdict (c ∷ contracts) =
    ground
      (arith, reports-contracts chosen verdict contracts, eq_iff (lower (contract_text c)) verdict)

-- The entry of a fail-set asks for the verdict, which it may spell with white space around it and capitals.
abbrev pub asks_for : String → String → Bool
asks_for verdict entry = lower (strip entry) == verdict

lower_blank :
    (s verdict : String)
    → is_blank s ≡ true
    → is_blank verdict ≡ false
    → (lower s == verdict) ≡ false
unfolding is_blank lower
lower_blank String.[] String.[] h k = ground arith
lower_blank String.[] (String.◌∷◌ c s) h k = elim (Bool-cases (String.[] == String.◌∷◌ c s)) [
  | inl e ↦ absurd (ground (arith, ap is_blank ((eq_iff String.[] (String.◌∷◌ c s)).0 e)))
  | inr e ↦ e
]
lower_blank (String.◌∷◌ c s) verdict h k = ground arith

contains-wanted :
    (fail_on : List String) (verdict : String)
    → is_blank verdict ≡ false
    → contains (wanted fail_on) verdict ≡ any_of (asks_for verdict) fail_on
unfolding wanted
contains-wanted [] verdict h = refl
contains-wanted (v ∷ fail_on) verdict h = elim (Bool-cases (is_blank (strip v))) [
  | inl e ↦ ground (arith, lower_blank (strip v) verdict e h, contains-wanted fail_on verdict h)
  | inr e ↦ ground (arith, contains-wanted fail_on verdict h)
]

is_wanted_iff :
    (fail_on : List String) (verdict : String)
    → is_wanted (wanted fail_on) verdict
      ≡ (not (is_blank verdict) && any_of (asks_for verdict) fail_on)
unfolding is_wanted
is_wanted_iff fail_on verdict = elim (Bool-cases (is_blank verdict)) [
  | inl e ↦ ground arith
  | inr e ↦ ground (arith, contains-wanted fail_on verdict e)
]

-- The gate has a failure about a verdict exactly when the verdict is not empty, some entry of the fail-set
-- without the white space around it and in lower case is the verdict, and an edge or a contract has the
-- verdict.
pub gate_failures_iff :
    (edges : List Edge) (contracts : List Contract) (fail_on : List String) (verdict : String)
    → reports verdict (gate_failures edges contracts fail_on) ≡ (
        (not (is_blank verdict) && any_of (asks_for verdict) fail_on)
        && (any_of (edge_judged verdict) edges || any_of (contract_judged verdict) contracts))
unfolding gate_failures
gate_failures_iff edges contracts fail_on verdict =
    let chosen = wanted fail_on in
    ground (
      arith,
      any_of-sort_by (λ f. f.verdict == verdict) failure_less
          (edge_failures chosen edges ++ contract_failures chosen contracts),
      any_of-append (λ f. f.verdict == verdict) (edge_failures chosen edges)
          (contract_failures chosen contracts),
      reports-edges chosen verdict edges,
      reports-contracts chosen verdict contracts,
      is_wanted_iff fail_on verdict,
    )

asks_default :
    (verdict : String)
    → any_of (asks_for verdict) safe_default_fail_on ≡ contains safe_default_fail_on verdict
unfolding is_blank beadloom.Base.strip lower
asks_default verdict = refl

-- What holds of every item holds of an item of the list.
All-contains :
    (P : String → Type 0) (xs : List String) → All P xs → (a : String) → contains xs a ≡ true → P a
All-contains P [] h a m = ground (arith, m)
All-contains P (x ∷ xs) h a m = elim (Bool-cases (x == a)) [
  | inl e ↦ subst P ((eq_iff x a).0 e) h.0
  | inr e ↦ All-contains P xs h.1 a (ground (arith, m, e))
]

spared : All (λ v. contains safe_default_fail_on v ≡ false) never_fail_verdicts
spared = (refl, (refl, (refl, (refl, (refl, (refl, (refl, tt)))))))

-- With the default fail-set the gate has no failure about a verdict that a gate must never fail on.
pub default_gate-spares :
    (edges : List Edge) (contracts : List Contract) (verdict : String)
    → contains never_fail_verdicts verdict ≡ true
    → reports verdict (gate_failures edges contracts safe_default_fail_on) ≡ false
default_gate-spares edges contracts verdict never = ground (
  arith,
  gate_failures_iff edges contracts safe_default_fail_on verdict,
  asks_default verdict,
  All-contains (λ v. contains safe_default_fail_on v ≡ false) never_fail_verdicts spared verdict
      never,
)

-- A failure has no hint exactly when its verdict, in lower case, is not one of the default fail-set.
pub remediation-eq-none_iff :
    (failure : GateFailure)
    → (gate_failure_remediation failure ≡ none)
      ↔ (contains safe_default_fail_on (lower failure.verdict) ≡ false)
unfolding gate_failure_remediation
remediation-eq-none_iff failure =
    let v = lower failure.verdict in
    ground (
      arith,
      eq_iff v "breaking",
      eq_iff v "orphaned_consumer",
      eq_iff v "undeclared_producer",
      eq_iff v "undeclared",
      eq_iff v "drift",
      eq_iff "breaking" v,
      eq_iff "orphaned_consumer" v,
      eq_iff "undeclared_producer" v,
      eq_iff "undeclared" v,
      eq_iff "drift" v,
    )
