-- ===== src/Graph/Contracts/Classify.antt =====
-- The truth table of `classify`.
use beadloom.Base.{
  Bool, true, false, not, ◌&&◌, ◌||◌, ◌==◌, string_equality, ◌≡◌, ◌≢◌, ◌↔◌, ◌⊎◌, arith, is_empty,
  eq_iff,
}
use beadloom.Graph.Contracts.{
  Contract, confirmed, drift, orphaned_consumer, undeclared_producer, breaking, expected, external,
  dead, producers, consumers, missing_references, classify,
}

-- The declared lifecycle leaves the verdict to what is present.
abbrev pub IsLive : Contract → Type 0
IsLive c =
    (c.lifecycle ≢ "external")
    × (c.lifecycle ≢ "dead")
    × (c.lifecycle ≢ "planned")
    × (c.lifecycle ≢ "deprecated")

-- A protocol whose surface is compared, and something that the producer breaks of it.
abbrev pub is_broken : Contract → Bool
is_broken c =
    (c.protocol == "graphql" || c.protocol == "amqp") && not (is_empty (missing_references c))

abbrev HasBoth : Contract → Type 0
HasBoth c = (is_empty (producers c) ≡ false) × (is_empty (consumers c) ≡ false)

-- What each verdict stands for.
pub record Verdicts (c : Contract) : Type 0 where
  pub when_external : (classify c ≡ external) ↔ (c.lifecycle ≡ "external")
  pub when_dead : (classify c ≡ dead) ↔ (c.lifecycle ≡ "dead")
  pub when_expected :
      (classify c ≡ expected) ↔ ((c.lifecycle ≡ "planned") ⊎ (c.lifecycle ≡ "deprecated"))
  pub when_breaking : (classify c ≡ breaking) ↔ (IsLive c × HasBoth c × (is_broken c ≡ true))
  pub when_confirmed : (classify c ≡ confirmed) ↔ (IsLive c × HasBoth c × (is_broken c ≡ false))
  pub when_orphaned :
      (classify c ≡ orphaned_consumer)
      ↔ (IsLive c × (is_empty (producers c) ≡ true) × (is_empty (consumers c) ≡ false))
  pub when_undeclared :
      (classify c ≡ undeclared_producer) ↔ (IsLive c × (is_empty (consumers c) ≡ true))
  pub never_drift : classify c ≢ drift

-- `classify` decides by the declared intent first: external, dead, and planned or deprecated contracts have the
-- verdicts external, dead and expected, and no others have. Of the rest, a contract with producers and
-- consumers is breaking if its protocol has a surface and something of it is missing, and confirmed if not;
-- one with consumers only is an orphaned consumer; one with no consumer is an undeclared producer. No
-- contract has the verdict drift.
pub classify-Verdicts : (c : Contract) → Verdicts c
unfolding classify
classify-Verdicts c = record {
  when_external = ground (
    arith,
    eq_iff c.lifecycle "external",
    eq_iff c.lifecycle "dead",
    eq_iff c.lifecycle "planned",
    eq_iff c.lifecycle "deprecated",
  );
  when_dead = ground (
    arith,
    eq_iff c.lifecycle "external",
    eq_iff c.lifecycle "dead",
    eq_iff c.lifecycle "planned",
    eq_iff c.lifecycle "deprecated",
    eq_iff "external" "dead",
  );
  when_expected = ground (
    arith,
    eq_iff c.lifecycle "external",
    eq_iff c.lifecycle "dead",
    eq_iff c.lifecycle "planned",
    eq_iff c.lifecycle "deprecated",
    eq_iff "external" "planned",
    eq_iff "external" "deprecated",
    eq_iff "dead" "planned",
    eq_iff "dead" "deprecated",
  );
  when_breaking = ground (
    arith,
    eq_iff c.lifecycle "external",
    eq_iff c.lifecycle "dead",
    eq_iff c.lifecycle "planned",
    eq_iff c.lifecycle "deprecated",
  );
  when_confirmed = ground (
    arith,
    eq_iff c.lifecycle "external",
    eq_iff c.lifecycle "dead",
    eq_iff c.lifecycle "planned",
    eq_iff c.lifecycle "deprecated",
  );
  when_orphaned = ground (
    arith,
    eq_iff c.lifecycle "external",
    eq_iff c.lifecycle "dead",
    eq_iff c.lifecycle "planned",
    eq_iff c.lifecycle "deprecated",
  );
  when_undeclared = ground (
    arith,
    eq_iff c.lifecycle "external",
    eq_iff c.lifecycle "dead",
    eq_iff c.lifecycle "planned",
    eq_iff c.lifecycle "deprecated",
  );
  never_drift = ground (
    arith,
    eq_iff c.lifecycle "external",
    eq_iff c.lifecycle "dead",
    eq_iff c.lifecycle "planned",
    eq_iff c.lifecycle "deprecated",
  );
}
