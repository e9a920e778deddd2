-- ===== src/Graph/Federation/Gate.antt =====
-- src/beadloom/graph/federation/gate.py: the verdicts that stop a pipeline. The proofs are in the module below.
pub mod Failures
use Prim.Native.Nat.{Ordering}
use Prim.Native.String.{compare, ◌++◌ as str_append}
use beadloom.Base.{
  String, Bool, true, false, not, ◌&&◌, ◌||◌, Option, none, some, List, [], ◌∷◌, ◌++◌,
  if◌then◌else◌, ◌==◌, string_equality, contains, is_empty, is_blank, strip, lower, join, sort_by,
}
use beadloom.Graph.Edge.{Edge, EdgeVerdict, cleanup_candidate, undeclared, unmapped}
use beadloom.Graph.Contracts.{
  Contract, ContractVerdict, confirmed, orphaned_consumer, undeclared_producer, breaking,
  missing_references, is_empty_mapping, classify,
}

abbrev pub safe_default_fail_on : List String
safe_default_fail_on =
    "breaking" ∷ "drift" ∷ "orphaned_consumer" ∷ "undeclared_producer" ∷ "undeclared" ∷ []

abbrev pub never_fail_verdicts : List String
never_fail_verdicts =
    "external" ∷ "expected" ∷ "dead" ∷ "unmapped" ∷ "confirmed" ∷ "ok" ∷ "cleanup_candidate" ∷ []

-- `GateFailure`
pub record GateFailure : Type 0 where
  pub kind : String
  pub identity : String
  pub verdict : String
  pub missing : List String

-- the values of the verdicts of an edge
unfoldable pub edge_value : EdgeVerdict → String
edge_value EdgeVerdict.ok = "ok"
edge_value EdgeVerdict.drift = "drift"
edge_value EdgeVerdict.expected = "expected"
edge_value cleanup_candidate = "cleanup_candidate"
edge_value undeclared = "undeclared"
edge_value EdgeVerdict.dead = "dead"
edge_value EdgeVerdict.external = "external"
edge_value unmapped = "unmapped"

-- the values of the verdicts of a contract
unfoldable pub contract_value : ContractVerdict → String
contract_value confirmed = "confirmed"
contract_value ContractVerdict.drift = "drift"
contract_value orphaned_consumer = "orphaned_consumer"
contract_value undeclared_producer = "undeclared_producer"
contract_value breaking = "breaking"
contract_value ContractVerdict.expected = "expected"
contract_value ContractVerdict.external = "external"
contract_value ContractVerdict.dead = "dead"

unfoldable pub verdict_or_empty : Option EdgeVerdict → String
unfolding edge_value
verdict_or_empty none = ""
verdict_or_empty (some v) = edge_value v

-- `str(edge.get("verdict", ""))`
abbrev pub edge_text : Edge → String
edge_text edge = verdict_or_empty edge.verdict

unfoldable pub verdict_or_classified : Contract → Option ContractVerdict → String
unfolding contract_value
verdict_or_classified c none = contract_value (classify c)
verdict_or_classified c (some v) = contract_value v

-- the key `verdict` that `to_report_dict` writes
abbrev pub contract_text : Contract → String
contract_text c = verdict_or_classified c c.verdict

-- the key `missing` that `to_report_dict` writes, or no names where it writes none
unfoldable pub reported_missing : Contract → List String
reported_missing c =
    if c.protocol == "graphql"
    then missing_references c
    else if c.protocol == "amqp"
        && not (is_empty_mapping c.exposed_body && is_empty_mapping c.referenced_body)
    then missing_references c
    else []

abbrev before : Ordering → Bool
before Ordering.lt = true
before _ = false

abbrev text_less : String → String → Bool
text_less a b = before (compare a b)

-- `_contract_failure`
unfoldable pub contract_failure : Contract → String → GateFailure
unfolding reported_missing
contract_failure c verdict = record {
  kind = "contract";
  identity = if is_blank c.contract_key then c.name else c.contract_key;
  verdict = verdict;
  missing = sort_by text_less (reported_missing c);
}

-- `{v.strip().lower() for v in fail_on if v.strip()}`
unfoldable pub wanted : List String → List String
wanted [] = []
wanted (v ∷ fail_on) =
    let rest = wanted fail_on in if is_blank (strip v) then rest else lower (strip v) ∷ rest

-- `verdict and verdict in wanted`
unfoldable pub is_wanted : List String → String → Bool
is_wanted chosen verdict = not (is_blank verdict) && contains chosen verdict

abbrev pub edge_failure : Edge → String → GateFailure
edge_failure edge verdict = record {
  kind = "edge";
  identity = str_append edge.src (str_append " --> " edge.dst);
  verdict = verdict;
  missing = [];
}

-- the first loop of `gate_failures`
unfoldable pub edge_failures : List String → List Edge → List GateFailure
unfolding is_wanted
edge_failures chosen [] = []
edge_failures chosen (edge ∷ edges) =
    let rest = edge_failures chosen edges in
    if is_wanted chosen (lower (edge_text edge))
    then edge_failure edge (lower (edge_text edge)) ∷ rest
    else rest

-- the second loop of `gate_failures`
unfoldable pub contract_failures : List String → List Contract → List GateFailure
unfolding is_wanted contract_failure
contract_failures chosen [] = []
contract_failures chosen (c ∷ contracts) =
    let rest = contract_failures chosen contracts in
    if is_wanted chosen (lower (contract_text c))
    then contract_failure c (lower (contract_text c)) ∷ rest
    else rest

abbrev then_less : Ordering → Bool → Bool
then_less Ordering.lt rest = true
then_less Ordering.eq rest = rest
then_less Ordering.gt rest = false

-- the order of `(f.kind, f.identity, f.verdict)`
unfoldable pub failure_less : GateFailure → GateFailure → Bool
failure_less f g =
    then_less (compare f.kind g.kind)
      (then_less (compare f.identity g.identity) (text_less f.verdict g.verdict))

-- `gate_failures`
unfoldable pub gate_failures : List Edge → List Contract → List String → List GateFailure
unfolding edge_failures contract_failures failure_less
gate_failures edges contracts fail_on =
    let chosen = wanted fail_on in
    sort_by failure_less (edge_failures chosen edges ++ contract_failures chosen contracts)

abbrev or_text : String → String → String
or_text s default = if is_blank s then default else s

abbrev missing_names : List String → String
missing_names [] = "the referenced surface"
missing_names (name ∷ names) = join ", " (name ∷ names)

-- `gate_failure_remediation`
unfoldable pub gate_failure_remediation : GateFailure → Option String
gate_failure_remediation failure =
    let verdict = lower failure.verdict in
    let identity = or_text failure.identity "<contract>" in
    if verdict == "breaking"
    then some (
        str_append "consumer references `" (
          str_append (missing_names failure.missing) (
            str_append "` absent from the producer SDL of `"
              (str_append identity "`; align the client or restore the field"))))
    else if verdict == "orphaned_consumer"
    then some (
        str_append "no producer for `"
          (str_append identity "`; add a producer or drop the consumer"))
    else if verdict == "undeclared_producer" || verdict == "undeclared"
    then some (
        str_append "no consumer for `"
          (str_append identity "`; add a consumer or stop producing it"))
    else if verdict == "drift"
    then some (
        str_append "`" (
          str_append identity
            "` is declared active but present on only one side; add the missing side or mark it deprecated/planned"))
    else none
