-- ===== src/Graph/Edge.antt =====
-- The edge of a federated graph: the `dict` that `_resolve_edge` of
-- src/beadloom/graph/federation/reconcile.py builds and that src/beadloom/graph/contracts.py reads.
use beadloom.Base.{String, Option}
use beadloom.Json.{Value, Fields}

-- `EdgeVerdict`
pub data EdgeVerdict : Type 0 where
  ok drift expected cleanup_candidate undeclared dead external unmapped : EdgeVerdict

-- The keys of the `dict`; `landscape` and `contract` are set only where they are declared, and
-- `verdict` once it is assigned.
pub record Edge : Type 0 where
  pub src : String
  pub dst : String
  pub kind : Option Value
  pub lifecycle : Value
  pub repo : String
  pub landscape : Option String
  pub contract : Option Fields
  pub verdict : Option EdgeVerdict
