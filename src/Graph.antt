-- ===== src/Graph.antt =====
-- The `graph` domain (src/beadloom/graph).
pub mod GraphqlBreaking
pub mod AmqpBody
pub mod Refs
pub mod Edge
pub mod Contracts
pub mod Federation
pub mod Rules
pub mod Diff
