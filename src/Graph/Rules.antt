-- ===== src/Graph/Rules.antt =====
-- The rule engine, src/beadloom/graph/rules.
pub mod Types
pub mod Database
pub mod Externals
pub mod Deny
pub mod Require
pub mod ForbidEdge
pub mod ImportBoundary
pub mod Layers
pub mod Cardinality
pub mod Cycles
pub mod Modules
pub mod Result
pub mod References
pub mod Blocks
pub mod Limits
pub mod Loader
pub mod Selection
pub mod Conformance
pub mod Evaluate
