-- ===== src/Context.antt =====
-- src/beadloom/context_oracle: which nodes a question is about, and what surrounds them.
pub mod Distance
pub mod Suggest
pub mod Subgraph
pub mod Bundle
mod Tests
