-- ===== src/Graph.antt =====
-- The graph of symbols and their dependencies: apps/worker/src/indexing/graph.
pub mod CallResolver
pub mod RepoContext
pub mod Paths
pub mod ImportResolver
