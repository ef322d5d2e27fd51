-- ===== src/Graph.antt =====
-- src/osbench/graph.py: the capability graph over the Contract corpus.
pub mod Adjacency
pub mod Closure
pub mod Queries
pub mod Frontier
pub mod Topology
pub mod Outputs
