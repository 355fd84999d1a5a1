-- ===== src/Graph.antt =====
-- Reachability of declarations, of package graph.
pub mod Structure
pub mod Names
pub mod Edges
pub mod Visit
pub mod Paths
pub mod Closed
pub mod Start
pub mod Bounds
pub mod Report
pub mod Witness
pub mod Reached
pub mod Verdict
pub mod Outcome
