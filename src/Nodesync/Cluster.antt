-- ===== src/Nodesync/Cluster.antt =====
-- The nodes of the cluster, as client-go keeps and tells them, and the controller that hears.
pub mod Defs
pub mod Agreement
pub mod Handling
pub mod Convergence
mod Tests
