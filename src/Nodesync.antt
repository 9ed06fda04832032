-- ===== src/Nodesync.antt =====
-- pkg/nodesync: what is programmed on the host for each remote node, by the events of the nodes.
pub mod Node
pub mod Conf
pub mod Handlers
pub mod Events
pub mod Start
pub mod Backend
pub mod Tracking
pub mod Replace
pub mod Cluster
pub mod Hostgw
pub mod Vxlan
pub mod Sample
mod Tests
