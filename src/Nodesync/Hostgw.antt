-- ===== src/Nodesync/Hostgw.antt =====
-- pkg/nodesync/hostgw.go: the handlers of the host-gateway mode, and the route of a peer.
pub mod Routes
mod Defs
unfoldable pub use Defs.*
