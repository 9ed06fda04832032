-- ===== src/Nodesync/Vxlan.antt =====
-- pkg/nodesync/vxlan.go: the handlers of the VXLAN mode, and the three entries of a peer.
pub mod Peers
pub mod Overlay
mod Defs
unfoldable pub use Defs.*
