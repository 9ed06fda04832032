-- ===== src/Network/Vxlan.antt =====
-- pkg/network/vxlan.go.
pub mod Mac
pub mod Peers
pub mod Separate
pub mod Removal
pub mod Setup
mod Defs
unfoldable pub use Defs.*
