-- ===== src/Network/Veth.antt =====
-- pkg/network/network.go.
pub mod Names
pub mod Teardown
pub mod Masquerade
mod Defs
unfoldable pub use Defs.*
