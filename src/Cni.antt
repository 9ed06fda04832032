-- ===== src/Cni.antt =====
-- pkg/cni/rpc.go and cmd/purenet/main.go: the contract of the agent and its thin client.
pub mod Client
pub mod Service
pub mod Shim
pub mod Outcome
mod Tests
mod Rpc
unfoldable pub use Rpc.*
