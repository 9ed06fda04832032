-- ===== src/Agent/Main.antt =====
-- cmd/agent/main.go: the start of the agent.
pub mod Stages
pub mod Join
pub mod Joined
pub mod Order
pub mod Served
pub mod Command
mod Tests
mod Defs
unfoldable pub use Defs.*
