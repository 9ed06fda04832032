-- ===== src/Agent/Server.antt =====
-- The gRPC handlers of pkg/agent/server.go. A handler holds the lock of its container
-- (Agent/Access) from its first step to its return.
pub mod Pods
pub mod Asked
pub mod Again
pub mod Serving
pub mod Health
pub mod Home
pub mod Steps
pub mod Opening
pub mod Wiring
pub mod Recheck
pub mod Teardown
pub mod Bystander
pub mod Undisturbed
pub mod Coexistence
pub mod Company
pub mod Neighbours
pub mod Sample
mod Tests
mod Defs
mod Handlers
unfoldable pub use Defs.*
unfoldable pub use Handlers.*
