-- ===== src/Ipam.antt =====
-- pkg/ipam/ipam.go: the allocator of pod addresses in one pod CIDR. Every method holds the mutex
-- from its first line to its return, so a call is one step on the allocator and the disk.
pub mod Store
mod Defs
pub mod Scan
pub mod Invariant
pub mod Persist
pub mod Calls
pub mod Release
pub mod Load
pub mod Restart
pub mod Fresh
pub mod Run
pub mod Pool
pub mod Capacity
pub mod Retry
pub mod Reuse
pub mod Memory
mod Tests
unfoldable pub use Defs.*
