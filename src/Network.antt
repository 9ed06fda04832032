-- ===== src/Network.antt =====
-- pkg/network: the host's links, addresses, routes and neighbours.
pub mod Kernel
pub mod Nft
pub mod Action
pub mod Entering
pub mod Keeps
pub mod Yields
pub mod Namespaces
pub mod Vxlan
pub mod Veth
pub mod Apart
pub mod Memory
pub mod Spaces
mod Tests
