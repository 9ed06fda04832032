-- ===== src/Nodesync/Start.antt =====
-- `New` and the two `Run` of pkg/nodesync: what is done before the events of nodes come in.
pub mod Safety
mod Defs
unfoldable pub use Defs.*
