-- ===== src/Agent/Access.antt =====
-- The `containerAccessArbitrator` of pkg/agent/server.go, as handlers that run side by side. Its
-- mutex makes each pass of the loop in `lock`, from `L.Lock()` or the return of `Wait` to `Wait` or
-- `L.Unlock()`, and the whole of `unlock`, one step. `Wait` puts the handler to sleep and is left
-- only after a `Broadcast`, which wakes every sleeper (package `sync`).
mod Defs
pub mod Safety
pub mod Weights
pub mod Draining
mod Tests
pub use Defs.*
