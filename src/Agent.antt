-- ===== src/Agent.antt =====
-- pkg/agent/server.go: the gRPC server of the agent.
pub mod Access
pub mod Server
pub mod Isolation
pub mod Service
pub mod Main
