-- ===== src/PolicyStore.antt =====
-- The agent's files, internal/agent/policy/store.go: the policies that it has been sent, and the results
-- of tasks that the master has not taken yet.
pub mod Files
pub mod Policies
pub mod Pending
pub mod Roundtrip
mod Examples
