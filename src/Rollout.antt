-- ===== src/Rollout.antt =====
-- Staged upgrades of the agents, internal/master/agentrollout/service.go.
pub mod Model
pub mod Input
pub mod Plan
pub mod Create
pub mod Advance
pub mod Heartbeat
pub mod Evolution
pub mod Service
mod Examples
