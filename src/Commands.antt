-- ===== src/Commands.antt =====
-- The command service of the master, internal/master/commands/service.go: the life of the commands
-- that are sent to agents and of the task records that stand for them.
pub mod Model
pub mod Create
pub mod Dispatch
pub mod Complete
pub mod Timeout
pub mod Evolution
pub mod Service
pub mod Results
pub mod Delivery
pub mod Scan
pub mod Limit
pub mod Restore
pub mod Cancel
pub mod Expiry
mod Examples
