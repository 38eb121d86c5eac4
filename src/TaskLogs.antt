-- ===== src/TaskLogs.antt =====
-- The task logs of the master, internal/master/tasklogs/buffer.go: the lines that agents send about
-- their tasks, kept in memory within limits and written to the table of task logs.
pub mod Model
pub mod Limits
pub mod Persist
pub mod Buffer
pub mod Pages
pub mod Calls
pub mod Counted
pub mod Restart
pub mod Mirror
pub mod Reload
pub mod Roundtrip
pub mod Forget
mod Examples
