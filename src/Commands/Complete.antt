-- ===== src/Commands/Complete.antt =====
-- How commands end in internal/master/commands/service.go: acknowledgements, task results,
-- snapshot lists, failures, and cancelling.
mod PolicyAck
mod TaskResults
mod Ending
unfoldable pub use PolicyAck.*
unfoldable pub use TaskResults.*
unfoldable pub use Ending.*
