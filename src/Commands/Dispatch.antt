-- ===== src/Commands/Dispatch.antt =====
-- The dispatch of commands in internal/master/commands/service.go: preparing a message, recording
-- the dispatch, sending, and taking a failed dispatch back.
mod Prepare
mod Record
mod Send
unfoldable pub use Prepare.*
unfoldable pub use Record.*
unfoldable pub use Send.*
