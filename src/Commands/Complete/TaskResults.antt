-- ===== src/Commands/Complete/TaskResults.antt =====
-- `CompleteTaskResultWith` and `CompleteSnapshotListWith` of internal/master/commands/service.go. When
-- the commit fails, the source returns its flag beside the error; here an error comes alone.
use vault_fleet.Prelude.{
  ℕ, Bool, true, false, not, ◌&&◌, Option, none, some, [], ◌==◌, Text, text_eq, is_empty,
  if◌then◌else◌,
}
use vault_fleet.Engine.{
  command_not_active, Result, ok, err, M, pure, fail, ◌>>=◌, ◌>>◌, attempt, now, transaction,
}
use vault_fleet.Commands.Model.{
  CommandStatus, TaskStatus, MessageType, TaskType, AgentCommand, TaskHistory, Report, Documents,
  Tables, Env, type_eq, is_terminal, is_task_terminal, result_status, is_success, task_rank,
  is_long_running, task_type_for_command, nullable_time, update_commands, update_tasks,
  first_command, of_command,
}
use vault_fleet.Commands.Dispatch.{live_id}

-- `protocol.TaskResultPayload`: `raw` is the payload as JSON, and so are the documents; a time of
-- zero is the zero time.
pub record TaskResult : Type 0 where
  pub raw : Text
  pub agent_id : Text
  pub task_type : TaskType
  pub status : TaskStatus
  pub snapshot_id : Text
  pub policy_name : Text
  pub report : Report
  pub error_log : Text
  pub started_at : ℕ
  pub finished_at : ℕ
  pub docker : Option Text
  pub database : Option Text
  pub verification : Option Text
  pub artifact_naming : Option Text
  pub restore_items : Option Text

abbrev pub result_finished_at : TaskResult → ℕ → Option ℕ
result_finished_at r t =
    if r.finished_at == 0 && is_task_terminal r.status then some t else nullable_time r.finished_at

abbrev pub mark_result : TaskResult → ℕ → AgentCommand → AgentCommand
mark_result result t r = record r {
  status = result_status result.status;
  result = result.raw;
  error_message = if is_success result.status then [] else result.error_log;
  completed_at = some t;
  updated_at = t;
}

abbrev pub keep_or : Option Text → Text → Text
keep_or none old = old
keep_or (some t) old = t

abbrev pub keep_or_time : Option ℕ → Option ℕ → Option ℕ
keep_or_time none old = old
keep_or_time (some t) old = some t

abbrev pub new_documents : TaskResult → Documents → Documents
new_documents result d = record {
  docker = keep_or result.docker d.docker;
  database = keep_or result.database d.database;
  verification = keep_or result.verification d.verification;
  artifact_naming = keep_or result.artifact_naming d.artifact_naming;
  restore_items = keep_or result.restore_items d.restore_items;
}

abbrev pub mark_task_result : TaskResult → ℕ → TaskHistory → TaskHistory
mark_task_result result t r = record r {
  status = result.status;
  snapshot_id = result.snapshot_id;
  report = result.report;
  documents = new_documents result r.documents;
  policy_name = if is_empty result.policy_name then r.policy_name else result.policy_name;
  error_log = result.error_log;
  started_at = keep_or_time (nullable_time result.started_at) r.started_at;
  finished_at = result_finished_at result t;
  updated_at = t;
}

-- `agent_id = ? AND message_id = ? AND type IN (long running) AND status NOT IN terminalStatuses()`.
abbrev pub awaits_result : Text → Text → AgentCommand → Bool
awaits_result agent_id message_id c =
    text_eq c.agent_id agent_id
    && text_eq c.message_id message_id
    && is_long_running c.type
    && not (is_terminal c.status)

-- `taskTypeForCommand(command.Type)` gives a type, and it is the result's.
abbrev pub expects : MessageType → TaskType → Bool
expects type task_type = elim (task_type_for_command type) [
  | none ↦ false
  | some expected ↦ task_rank expected == task_rank task_type
]

-- `RowsAffected == 0` makes the transaction fail with `errCommandNotActive`.
abbrev pub require_rows : ℕ → M Tables (Unit {0})
require_rows rows = if rows == 0 then fail command_not_active else pure tt

unfoldable pub apply_result :
    Env → TaskResult → ℕ → M Tables (Unit {0}) → AgentCommand → M Tables Bool
apply_result env result t apply c = do
  apply
  rows ← update_commands env.engine (live_id c.id) (mark_result result t)
  require_rows rows
  update_tasks env.engine (of_command c.id) (mark_task_result result t)
  pure true

unfoldable pub complete_found :
    Env → TaskResult → ℕ → M Tables (Unit {0}) → Option AgentCommand → M Tables Bool
unfolding apply_result
complete_found env result t apply none = pure false
complete_found env result t apply (some c) =
    if expects c.type result.task_type then apply_result env result t apply c else pure false

-- `errCommandNotActive` is reported as "not completed".
abbrev pub inactive_as_false : Result Bool → M Tables Bool
inactive_as_false (ok completed) = pure completed
inactive_as_false (err command_not_active) = pure false
inactive_as_false (err e) = fail e

-- The agent of a result is the session's, or the payload's if there is none.
abbrev pub agent_or : Text → Text → Text
agent_or agent_id fallback = if is_empty agent_id then fallback else agent_id

unfoldable pub complete_rows :
    Env → Text → Text → TaskResult → ℕ → M Tables (Unit {0}) → M Tables Bool
unfolding complete_found
complete_rows env agent_id message_id result t apply = do
  found ← first_command env.engine (awaits_result agent_id message_id)
  complete_found env result t apply found

-- A callback of nil is `pure tt`.
unfoldable pub complete_task_result_with :
    Env → Text → Text → TaskResult → M Tables (Unit {0}) → M Tables Bool
complete_task_result_with env agent_id message_id result apply =
    if is_empty message_id then pure false else do
      t ← now env.engine
      completed ← attempt (
          transaction env.engine
            (complete_rows env (agent_or agent_id result.agent_id) message_id result t apply))
      inactive_as_false completed

unfoldable pub complete_task_result : Env → Text → Text → TaskResult → M Tables (Unit {0})
unfolding complete_task_result_with
complete_task_result env agent_id message_id result = do
  completed ← complete_task_result_with env agent_id message_id result (pure tt)
  pure tt

-- `protocol.SnapshotListRespPayload`, as far as the service reads it.
pub record SnapshotList : Type 0 where
  pub raw : Text
  pub agent_id : Text

abbrev pub awaits_snapshots : Text → Text → AgentCommand → Bool
awaits_snapshots agent_id message_id c =
    text_eq c.agent_id agent_id
    && text_eq c.message_id message_id
    && type_eq c.type MessageType.snapshot_list_req
    && not (is_terminal c.status)

abbrev pub mark_snapshots : SnapshotList → ℕ → AgentCommand → AgentCommand
mark_snapshots result t r = record r {
  status = CommandStatus.succeeded;
  result = result.raw;
  error_message = [];
  completed_at = some t;
  updated_at = t;
}

unfoldable pub complete_snapshots :
    Env → SnapshotList → ℕ → M Tables (Unit {0}) → Option AgentCommand → M Tables Bool
complete_snapshots env result t apply none = pure false
complete_snapshots env result t apply (some c) = do
  apply
  rows ← update_commands env.engine (live_id c.id) (mark_snapshots result t)
  require_rows rows
  pure true

unfoldable pub complete_snapshot_list_with :
    Env → Text → Text → SnapshotList → M Tables (Unit {0}) → M Tables Bool
unfolding complete_snapshots
complete_snapshot_list_with env agent_id message_id result apply =
    if is_empty message_id then pure false else do
      t ← now env.engine
      completed ← attempt (
          transaction env.engine (do
            found ←
                first_command env.engine
                  (awaits_snapshots (agent_or agent_id result.agent_id) message_id)
            complete_snapshots env result t apply found))
      inactive_as_false completed

unfoldable pub complete_snapshot_list : Env → Text → Text → SnapshotList → M Tables (Unit {0})
unfolding complete_snapshot_list_with
complete_snapshot_list env agent_id message_id result = do
  completed ← complete_snapshot_list_with env agent_id message_id result (pure tt)
  pure tt
