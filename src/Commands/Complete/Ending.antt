-- ===== src/Commands/Complete/Ending.antt =====
-- `completeCommand`, its callers, and `CancelCommand` of internal/master/commands/service.go.
use vault_fleet.Prelude.{
  ℕ, Bool, true, false, not, ◌&&◌, ◌||◌, Option, none, some, [], Text, codes, text_eq, is_empty,
  if◌then◌else◌,
}
use vault_fleet.Engine.{
  not_found, command_not_active, message, Result, ok, err, M, pure, fail, ◌>>=◌, ◌>>◌, attempt, now,
  transaction,
}
use vault_fleet.Commands.Model.{
  CommandStatus, TaskStatus, MessageType, AgentCommand, TaskHistory, Tables, Env, type_eq,
  is_terminal, is_pending, is_task_active, update_commands, update_tasks, first_command, has_id,
  of_command,
}
use vault_fleet.Commands.Complete.TaskResults.{require_rows}

-- A filter of `completeCommand` that "" and no type leave out.
abbrev pub matches_agent : Text → AgentCommand → Bool
matches_agent agent_id c = is_empty agent_id || text_eq c.agent_id agent_id

abbrev pub matches_type : Option MessageType → AgentCommand → Bool
matches_type none c = true
matches_type (some type) c = type_eq c.type type

abbrev pub completable : Text → Text → Option MessageType → AgentCommand → Bool
completable agent_id message_id type c =
    text_eq c.message_id message_id
    && not (is_terminal c.status)
    && matches_agent agent_id c
    && matches_type type c

abbrev pub mark_ended : CommandStatus → Text → ℕ → AgentCommand → AgentCommand
mark_ended status text t r = record r {
  status = status;
  error_message = text;
  completed_at = some t;
  updated_at = t;
}

-- Every caller passes a result of nil.
unfoldable pub complete_command :
    Env → Text → Text → Option MessageType → CommandStatus → Text → M Tables (Unit {0})
complete_command env agent_id message_id type status text =
    if is_empty message_id then pure tt else do
      t ← now env.engine
      rows ←
          update_commands env.engine (completable agent_id message_id type)
            (mark_ended status text t)
      pure tt

unfoldable pub fail_command : Env → Text → Text → Text → M Tables (Unit {0})
unfolding complete_command
fail_command env agent_id message_id text =
    complete_command env agent_id message_id none CommandStatus.failed text

unfoldable pub fail_command_of_type : Env → Text → Text → MessageType → Text → M Tables (Unit {0})
unfolding complete_command
fail_command_of_type env agent_id message_id type text =
    complete_command env agent_id message_id (some type) CommandStatus.failed text

unfoldable pub command_timeout : Text
command_timeout = codes "command timeout"

unfoldable pub timeout_command : Env → Text → Text → M Tables (Unit {0})
unfolding complete_command
timeout_command env agent_id message_id =
    complete_command env agent_id message_id none CommandStatus.timeout command_timeout

pub record CancelCommandResult : Type 0 where
  pub needs_ws : Bool
  pub agent_id : Text
  pub message_id : Text

abbrev pub cancelled_here : CancelCommandResult
cancelled_here = record { needs_ws = false; agent_id = []; message_id = [] }

unfoldable pub cancelled_by_user : Text
cancelled_by_user = codes "cancelled by user"

unfoldable pub already_terminal : Text
already_terminal = codes "command already in terminal state"

unfoldable pub not_active_text : Text
not_active_text = codes "command is not active"

abbrev pub mark_task_cancelled : Text → ℕ → TaskHistory → TaskHistory
mark_task_cancelled text t r = record r {
  status = TaskStatus.cancelled;
  error_log = text;
  finished_at = some t;
  updated_at = t;
}

-- The body of the transaction of `CancelCommand`.
unfoldable pub cancel_rows : Env → Text → ℕ → M Tables (Unit {0})
cancel_rows env command_id t = do
  rows ←
      update_commands env.engine (λ c. has_id command_id c && is_pending c.status)
        (mark_ended CommandStatus.cancelled cancelled_by_user t)
  require_rows rows
  update_tasks env.engine (λ r. of_command command_id r && is_task_active r.status)
      (mark_task_cancelled cancelled_by_user t)

unfoldable pub cancel_done : Result (Unit {0}) → M Tables CancelCommandResult
cancel_done (ok u) = pure cancelled_here
cancel_done (err command_not_active) = fail (message not_active_text)
cancel_done (err e) = fail e

unfoldable pub cancel_pending : Env → AgentCommand → M Tables CancelCommandResult
unfolding cancel_done
cancel_pending env c = do
  t ← now env.engine
  r ← attempt (transaction env.engine (cancel_rows env c.id t))
  cancel_done r

unfoldable pub cancel_found : Env → Option AgentCommand → M Tables CancelCommandResult
unfolding cancel_pending
cancel_found env none = fail not_found
cancel_found env (some c) =
    if is_terminal c.status
    then fail (message already_terminal)
    else if is_pending c.status
    then cancel_pending env c
    else pure (record { needs_ws = true; agent_id = c.agent_id; message_id = c.message_id })

unfoldable pub cancel_command : Env → Text → M Tables CancelCommandResult
unfolding cancel_found
cancel_command env command_id = do
  found ← first_command env.engine (has_id command_id)
  cancel_found env found
