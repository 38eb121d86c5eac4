-- ===== src/Commands/Dispatch/Record.antt =====
-- How internal/master/commands/service.go records a dispatch, takes it back, and fails a command.
use vault_fleet.Prelude.{
  ℕ, ◌+◌, Bool, false, not, ◌&&◌, ◌||◌, none, some, [], ◌==◌, Text, if◌then◌else◌,
}
use vault_fleet.Engine.{M, pure, ◌>>=◌, ◌>>◌, now, transaction}
use vault_fleet.Commands.Model.{
  CommandStatus, TaskStatus, MessageType, AgentCommand, TaskHistory, Tables, Env, is_task_pending,
  is_task_running, is_task_active, is_long_running, update_commands, update_tasks, of_command,
}
use vault_fleet.Commands.Dispatch.Prepare.{live_id}

abbrev pub dispatched_status : MessageType → CommandStatus
dispatched_status type =
    if is_long_running type then CommandStatus.running else CommandStatus.dispatched

-- The rows that a recorded dispatch, and a dispatch taken back, write.
abbrev pub mark_dispatched : MessageType → ℕ → AgentCommand → AgentCommand
mark_dispatched type t r = record r {
  attempts = r.attempts + 1;
  dispatched_at = some t;
  error_message = [];
  status = dispatched_status type;
  updated_at = t;
}

abbrev pub mark_started : ℕ → TaskHistory → TaskHistory
mark_started t r = record r { status = TaskStatus.running; started_at = some t; updated_at = t }

abbrev pub start_tasks : Env → AgentCommand → ℕ → ℕ → M Tables ℕ
start_tasks env c t rows = if rows == 0 || not (is_long_running c.type) then pure rows else do
  update_tasks env.engine (λ r. of_command c.id r && is_task_pending r.status) (mark_started t)
  pure rows

unfoldable pub record_dispatch_success_for_command : Env → AgentCommand → M Tables Bool
record_dispatch_success_for_command env c = do
  t ← now env.engine
  rows ← transaction env.engine (do
    rows ← update_commands env.engine (live_id c.id) (mark_dispatched c.type t)
    start_tasks env c t rows)
  pure (not (rows == 0))

abbrev pub mark_undispatched : Bool → Text → ℕ → AgentCommand → AgentCommand
mark_undispatched increment text t r = record r {
  attempts = if increment then r.attempts + 1 else r.attempts;
  dispatched_at = none;
  error_message = text;
  status = CommandStatus.pending;
  updated_at = t;
}

abbrev pub mark_unstarted : ℕ → TaskHistory → TaskHistory
mark_unstarted t r = record r { status = TaskStatus.pending; started_at = none; updated_at = t }

abbrev pub unstart_tasks : Env → AgentCommand → ℕ → ℕ → M Tables (Unit {0})
unstart_tasks env c t rows =
    if rows == 0 || not (is_long_running c.type)
    then pure tt
    else update_tasks env.engine (λ r. of_command c.id r && is_task_running r.status)
        (mark_unstarted t)

unfoldable pub record_dispatch_failure_for : Env → AgentCommand → Text → Bool → M Tables (Unit {0})
record_dispatch_failure_for env c text increment = do
  t ← now env.engine
  transaction env.engine (do
    rows ← update_commands env.engine (live_id c.id) (mark_undispatched increment text t)
    unstart_tasks env c t rows)

unfoldable pub rollback_dispatch_failure : Env → AgentCommand → Text → M Tables (Unit {0})
unfolding record_dispatch_failure_for
rollback_dispatch_failure env c text = record_dispatch_failure_for env c text false

abbrev pub mark_failed : Text → ℕ → AgentCommand → AgentCommand
mark_failed text t r = record r {
  status = CommandStatus.failed;
  error_message = text;
  completed_at = some t;
  updated_at = t;
}

abbrev pub mark_task_failed : Text → ℕ → TaskHistory → TaskHistory
mark_task_failed text t r = record r {
  status = TaskStatus.failed;
  error_log = text;
  finished_at = some t;
  updated_at = t;
}

abbrev pub fail_tasks : Env → AgentCommand → Text → ℕ → ℕ → M Tables (Unit {0})
fail_tasks env c text t rows =
    if rows == 0 || not (is_long_running c.type)
    then pure tt
    else update_tasks env.engine (λ r. of_command c.id r && is_task_active r.status)
        (mark_task_failed text t)

unfoldable pub fail_command_and_task : Env → AgentCommand → Text → M Tables (Unit {0})
fail_command_and_task env c text = do
  t ← now env.engine
  transaction env.engine (do
    rows ← update_commands env.engine (live_id c.id) (mark_failed text t)
    fail_tasks env c text t rows)
