-- ===== src/Commands/Timeout.antt =====
-- `TimeoutExpired` of internal/master/commands/service.go and what it calls: every scan ends the
-- commands whose deadline has passed, with their tasks, and tells the agents.
use vault_fleet.Prelude.{
  ℕ, ◌+◌, Bool, true, false, not, ◌&&◌, Option, none, some, List, [], ◌∷◌, leb, ◌==◌, Text,
  is_empty, if◌then◌else◌,
}
use vault_fleet.Engine.{
  Error, Result, ok, err, M, pure, ◌>>=◌, ◌>>◌, attempt, now, new_id, transaction,
}
use vault_fleet.Commands.Model.{
  CommandStatus, TaskStatus, MessageType, AgentCommand, TaskHistory, Tables, Env, is_active,
  was_delivered, is_task_active, is_cancelable_on_timeout, update_commands, update_tasks,
  find_commands, has_id, of_command,
}
use vault_fleet.Commands.Dispatch.{hub_send}
use vault_fleet.Commands.Complete.{command_timeout, mark_ended}

abbrev pub mark_task_timeout : Text → ℕ → TaskHistory → TaskHistory
mark_task_timeout text t r = record r {
  status = TaskStatus.timeout;
  error_log = text;
  finished_at = some t;
  updated_at = t;
}

abbrev pub timeout_tasks : Env → Text → ℕ → ℕ → M Tables ℕ
timeout_tasks env command_id t rows = if rows == 0 then pure rows else do
  update_tasks env.engine (λ r. of_command command_id r && is_task_active r.status)
      (mark_task_timeout command_timeout t)
  pure rows

unfoldable pub timeout_command_and_task : Env → AgentCommand → ℕ → M Tables ℕ
timeout_command_and_task env c t = transaction env.engine (do
  rows ←
      update_commands env.engine (λ r. has_id c.id r && is_active r.status)
        (mark_ended CommandStatus.timeout command_timeout t)
  timeout_tasks env c.id t rows)

unfoldable pub send_cancel : Env → AgentCommand → Bool → M Tables (Unit {0})
send_cancel env c false = pure tt
send_cancel env c true = do
  id ← new_id env.engine
  failure ← hub_send env c.agent_id (record {
    id = id;
    type = MessageType.cancel_task;
    payload = env.cancel_payload c.agent_id c.message_id;
  })
  pure tt

unfoldable pub send_timeout_cancel : Env → AgentCommand → M Tables (Unit {0})
unfolding send_cancel
send_timeout_cancel env c d =
    send_cancel env c
      (not (is_empty c.agent_id)
        && not (is_empty c.message_id)
        && was_delivered c.status
        && is_cancelable_on_timeout c.type
        && env.is_online d.tick c.agent_id)
      d

-- `status IN (active) AND deadline_at IS NOT NULL AND deadline_at <= ?`.
abbrev pub past_deadline : ℕ → Option ℕ → Bool
past_deadline t none = false
past_deadline t (some deadline) = leb deadline t

abbrev pub expired : ℕ → AgentCommand → Bool
expired t c = is_active c.status && past_deadline t c.deadline_at

unfoldable pub notify_timeout : Env → AgentCommand → ℕ → M Tables (Unit {0})
notify_timeout env c updated = if updated == 0 then pure tt else send_timeout_cancel env c

-- The count so far is returned beside an error.
unfoldable pub timed_out :
    Env
    → AgentCommand
    → ℕ
    → (ℕ → M Tables (ℕ × Option Error))
    → Result ℕ
    → M Tables (ℕ × Option Error)
unfolding notify_timeout
timed_out env c count rest (err e) = pure (count, some e)
timed_out env c count rest (ok updated) = do notify_timeout env c updated; rest (count + updated)

unfoldable pub timeout_each : Env → ℕ → ℕ → List AgentCommand → M Tables (ℕ × Option Error)
unfolding timed_out
timeout_each env t count [] = pure (count, none)
timeout_each env t count (c ∷ cs) = do
  updated ← attempt (timeout_command_and_task env c t)
  timed_out env c count (λ n. timeout_each env t n cs) updated

unfoldable pub timeout_expired : Env → M Tables (ℕ × Option Error)
unfolding timeout_each
timeout_expired env = do
  t ← now env.engine
  rows ← find_commands env.engine (expired t)
  timeout_each env t 0 rows
