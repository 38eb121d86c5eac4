-- ===== src/Commands/Complete/PolicyAck.antt =====
-- `CompletePolicyAck` of internal/master/commands/service.go.
use vault_fleet.Prelude.{
  ℕ, Bool, ◌&&◌, ◌||◌, Option, none, some, [], ◌==◌, Text, codes, text_eq, is_empty, if◌then◌else◌,
}
use vault_fleet.Engine.{message, M, pure, fail, ◌>>=◌, now, transaction}
use vault_fleet.Commands.Model.{
  CommandStatus, MessageType, AgentCommand, Tables, Env, type_eq, is_terminal, is_active,
  update_commands, first_command,
}

-- `agent_id = ? AND message_id = ? AND type = 'policy_push'`.
abbrev pub is_policy_push : Text → Text → AgentCommand → Bool
is_policy_push agent_id message_id c =
    text_eq c.agent_id agent_id
    && text_eq c.message_id message_id
    && type_eq c.type MessageType.policy_push

abbrev pub policy_ack_status : Bool → CommandStatus
policy_ack_status success = if success then CommandStatus.succeeded else CommandStatus.failed

abbrev pub mark_acknowledged : Bool → Text → ℕ → AgentCommand → AgentCommand
mark_acknowledged success text t r = record r {
  status = policy_ack_status success;
  error_message = if success then [] else text;
  completed_at = some t;
  updated_at = t;
}

unfoldable pub policy_command_missing : Text
policy_command_missing = codes "policy command not found"

unfoldable pub policy_command_inactive : Text
policy_command_inactive = codes "policy command is not active"

unfoldable pub explain_unmatched : Option AgentCommand → M Tables (Unit {0})
explain_unmatched none = fail (message policy_command_missing)
explain_unmatched (some c) =
    if is_terminal c.status then pure tt else fail (message policy_command_inactive)

unfoldable pub acknowledge_rows : Env → Text → Text → Bool → Text → ℕ → M Tables (Unit {0})
unfolding explain_unmatched
acknowledge_rows env agent_id message_id success text t = do
  rows ←
      update_commands env.engine (λ c. is_policy_push agent_id message_id c && is_active c.status)
        (mark_acknowledged success text t)
  if rows == 0
      then (first_command env.engine (is_policy_push agent_id message_id) >>= explain_unmatched)
      else pure tt

unfoldable pub complete_policy_ack : Env → Text → Text → Bool → Text → M Tables (Unit {0})
unfolding acknowledge_rows
complete_policy_ack env agent_id message_id success text =
    if is_empty agent_id || is_empty message_id then pure tt else do
      t ← now env.engine
      transaction env.engine (acknowledge_rows env agent_id message_id success text t)
