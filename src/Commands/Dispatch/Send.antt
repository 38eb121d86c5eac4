-- ===== src/Commands/Dispatch/Send.antt =====
-- `dispatch` and `dispatchForAgent` of internal/master/commands/service.go, and the records of a
-- dispatch that its callers make.
use vault_fleet.Prelude.{
  ℕ, suc, Bool, true, false, ◌&&◌, Option, none, some, List, [], ◌∷◌, ◌++◌, ltb, ℤ,
  positive_or_default, Text, codes, text_eq, is_empty, if◌then◌else◌, take, order_by,
}
use vault_fleet.Engine.{
  invalid_payload, selective_restore_unsupported, capabilities_unknown, Result, ok, err, M, pure,
  fail, ◌>>=◌, attempt, now, for_each,
}
use vault_fleet.Commands.Model.{
  CommandStatus, Message, AgentCommand, Delivery, Tables, Env, is_pending, is_undelivered,
  find_commands, first_command, has_id,
}
use vault_fleet.Commands.Dispatch.Prepare.{prepare_message_for_dispatch}
use vault_fleet.Commands.Dispatch.Record.{
  record_dispatch_success_for_command, record_dispatch_failure_for, rollback_dispatch_failure,
  fail_command_and_task,
}

-- `Hub.Send`: a message that is taken is recorded as sent.
unfoldable pub taken : Text → Message → Option Text → M Tables (Option Text)
taken agent_id m (some text) d = (ok (some text), d)
taken agent_id m none d =
    let delivery : Delivery = record { agent_id = agent_id; message = m } in
    (ok none, record d { tables = record d.tables { sent = d.tables.sent ++ delivery ∷ [] } })

unfoldable pub hub_send : Env → Text → Message → M Tables (Option Text)
unfolding taken
hub_send env agent_id m d =
    taken agent_id m (env.send_error d.tick agent_id m) (record d { tick = suc d.tick })

unfoldable pub after_send : Env → AgentCommand → Option Text → M Tables (Unit {0})
unfolding rollback_dispatch_failure
after_send env c none = pure tt
after_send env c (some text) = rollback_dispatch_failure env c text

unfoldable pub send_recorded : Env → AgentCommand → Message → Bool → M Tables (Unit {0})
unfolding after_send
send_recorded env c m false = pure tt
send_recorded env c m true = do failure ← hub_send env c.agent_id m; after_send env c failure

unfoldable pub selective_restore_text : Text
selective_restore_text = codes "agent does not support selective restore"

unfoldable pub dispatch_prepared : Env → AgentCommand → Result Message → M Tables (Unit {0})
unfolding send_recorded
dispatch_prepared env c (err capabilities_unknown) = pure tt
dispatch_prepared env c (err selective_restore_unsupported) =
    fail_command_and_task env c selective_restore_text
dispatch_prepared env c (err (invalid_payload text)) = fail_command_and_task env c text
dispatch_prepared env c (err e) = fail e
dispatch_prepared env c (ok m) = do
  recorded ← record_dispatch_success_for_command env c
  send_recorded env c m recorded

unfoldable pub dispatch : Env → AgentCommand → M Tables (Unit {0})
unfolding dispatch_prepared
dispatch env c = do
  prepared ← attempt (prepare_message_for_dispatch env c)
  dispatch_prepared env c prepared

-- `agent_id = ? AND status IN ? AND (deadline_at IS NULL OR deadline_at > ?)`.
abbrev pub before_deadline : ℕ → Option ℕ → Bool
before_deadline t none = true
before_deadline t (some deadline) = ltb t deadline

abbrev pub deliverable : Text → (CommandStatus → Bool) → ℕ → AgentCommand → Bool
deliverable agent_id statuses t c =
    text_eq c.agent_id agent_id && statuses c.status && before_deadline t c.deadline_at

-- The rows that one call dispatches: the oldest deliverable ones.
unfoldable pub select_deliverable :
    Env → Text → ℕ → (CommandStatus → Bool) → M Tables (List AgentCommand)
select_deliverable env agent_id limit statuses = do
  t ← now env.engine
  rows ← find_commands env.engine (deliverable agent_id statuses t)
  pure (take limit (order_by (λ c. c.created_at) rows))

-- `Hub.IsOnline`.
unfoldable pub hub_is_online : Env → Text → M Tables Bool
hub_is_online env agent_id d = (ok (env.is_online d.tick agent_id), d)

unfoldable pub dispatch_online :
    Env → Text → ℤ → (CommandStatus → Bool) → Bool → M Tables (Unit {0})
dispatch_online env agent_id limit statuses false = pure tt
dispatch_online env agent_id limit statuses true = do
  commands ← select_deliverable env agent_id (positive_or_default limit 100) statuses
  for_each (dispatch env) commands

unfoldable pub dispatch_for_agent : Env → Text → ℤ → (CommandStatus → Bool) → M Tables (Unit {0})
unfolding dispatch_online
dispatch_for_agent env agent_id limit statuses =
    if is_empty agent_id
    then pure tt
    else do online ← hub_is_online env agent_id; dispatch_online env agent_id limit statuses online

unfoldable pub dispatch_pending_for_agent : Env → Text → ℤ → M Tables (Unit {0})
unfolding dispatch_for_agent
dispatch_pending_for_agent env agent_id limit = dispatch_for_agent env agent_id limit is_undelivered

unfoldable pub dispatch_new_pending_for_agent : Env → Text → ℤ → M Tables (Unit {0})
unfolding dispatch_for_agent
dispatch_new_pending_for_agent env agent_id limit = dispatch_for_agent env agent_id limit is_pending

unfoldable pub find_command_by_id : Env → Text → M Tables (Option AgentCommand)
find_command_by_id env command_id =
    if is_empty command_id then pure none else first_command env.engine (has_id command_id)

unfoldable pub record_found_success : Env → Option AgentCommand → M Tables (Unit {0})
record_found_success env none = pure tt
record_found_success env (some c) = do recorded ← record_dispatch_success_for_command env c; pure tt

unfoldable pub record_dispatch_success : Env → Text → M Tables (Unit {0})
unfolding record_found_success find_command_by_id
record_dispatch_success env command_id = do
  found ← find_command_by_id env command_id
  record_found_success env found

unfoldable pub record_found_failure : Env → Text → Option AgentCommand → M Tables (Unit {0})
record_found_failure env text none = pure tt
record_found_failure env text (some c) = record_dispatch_failure_for env c text true

unfoldable pub record_dispatch_failure : Env → Text → Text → M Tables (Unit {0})
unfolding record_found_failure find_command_by_id
record_dispatch_failure env command_id text = do
  found ← find_command_by_id env command_id
  record_found_failure env text found
