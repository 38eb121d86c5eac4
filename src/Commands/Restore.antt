-- ===== src/Commands/Restore.antt =====
-- A restore of selected paths for an agent that cannot do it (`prepareMessageForDispatch` and
-- `failCommandAndTask` of internal/master/commands/service.go).
use vault_fleet.Prelude.{
  ℕ, suc, ◌≡◌, refl, not, ◌&&◌, codes, text_eq, false, some, List, ◌∷◌, arith, Text, text_elem,
  update_where, is_empty,
}
use vault_fleet.Engine.{
  Db, ok, err, attempt, selective_restore_unsupported, now, commit, transaction, statement,
}
use vault_fleet.Commands.Model.{
  MessageType, Message, AgentCommand, Agent, Tables, Env, opened, type_eq, update_commands,
  update_tasks, CommandStatus, is_terminal,
}
use vault_fleet.Commands.Dispatch.{
  live_id, first_agent, has_name, read_capabilities, agent_has_capability,
  capability_restore_include_paths, select_restore, prepare_restore, prepare_message,
  message_from_command, prepare_message_for_dispatch, mark_failed, fail_command_and_task,
  selective_restore_text, dispatch_prepared, dispatch,
}
use vault_fleet.Commands.Delivery.{Healthy}

module _ (env : Env) (c : AgentCommand) (m : Message) (a : Agent) (path : Text)
    (paths names : List Text) (d : Db Tables) (healthy : Healthy env.engine)
    (stored : env.unseal c.payload ≡ opened m) (restores : c.type ≡ MessageType.restore_req)
    (asks_restore : m.type ≡ MessageType.restore_req)
    (selects : env.include_paths m.payload ≡ some (path ∷ paths))
    (addressed : is_empty c.agent_id ≡ false)
    (known : first_agent c.agent_id d.tables.agents ≡ some a)
    (reported : env.capabilities a.system_info ≡ some names)
    (lacks : text_elem capability_restore_include_paths names ≡ false) where
  capability_missing :
      agent_has_capability env c.agent_id capability_restore_include_paths d
      ≡ (ok false, record d { tick = suc d.tick })
  unfolding agent_has_capability statement read_capabilities has_name
      capability_restore_include_paths
  capability_missing = rw (addressed, healthy d.tick, known, reported, lacks) refl

  message_stored : message_from_command env c ≡ ok m
  unfolding message_from_command
  message_stored = rw (stored, message_from_command) refl

  restore_refused :
      prepare_restore env c m (some (path ∷ paths)) d
      ≡ (err selective_restore_unsupported, record d { tick = suc d.tick })
  unfolding prepare_restore select_restore
  restore_refused = rw capability_missing refl

  unsupported :
      prepare_message_for_dispatch env c d
      ≡ (err selective_restore_unsupported, record d { tick = suc d.tick })
  unfolding prepare_message_for_dispatch prepare_message type_eq
  unsupported = rw (message_stored, restores, asks_restore, selects) restore_refused

  -- The tables after the command is failed.
  failed_tables :
      (text : Text) (d' : Db Tables)
      → let t = env.engine.clock d'.tick in
        ((fail_command_and_task env c text d').0 ≡ ok tt)
        × ((fail_command_and_task env c text d').1.tables.commands
            ≡ update_where (live_id c.id) (mark_failed text t) d'.tables.commands)
        × ((fail_command_and_task env c text d').1.tables.sent ≡ d'.tables.sent)
  unfolding fail_command_and_task now transaction commit update_commands update_tasks statement
  failed_tables text d' =
      let n = d'.tick in ground (arith, healthy n, healthy (suc n), healthy (suc (suc n)))

  -- Where every statement succeeds: when the payload of a restore command opens as a restore
  -- request that selects paths, and the command's agent, whose identifier is not empty, is known
  -- and has reported its capabilities, without the one to restore selected paths, a dispatch
  -- succeeds, sends nothing, and gives each row of the command that is not terminal the status
  -- `failed`, the reason "agent does not support selective restore" and the time of its end and of
  -- the update; nothing else of these rows and no other command changes.
  pub restore_needs_capability :
      (t : ℕ) × ((dispatch env c d).0 ≡ ok tt)
      × ((dispatch env c d).1.tables.commands
          ≡ update_where
              (λ r. text_eq r.id c.id && not (is_terminal r.status))
              (λ r. record r {
                status = CommandStatus.failed;
                error_message = codes "agent does not support selective restore";
                completed_at = some t;
                updated_at = t;
              })
              d.tables.commands)
      × ((dispatch env c d).1.tables.sent ≡ d.tables.sent)
  unfolding dispatch dispatch_prepared attempt selective_restore_text
  restore_needs_capability =
      let d' : Db Tables = record d { tick = suc d.tick } in
      let w = failed_tables selective_restore_text d' in
      rw unsupported (env.engine.clock d'.tick, w.0, w.1, w.2)
