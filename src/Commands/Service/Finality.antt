-- ===== src/Commands/Service/Finality.antt =====
-- What no sequence of calls of the command service can undo (internal/master/commands/service.go).
use vault_fleet.Prelude.{ℕ, ◌≤◌, ◌≡◌, ◌∙◌, true, none, some, List, [], ◌∷◌, get_elem?, ap}
use vault_fleet.Engine.{Db, pure}
use vault_fleet.Engine.Rows.{Evolved-get}
use vault_fleet.Engine.Keeps.{Keeps}
use vault_fleet.Commands.Model.{AgentCommand, Tables, Env, is_terminal}
use vault_fleet.Commands.Evolution.{
  Kept, Kept-refl, Kept-trans, Evolves, Evolves-refl, Evolves-trans, bind, unchanged,
}
use vault_fleet.Commands.Evolution.Dispatching.{
  create_command-Evolves, dispatch_for_agent-Evolves, record_dispatch_success-Evolves,
  record_dispatch_failure-Evolves,
}
use vault_fleet.Commands.Evolution.Ending.{
  complete_policy_ack-Evolves, complete_task_result_with-Evolves,
  complete_snapshot_list_with-Evolves, complete_command-Evolves, cancel_command-Evolves,
  timeout_expired-Evolves,
}
use vault_fleet.Commands.Dispatch.{dispatch_pending_for_agent, dispatch_new_pending_for_agent}
use vault_fleet.Commands.Complete.{
  complete_task_result, complete_snapshot_list, fail_command, fail_command_of_type, timeout_command,
}
use vault_fleet.Commands.Service.{
  Callback, called, reports_task_with, reports_snapshots_with, Call, creates, dispatches_pending,
  dispatches_new, acknowledges, reports_task, reports_snapshots, fails_command, fails_of_type,
  times_out, cancels, scans_timeouts, records_success, records_failure, step, run,
}

called-Evolves : (f : Callback) → Keeps Evolves (called f)
called-Evolves f = record { holds = λ d. Evolves-refl d.tables }

module _ (env : Env) where
  step-Evolves : (c : Call) (d : Db Tables) → Evolves d.tables (step env c d).tables
  unfolding step dispatch_pending_for_agent dispatch_new_pending_for_agent complete_task_result
      complete_snapshot_list fail_command fail_command_of_type timeout_command
  step-Evolves (creates input) d = (create_command-Evolves env input).holds d
  step-Evolves (dispatches_pending agent limit) d =
      (dispatch_for_agent-Evolves env agent limit _).holds d
  step-Evolves (dispatches_new agent limit) d =
      (dispatch_for_agent-Evolves env agent limit _).holds d
  step-Evolves (acknowledges agent m success text) d =
      (complete_policy_ack-Evolves env agent m success text).holds d
  step-Evolves (reports_task agent m result) d =
      (bind _ _ (complete_task_result_with-Evolves env (pure tt) (unchanged tt) agent m result)
          (λ b. unchanged tt)).holds
        d
  step-Evolves (reports_snapshots agent m result) d =
      (bind _ _ (complete_snapshot_list_with-Evolves env (pure tt) (unchanged tt) agent m result)
          (λ b. unchanged tt)).holds
        d
  step-Evolves (reports_task_with agent m result f) d =
      (complete_task_result_with-Evolves env (called f) (called-Evolves f) agent m result).holds d
  step-Evolves (reports_snapshots_with agent m result f) d =
      (complete_snapshot_list_with-Evolves env (called f) (called-Evolves f) agent m result).holds d
  step-Evolves (fails_command agent m text) d =
      (complete_command-Evolves env agent m none _ text).holds d
  step-Evolves (fails_of_type agent m type text) d =
      (complete_command-Evolves env agent m (some type) _ text).holds d
  step-Evolves (times_out agent m) d = (complete_command-Evolves env agent m none _ _).holds d
  step-Evolves (cancels i) d = (cancel_command-Evolves env i).holds d
  step-Evolves scans_timeouts d = (timeout_expired-Evolves env).holds d
  step-Evolves (records_success i) d = (record_dispatch_success-Evolves env i).holds d
  step-Evolves (records_failure i text) d = (record_dispatch_failure-Evolves env i text).holds d

  run-Evolves : (cs : List Call) (d : Db Tables) → Evolves d.tables (run env cs d).tables
  unfolding run
  run-Evolves [] d = Evolves-refl d.tables
  run-Evolves (c ∷ cs) d =
      Evolves-trans d.tables (step env c d).tables (run env cs (step env c d)).tables
        (step-Evolves c d) (run-Evolves cs (step env c d))

-- A command that has succeeded, failed, timed out or been cancelled is never written again: after
-- any calls of the service, in any order and with any statements failing, its row stands unchanged
-- at its place.
pub terminal_commands_final :
    (env : Env) (cs : List Call) (d : Db Tables) (n : ℕ) (c : AgentCommand)
    → get_elem? d.tables.commands n ≡ some c
    → is_terminal c.status ≡ true
    → get_elem? (run env cs d).tables.commands n ≡ some c
terminal_commands_final env cs d n c e h =
    let (c', e', k) =
      Evolved-get Kept Kept-refl Kept-trans d.tables.commands (run env cs d).tables.commands n c
        (run-Evolves env cs d) e in
    e' ∙ ap some (k.final h)

-- No calls of the service lose a command, move it to another place, agent, message or deadline, or
-- lower its number of attempts.
pub commands_keep_identity :
    (env : Env) (cs : List Call) (d : Db Tables) (n : ℕ) (c : AgentCommand)
    → get_elem? d.tables.commands n ≡ some c
    → (c' : AgentCommand) × (get_elem? (run env cs d).tables.commands n ≡ some c')
      × (c'.id ≡ c.id)
      × (c'.agent_id ≡ c.agent_id)
      × (c'.message_id ≡ c.message_id)
      × (c'.deadline_at ≡ c.deadline_at)
      × (c.attempts ≤ c'.attempts)
commands_keep_identity env cs d n c e =
    let (c', e', k) =
      Evolved-get Kept Kept-refl Kept-trans d.tables.commands (run env cs d).tables.commands n c
        (run-Evolves env cs d) e in
    (c', e', k.same_id, k.same_agent, k.same_message, k.same_deadline, k.more_attempts)
