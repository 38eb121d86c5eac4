-- ===== src/Commands/Evolution/Ending.antt =====
-- Ending commands keeps the command table evolving: acknowledgements, results, failures,
-- cancelling and the timeout scan of internal/master/commands/service.go.
use vault_fleet.Prelude.{
  ℕ, ◌+◌, ◌≤◌, ◌≡◌, refl, Bool, true, false, Option, none, some, List, [], ◌∷◌, arith, Text, ◌==◌,
}
use vault_fleet.Engine.{Error, command_not_active, Result, ok, err, M}
use vault_fleet.Engine.Keeps.{Keeps}
use vault_fleet.Commands.Model.{CommandStatus, AgentCommand, Tables, MessageType, Env, is_terminal}
use vault_fleet.Commands.Evolution.{
  Kept, Evolves, update_commands-Evolves, update_tasks-Evolves, find_commands-Evolves,
  first_command-Evolves, bind, refused, unchanged, tried, clocked, named, either, committed,
}
use vault_fleet.Commands.Evolution.Dispatching.{live-Kept, update_live-Evolves, hub_send-Evolves}
use vault_fleet.Commands.Complete.{
  mark_acknowledged, explain_unmatched, acknowledge_rows, complete_policy_ack, TaskResult,
  mark_result, require_rows, apply_result, complete_found, inactive_as_false, complete_rows,
  complete_task_result_with, SnapshotList, mark_snapshots, complete_snapshots,
  complete_snapshot_list_with, completable, mark_ended, complete_command, cancel_rows, cancel_done,
  cancel_pending, cancel_found, cancel_command,
}
use vault_fleet.Commands.Timeout.{
  timeout_command_and_task, send_cancel, send_timeout_cancel, notify_timeout, timed_out,
  timeout_each, timeout_expired,
}

-- An update of a row that has not ended, and that leaves its identity alone.
open-Kept :
    (c c' : AgentCommand)
    → c'.id ≡ c.id
    → c'.agent_id ≡ c.agent_id
    → c'.message_id ≡ c.message_id
    → c'.deadline_at ≡ c.deadline_at
    → c.attempts ≤ c'.attempts
    → is_terminal c.status ≡ false
    → Kept c c'
open-Kept c c' p q r s t h = record {
  same_id = p;
  same_agent = q;
  same_message = r;
  same_deadline = s;
  more_attempts = t;
  final = λ e. absurd (ground arith);
}

module _ (env : Env) where
  explain_unmatched-Evolves : (o : Option AgentCommand) → Keeps Evolves (explain_unmatched o)
  unfolding explain_unmatched
  explain_unmatched-Evolves none = refused _
  explain_unmatched-Evolves (some c) = either _ _ _ (unchanged _) (refused _)

  acknowledge_rows-Evolves :
      (agent_id message_id : Text) (success : Bool) (text : Text) (t : ℕ)
      → Keeps Evolves (acknowledge_rows env agent_id message_id success text t)
  unfolding acknowledge_rows
  acknowledge_rows-Evolves agent_id message_id success text t =
      bind _ _
        (update_commands-Evolves env.engine _ (mark_acknowledged success text t)
          λ r h. open-Kept r _ refl refl refl refl (omega arith) (ground arith))
        λ rows.
          either _ _ _ (bind _ _ (first_command-Evolves env.engine _) explain_unmatched-Evolves)
            (unchanged _)

  pub complete_policy_ack-Evolves :
      (agent_id message_id : Text) (success : Bool) (text : Text)
      → Keeps Evolves (complete_policy_ack env agent_id message_id success text)
  unfolding complete_policy_ack
  complete_policy_ack-Evolves agent_id message_id success text = either _ _ _ (unchanged _) (
      bind _ _ (clocked env.engine)
        λ t. committed env.engine _ (acknowledge_rows-Evolves agent_id message_id success text t))

  require_rows-Evolves : (rows : ℕ) → Keeps Evolves (require_rows rows)
  require_rows-Evolves rows = either _ _ _ (refused _) (unchanged _)

  inactive_as_false-Evolves : (r : Result Bool) → Keeps Evolves (inactive_as_false r)
  inactive_as_false-Evolves (ok completed) = unchanged _
  inactive_as_false-Evolves (err command_not_active) = unchanged _
  inactive_as_false-Evolves (err e) = refused _

  module _ (apply : M Tables (Unit {0})) (applied : Keeps Evolves apply) where
    apply_result-Evolves :
        (result : TaskResult) (t : ℕ) (c : AgentCommand)
        → Keeps Evolves (apply_result env result t apply c)
    unfolding apply_result
    apply_result-Evolves result t c = bind _ _ applied λ u.
        bind _ _
          (update_live-Evolves env c.id (mark_result result t)
            λ r h. live-Kept c.id r _ refl refl refl refl (omega arith) h)
          λ rows.
            bind _ _ (require_rows-Evolves rows)
              λ v. bind _ _ (update_tasks-Evolves env.engine _ _) λ w. unchanged _

    complete_found-Evolves :
        (result : TaskResult) (t : ℕ) (o : Option AgentCommand)
        → Keeps Evolves (complete_found env result t apply o)
    unfolding complete_found
    complete_found-Evolves result t none = unchanged _
    complete_found-Evolves result t (some c) =
        either _ _ _ (apply_result-Evolves result t c) (unchanged _)

    pub complete_task_result_with-Evolves :
        (agent_id message_id : Text) (result : TaskResult)
        → Keeps Evolves (complete_task_result_with env agent_id message_id result apply)
    unfolding complete_task_result_with complete_rows
    complete_task_result_with-Evolves agent_id message_id result = either _ _ _ (unchanged _) (
        bind _ _ (clocked env.engine) λ t.
          bind _ _
            (tried _ (
              committed env.engine _ (
                bind _ _ (first_command-Evolves env.engine _)
                  λ o. complete_found-Evolves result t o)))
            inactive_as_false-Evolves)

    complete_snapshots-Evolves :
        (result : SnapshotList) (t : ℕ) (o : Option AgentCommand)
        → Keeps Evolves (complete_snapshots env result t apply o)
    unfolding complete_snapshots
    complete_snapshots-Evolves result t none = unchanged _
    complete_snapshots-Evolves result t (some c) = bind _ _ applied λ u.
        bind _ _
          (update_live-Evolves env c.id (mark_snapshots result t)
            λ r h. live-Kept c.id r _ refl refl refl refl (omega arith) h)
          λ rows. bind _ _ (require_rows-Evolves rows) λ v. unchanged _

    pub complete_snapshot_list_with-Evolves :
        (agent_id message_id : Text) (result : SnapshotList)
        → Keeps Evolves (complete_snapshot_list_with env agent_id message_id result apply)
    unfolding complete_snapshot_list_with
    complete_snapshot_list_with-Evolves agent_id message_id result = either _ _ _ (unchanged _) (
        bind _ _ (clocked env.engine) λ t.
          bind _ _
            (tried _ (
              committed env.engine _ (
                bind _ _ (first_command-Evolves env.engine _)
                  λ o. complete_snapshots-Evolves result t o)))
            inactive_as_false-Evolves)

  pub complete_command-Evolves :
      (agent_id message_id : Text) (type : Option MessageType) (status : CommandStatus)
      (text : Text)
      → Keeps Evolves (complete_command env agent_id message_id type status text)
  unfolding complete_command
  complete_command-Evolves agent_id message_id type status text = either _ _ _ (unchanged _) (
      bind _ _ (clocked env.engine) λ t.
        bind _ _
          (update_commands-Evolves env.engine (completable agent_id message_id type)
            (mark_ended status text t)
            λ r h. open-Kept r _ refl refl refl refl (omega arith) (completable_open r h))
          λ rows. unchanged _)
    where
      completable_open :
          (r : AgentCommand)
          → completable agent_id message_id type r ≡ true
          → is_terminal r.status ≡ false
      completable_open r h = ground arith

  cancel_rows-Evolves : (i : Text) (t : ℕ) → Keeps Evolves (cancel_rows env i t)
  unfolding cancel_rows
  cancel_rows-Evolves i t =
      bind _ _
        (update_commands-Evolves env.engine _ _
          λ r h. open-Kept r _ refl refl refl refl (omega arith) (ground arith))
        λ rows. bind _ _ (require_rows-Evolves rows) λ u. update_tasks-Evolves env.engine _ _

  cancel_done-Evolves : (r : Result (Unit {0})) → Keeps Evolves (cancel_done r)
  unfolding cancel_done
  cancel_done-Evolves (ok u) = unchanged _
  cancel_done-Evolves (err command_not_active) = refused _
  cancel_done-Evolves (err e) = refused _

  cancel_found-Evolves : (o : Option AgentCommand) → Keeps Evolves (cancel_found env o)
  unfolding cancel_found cancel_pending
  cancel_found-Evolves none = refused _
  cancel_found-Evolves (some c) = either _ _ _ (refused _) (
      either _ _ _
        (bind _ _ (clocked env.engine) λ t.
          bind _ _ (tried _ (committed env.engine _ (cancel_rows-Evolves c.id t)))
            cancel_done-Evolves)
        (unchanged _))

  pub cancel_command-Evolves : (i : Text) → Keeps Evolves (cancel_command env i)
  unfolding cancel_command
  cancel_command-Evolves i = bind _ _ (first_command-Evolves env.engine _) cancel_found-Evolves

  timeout_command_and_task-Evolves :
      (c : AgentCommand) (t : ℕ) → Keeps Evolves (timeout_command_and_task env c t)
  unfolding timeout_command_and_task
  timeout_command_and_task-Evolves c t = committed env.engine _ (
      bind _ _
        (update_commands-Evolves env.engine _ _
          λ r h. open-Kept r _ refl refl refl refl (omega arith) (ground arith))
        λ rows.
          either _ _ _ (unchanged _)
            (bind _ _ (update_tasks-Evolves env.engine _ _) λ u. unchanged _))

  send_cancel-Evolves : (c : AgentCommand) (b : Bool) → Keeps Evolves (send_cancel env c b)
  unfolding send_cancel
  send_cancel-Evolves c false = unchanged _
  send_cancel-Evolves c true =
      bind _ _ (named env.engine) λ i. bind _ _ (hub_send-Evolves env _ _) λ o. unchanged _

  send_timeout_cancel-Evolves : (c : AgentCommand) → Keeps Evolves (send_timeout_cancel env c)
  unfolding send_timeout_cancel
  send_timeout_cancel-Evolves c = record { holds = λ d. (send_cancel-Evolves c _).holds d }

  notify_timeout-Evolves : (c : AgentCommand) (n : ℕ) → Keeps Evolves (notify_timeout env c n)
  unfolding notify_timeout
  notify_timeout-Evolves c n = either (n == 0) _ _ (unchanged _) (send_timeout_cancel-Evolves c)

  timed_out-Evolves :
      (c : AgentCommand) (n : ℕ) (rest : ℕ → M Tables (ℕ × Option Error)) (r : Result ℕ)
      → ((k : ℕ) → Keeps Evolves (rest k))
      → Keeps Evolves (timed_out env c n rest r)
  unfolding timed_out
  timed_out-Evolves c n rest (err e) h = unchanged _
  timed_out-Evolves c n rest (ok k) h = bind _ _ (notify_timeout-Evolves c k) λ u. h (n + k)

  timeout_each-Evolves :
      (t n : ℕ) (cs : List AgentCommand) → Keeps Evolves (timeout_each env t n cs)
  unfolding timeout_each
  timeout_each-Evolves t n [] = unchanged _
  timeout_each-Evolves t n (c ∷ cs) =
      bind _ _ (tried _ (timeout_command_and_task-Evolves c t))
        λ r. timed_out-Evolves c n _ r λ k. timeout_each-Evolves t k cs

  pub timeout_expired-Evolves : Keeps Evolves (timeout_expired env)
  unfolding timeout_expired
  timeout_expired-Evolves =
      bind _ _ (clocked env.engine)
        λ t. bind _ _ (find_commands-Evolves env.engine _) λ cs. timeout_each-Evolves t 0 cs
