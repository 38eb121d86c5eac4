-- ===== src/Commands/Evolution/Dispatching.antt =====
-- Creating and dispatching commands keeps the command table evolving (`CreateCommand` and the
-- dispatch of internal/master/commands/service.go).
use vault_fleet.Prelude.{
  ℕ, suc, ◌≤◌, ◌≡◌, refl, Bool, true, false, Option, none, some, List, [], ◌∷◌, arith, ℤ, Text,
}
use vault_fleet.Engine.{
  db_error, invalid_payload, selective_restore_unsupported, capabilities_unknown, Result, ok, err,
}
use vault_fleet.Engine.Keeps.{Keeps, Keeps-statement}
use vault_fleet.Commands.Model.{
  CommandStatus, AgentCommand, TaskType, Tables, Message, MessageType, Env, Agent, update_commands,
}
use vault_fleet.Commands.Evolution.{
  Kept, Evolves, Evolves-refl, Evolves-trans, Evolves-append, update_commands-Evolves,
  update_tasks-Evolves, find_commands-Evolves, first_command-Evolves, bind, refused, unchanged,
  tried, clocked, named, either, committed, each, read_only,
}
use vault_fleet.Commands.Create.{
  CreateCommandInput, append_unless, insert_command, insert_task, create_task, create_rows,
  create_command, sealed,
}
use vault_fleet.Commands.Dispatch.{
  live_id, mark_dispatched, mark_undispatched, mark_failed, agent_has_capability, read_capabilities,
  has_name, persist_sealed, mark_prepared, taken, hub_is_online, persist_prepared_message,
  prepare_message_for_dispatch, record_dispatch_success_for_command, record_dispatch_failure_for,
  fail_command_and_task, hub_send, dispatch, select_deliverable, dispatch_for_agent,
  record_dispatch_success, record_dispatch_failure, find_command_by_id, select_restore,
  prepare_restore, prepare_message, after_send, send_recorded, dispatch_prepared, dispatch_online,
  record_found_success, record_found_failure,
}

-- An update of a live row that leaves its identity alone.
pub live-Kept :
    (i : Text) (c c' : AgentCommand)
    → c'.id ≡ c.id
    → c'.agent_id ≡ c.agent_id
    → c'.message_id ≡ c.message_id
    → c'.deadline_at ≡ c.deadline_at
    → c.attempts ≤ c'.attempts
    → live_id i c ≡ true
    → Kept c c'
live-Kept i c c' p q r s t h = record {
  same_id = p;
  same_agent = q;
  same_message = r;
  same_deadline = s;
  more_attempts = t;
  final = λ e. absurd (ground arith);
}

module _ (env : Env) where
  pub update_live-Evolves :
      (i : Text) (f : AgentCommand → AgentCommand)
      → ((c : AgentCommand) → live_id i c ≡ true → Kept c (f c))
      → Keeps Evolves (update_commands env.engine (live_id i) f)
  update_live-Evolves i f h = update_commands-Evolves env.engine (live_id i) f h

  append_unless-Evolves :
      (b : Bool) (c : AgentCommand) (s : Tables) → Evolves s (append_unless b c s).1
  append_unless-Evolves true c s = Evolves-refl s
  append_unless-Evolves false c s = Evolves-append s.commands (c ∷ [])

  insert_command-Evolves : (c : AgentCommand) → Keeps Evolves (insert_command env c)
  unfolding insert_command
  insert_command-Evolves c =
      bind _ _
        (Keeps-statement Evolves Evolves-refl Evolves-trans env.engine _
          λ s. append_unless-Evolves _ c s)
        (λ duplicate. either duplicate _ _ (refused db_error) (unchanged tt))

  create_task-Evolves :
      (input : CreateCommandInput) (id : Text) (type : Option TaskType)
      → Keeps Evolves (create_task env input id type)
  unfolding create_task insert_task
  create_task-Evolves input id none = unchanged _
  create_task-Evolves input id (some type) = bind _ _ (named env.engine) λ row.
      bind _ _ (clocked env.engine)
        λ created. Keeps-statement Evolves Evolves-refl Evolves-trans env.engine _ Evolves-refl

  sealed-Evolves : (o : Option Text) → Keeps Evolves (sealed o)
  unfolding sealed
  sealed-Evolves none = refused _
  sealed-Evolves (some t) = unchanged _

  create_rows-Evolves :
      (input : CreateCommandInput) (encrypted : Text) (t : ℕ)
      → Keeps Evolves (create_rows env input encrypted t)
  unfolding create_rows
  create_rows-Evolves input encrypted t = bind _ _ (named env.engine) λ id.
      bind _ _ (clocked env.engine) λ created.
        bind _ _ (insert_command-Evolves _)
          λ u. bind _ _ (create_task-Evolves input _ input.task_type) λ v. (unchanged _)

  pub create_command-Evolves :
      (input : CreateCommandInput) → Keeps Evolves (create_command env input)
  unfolding create_command
  create_command-Evolves input = either _ _ _ (refused _) (
      bind _ _ (sealed-Evolves _) λ encrypted.
        bind _ _ (clocked env.engine)
          λ t. committed env.engine _ (create_rows-Evolves input encrypted t))

  has_name-Evolves :
      (capability : Text) (o : Option (List Text)) → Keeps Evolves (has_name capability o)
  unfolding has_name
  has_name-Evolves capability none = refused _
  has_name-Evolves capability (some names) = unchanged _

  read_capabilities-Evolves :
      (capability : Text) (a : Option Agent) → Keeps Evolves (read_capabilities env capability a)
  unfolding read_capabilities
  read_capabilities-Evolves capability none = refused _
  read_capabilities-Evolves capability (some a) = has_name-Evolves capability _

  agent_has_capability-Evolves :
      (agent_id capability : Text) → Keeps Evolves (agent_has_capability env agent_id capability)
  unfolding agent_has_capability
  agent_has_capability-Evolves agent_id capability =
      either _ _ _ (refused _)
        (bind _ _ (read_only env.engine _) λ a. read_capabilities-Evolves capability a)

  persist_sealed-Evolves :
      (c : AgentCommand) (type : MessageType) (o : Option Text)
      → Keeps Evolves (persist_sealed env c type o)
  unfolding persist_sealed
  persist_sealed-Evolves c type none = refused _
  persist_sealed-Evolves c type (some encrypted) = bind _ _ (clocked env.engine) λ t.
      bind _ _
        (update_live-Evolves c.id (mark_prepared type encrypted t)
          λ r h. live-Kept c.id r _ refl refl refl refl (omega arith) h)
        λ rows. unchanged _

  select_restore-Evolves :
      (c : AgentCommand) (m : Message) (b : Bool) → Keeps Evolves (select_restore env c m b)
  unfolding select_restore persist_prepared_message
  select_restore-Evolves c m false = refused _
  select_restore-Evolves c m true = bind _ _ (persist_sealed-Evolves c _ _) λ u. unchanged _

  prepare_restore-Evolves :
      (c : AgentCommand) (m : Message) (o : Option (List Text))
      → Keeps Evolves (prepare_restore env c m o)
  unfolding prepare_restore
  prepare_restore-Evolves c m none = refused _
  prepare_restore-Evolves c m (some []) = unchanged _
  prepare_restore-Evolves c m (some (p ∷ ps)) =
      bind _ _ (agent_has_capability-Evolves _ _) λ b. select_restore-Evolves c m b

  prepare_message-Evolves :
      (c : AgentCommand) (r : Result Message) → Keeps Evolves (prepare_message env c r)
  unfolding prepare_message
  prepare_message-Evolves c (err e) = refused _
  prepare_message-Evolves c (ok m) = either _ _ _ (prepare_restore-Evolves c m _) (unchanged _)

  prepare-Evolves : (c : AgentCommand) → Keeps Evolves (prepare_message_for_dispatch env c)
  unfolding prepare_message_for_dispatch
  prepare-Evolves c = prepare_message-Evolves c _

  pub record_success-Evolves :
      (c : AgentCommand) → Keeps Evolves (record_dispatch_success_for_command env c)
  unfolding record_dispatch_success_for_command
  record_success-Evolves c = bind _ _ (clocked env.engine) λ t.
      bind _ _
        (committed env.engine _ (
          bind _ _
            (update_live-Evolves c.id (mark_dispatched c.type t)
              λ r h. live-Kept c.id r _ refl refl refl refl (omega arith) h)
            λ rows.
              either _ _ _ (unchanged _)
                (bind _ _ (update_tasks-Evolves env.engine _ _) λ u. unchanged _)))
        λ rows. unchanged _

  pub record_failure-Evolves :
      (c : AgentCommand) (text : Text) (b : Bool)
      → Keeps Evolves (record_dispatch_failure_for env c text b)
  unfolding record_dispatch_failure_for
  record_failure-Evolves c text b = bind _ _ (clocked env.engine) λ t. committed env.engine _ (
      bind _ _
        (update_live-Evolves c.id (mark_undispatched b text t)
          λ r h. live-Kept c.id r _ refl refl refl refl (ground arith) h)
        λ rows. either _ _ _ (unchanged _) (update_tasks-Evolves env.engine _ _))

  pub fail_command_and_task-Evolves :
      (c : AgentCommand) (text : Text) → Keeps Evolves (fail_command_and_task env c text)
  unfolding fail_command_and_task
  fail_command_and_task-Evolves c text = bind _ _ (clocked env.engine) λ t. committed env.engine _ (
      bind _ _
        (update_live-Evolves c.id (mark_failed text t)
          λ r h. live-Kept c.id r _ refl refl refl refl (omega arith) h)
        λ rows. either _ _ _ (unchanged _) (update_tasks-Evolves env.engine _ _))

  taken-Evolves :
      (agent_id : Text) (m : Message) (o : Option Text) → Keeps Evolves (taken agent_id m o)
  unfolding taken
  taken-Evolves agent_id m none = record { holds = λ d. Evolves-refl d.tables }
  taken-Evolves agent_id m (some text) = unchanged _

  pub hub_send-Evolves : (agent_id : Text) (m : Message) → Keeps Evolves (hub_send env agent_id m)
  unfolding hub_send
  hub_send-Evolves agent_id m = record {
    holds = λ d. (taken-Evolves agent_id m _).holds (record d { tick = suc d.tick });
  }

  after_send-Evolves : (c : AgentCommand) (o : Option Text) → Keeps Evolves (after_send env c o)
  unfolding after_send
  after_send-Evolves c none = unchanged _
  after_send-Evolves c (some text) = record_failure-Evolves c text false

  send_recorded-Evolves :
      (c : AgentCommand) (m : Message) (b : Bool) → Keeps Evolves (send_recorded env c m b)
  unfolding send_recorded
  send_recorded-Evolves c m false = unchanged _
  send_recorded-Evolves c m true = bind _ _ (hub_send-Evolves _ m) λ o. after_send-Evolves c o

  dispatch_prepared-Evolves :
      (c : AgentCommand) (r : Result Message) → Keeps Evolves (dispatch_prepared env c r)
  unfolding dispatch_prepared
  dispatch_prepared-Evolves c (err capabilities_unknown) = unchanged _
  dispatch_prepared-Evolves c (err selective_restore_unsupported) =
      fail_command_and_task-Evolves c _
  dispatch_prepared-Evolves c (err (invalid_payload text)) = fail_command_and_task-Evolves c text
  dispatch_prepared-Evolves c (err e) = refused _
  dispatch_prepared-Evolves c (ok m) =
      bind _ _ (record_success-Evolves c) λ b. send_recorded-Evolves c m b

  pub dispatch-Evolves : (c : AgentCommand) → Keeps Evolves (dispatch env c)
  unfolding dispatch
  dispatch-Evolves c = bind _ _ (tried _ (prepare-Evolves c)) λ r. dispatch_prepared-Evolves c r

  hub_is_online-Evolves : (agent_id : Text) → Keeps Evolves (hub_is_online env agent_id)
  unfolding hub_is_online
  hub_is_online-Evolves agent_id = record { holds = λ d. Evolves-refl d.tables }

  dispatch_online-Evolves :
      (agent_id : Text) (limit : ℤ) (statuses : CommandStatus → Bool) (b : Bool)
      → Keeps Evolves (dispatch_online env agent_id limit statuses b)
  unfolding dispatch_online select_deliverable
  dispatch_online-Evolves agent_id limit statuses false = unchanged _
  dispatch_online-Evolves agent_id limit statuses true =
      bind _ _
        (bind _ _ (clocked env.engine)
          λ t. bind _ _ (find_commands-Evolves env.engine _) λ rows. unchanged _)
        λ commands. each _ commands dispatch-Evolves

  pub dispatch_for_agent-Evolves :
      (agent_id : Text) (limit : ℤ) (statuses : CommandStatus → Bool)
      → Keeps Evolves (dispatch_for_agent env agent_id limit statuses)
  unfolding dispatch_for_agent
  dispatch_for_agent-Evolves agent_id limit statuses = either _ _ _ (unchanged _) (
      bind _ _ (hub_is_online-Evolves agent_id)
        λ b. dispatch_online-Evolves agent_id limit statuses b)

  find_command_by_id-Evolves : (i : Text) → Keeps Evolves (find_command_by_id env i)
  unfolding find_command_by_id
  find_command_by_id-Evolves i = either _ _ _ (unchanged _) (first_command-Evolves env.engine _)

  found_success-Evolves : (o : Option AgentCommand) → Keeps Evolves (record_found_success env o)
  unfolding record_found_success
  found_success-Evolves none = unchanged _
  found_success-Evolves (some c) = bind _ _ (record_success-Evolves c) λ b. (unchanged _)

  found_failure-Evolves :
      (text : Text) (o : Option AgentCommand) → Keeps Evolves (record_found_failure env text o)
  unfolding record_found_failure
  found_failure-Evolves text none = unchanged _
  found_failure-Evolves text (some c) = record_failure-Evolves c text true

  pub record_dispatch_success-Evolves : (i : Text) → Keeps Evolves (record_dispatch_success env i)
  unfolding record_dispatch_success
  record_dispatch_success-Evolves i =
      bind _ _ (find_command_by_id-Evolves i) λ o. found_success-Evolves o

  pub record_dispatch_failure-Evolves :
      (i text : Text) → Keeps Evolves (record_dispatch_failure env i text)
  unfolding record_dispatch_failure
  record_dispatch_failure-Evolves i text =
      bind _ _ (find_command_by_id-Evolves i) λ o. found_failure-Evolves text o
