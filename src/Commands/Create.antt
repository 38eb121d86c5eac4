-- ===== src/Commands/Create.antt =====
-- `CreateCommand` of internal/master/commands/service.go: the command row and its task history row
-- are made in one transaction.
use vault_fleet.Prelude.{
  ℕ, ◌+◌, ◌-◌, ◌%◌, ltb, ◌*◌, Bool, true, false, ◌||◌, Option, none, some, [], ◌∷◌, ◌++◌, ℤ,
  positive, Text, codes, text_eq, is_empty, is_some, if◌then◌else◌, first_where,
}
use vault_fleet.Engine.{
  db_error, message, M, pure, fail, ◌>>=◌, ◌>>◌, now, new_id, statement, transaction,
}
use vault_fleet.Commands.Model.{
  CommandStatus, TaskStatus, MessageType, TaskType, Message, AgentCommand, TaskHistory, Report,
  Documents, Tables, Env, type_eq, hour, deadline_for_type,
}

pub record CreateCommandInput : Type 0 where
  pub agent_id : Text
  pub type : MessageType
  pub message : Message
  pub task_type : Option TaskType  -- none for ""
  pub task_state : Option TaskStatus  -- none for ""
  pub snapshot_id : Text
  pub policy_id : Text
  pub policy_name : Text
  pub policy_updated_at : Option ℕ
  pub storage_id : Text
  pub timeout_hours : ℤ

abbrev pub no_report : Report
no_report = record {
  artifact_path = [];
  artifact_name = [];
  artifact_size = 0;
  artifact_content_type = [];
  backup_mode = [];
  archive_format = [];
  duration_ms = 0;
  repo_size = 0;
}

abbrev pub no_documents : Documents
no_documents = record {
  docker = [];
  database = [];
  verification = [];
  artifact_naming = [];
  restore_items = [];
}

-- The columns `id` and `message_id` are unique.
abbrev pub collides : AgentCommand → AgentCommand → Bool
collides c r = text_eq r.id c.id || text_eq r.message_id c.message_id

abbrev pub refuse_duplicate : Bool → M Tables (Unit {0})
refuse_duplicate duplicate = if duplicate then fail db_error else pure tt

abbrev pub append_unless : Bool → AgentCommand → Tables → Bool × Tables
append_unless true c t = (true, t)
append_unless false c t = (false, record t { commands = t.commands ++ c ∷ [] })

unfoldable pub insert_command : Env → AgentCommand → M Tables (Unit {0})
insert_command env c = do
  duplicate ←
      statement env.engine λ t. append_unless (is_some (first_where (collides c) t.commands)) c t
  refuse_duplicate duplicate

unfoldable pub insert_task : Env → TaskHistory → M Tables (Unit {0})
insert_task env r = statement env.engine λ t. (tt, record t { tasks = t.tasks ++ r ∷ [] })

-- `now.Add(time.Duration(hours) * time.Hour)`: the product has 64 bits and a sign. A time before the
-- first is 0.
abbrev pub after_hours : ℕ → ℕ → ℕ
after_hours hours t =
    let n = (hours * hour) % 18446744073709551616 in
    if ltb n 9223372036854775808 then t + n else t - (18446744073709551616 - n)

abbrev pub deadline_of : CreateCommandInput → ℕ → ℕ
deadline_of input t = elim (positive input.timeout_hours) [
  | none ↦ deadline_for_type input.type t
  | some hours ↦ after_hours hours t
]

abbrev pub new_command : CreateCommandInput → Text → Text → ℕ → ℕ → AgentCommand
new_command input id encrypted t created = record {
  id = id;
  agent_id = input.agent_id;
  type = input.type;
  status = CommandStatus.pending;
  message_id = input.message.id;
  payload = encrypted;
  result = [];
  error_message = [];
  attempts = 0;
  policy_id = input.policy_id;
  policy_updated_at = input.policy_updated_at;
  storage_id = input.storage_id;
  deadline_at = some (deadline_of input t);
  dispatched_at = none;
  completed_at = none;
  created_at = created;
  updated_at = created;
}

abbrev initial_state : Option TaskStatus → TaskStatus
initial_state none = TaskStatus.pending
initial_state (some s) = s

abbrev pub new_task : CreateCommandInput → TaskType → Text → Text → ℕ → TaskHistory
new_task input type id command_id created = record {
  id = id;
  agent_id = input.agent_id;
  type = type;
  status = initial_state input.task_state;
  snapshot_id = input.snapshot_id;
  report = no_report;
  documents = no_documents;
  message_id = input.message.id;
  command_id = command_id;
  policy_id = input.policy_id;
  policy_name = input.policy_name;
  storage_id = input.storage_id;
  started_at = none;
  finished_at = none;
  error_log = [];
  created_at = created;
  updated_at = created;
}

unfoldable pub create_task : Env → CreateCommandInput → Text → Option TaskType → M Tables (Unit {0})
create_task env input command_id none = pure tt
create_task env input command_id (some type) = do
  id ← new_id env.engine
  created ← now env.engine
  insert_task env (new_task input type id command_id created)

-- The body of the transaction.
unfoldable pub create_rows : Env → CreateCommandInput → Text → ℕ → M Tables AgentCommand
unfolding insert_command create_task insert_task
create_rows env input encrypted t = do
  id ← new_id env.engine
  created ← now env.engine
  let command = new_command input id encrypted t created
  insert_command env command
  create_task env input command.id input.task_type
  pure command

unfoldable pub missing_fields : Text
missing_fields = codes "agent id, command type, and message id are required"

unfoldable pub sealing_failed : Text
sealing_failed = codes "marshal or encrypt command payload"

unfoldable pub sealed : Option Text → M Tables Text
sealed none = fail (message sealing_failed)
sealed (some encrypted) = pure encrypted

unfoldable pub is_incomplete : CreateCommandInput → Bool
is_incomplete input =
    is_empty input.agent_id
    || type_eq input.type (MessageType.other [])
    || is_empty input.message.id

unfoldable pub create_command : Env → CreateCommandInput → M Tables AgentCommand
unfolding sealed is_incomplete
create_command env input = if is_incomplete input then fail (message missing_fields) else do
  encrypted ← sealed (env.seal input.message)
  t ← now env.engine
  transaction env.engine (create_rows env input encrypted t)
