-- ===== src/Commands/Model.antt =====
-- The constants, rows and tables of internal/master/commands/service.go and internal/master/db/
-- models.go, and the statements on one table.
use vault_fleet.Prelude.{
  ℕ, ◌+◌, ◌*◌, Bool, true, false, ◌||◌, Option, none, some, List, ◌==◌, Text, text_eq,
  if◌then◌else◌, update_where, count_where, where_rows, first_where,
}
use vault_fleet.Engine.{Engine, M, statement}

pub data CommandStatus : Type 0 where
  pending dispatched running succeeded failed timeout cancelled : CommandStatus

-- A task's status is written by agents too: `other` is any text that is no constant.
pub data TaskStatus : Type 0 where
  pending running success partial_success failed timeout cancelled : TaskStatus
  other : Text → TaskStatus

-- The message types that the service tells apart; `other` is the name of any other.
pub data MessageType : Type 0 where
  policy_push backup_now backup_verify_req restore_req selective_restore_req : MessageType
  snapshot_list_req snapshot_browse_req cancel_task : MessageType
  other : Text → MessageType

rank : MessageType → ℕ
rank policy_push = 0
rank backup_now = 1
rank backup_verify_req = 2
rank restore_req = 3
rank selective_restore_req = 4
rank snapshot_list_req = 5
rank snapshot_browse_req = 6
rank cancel_task = 7
rank (other n) = 8

-- `=` on the column `type`.
unfoldable pub type_eq : MessageType → MessageType → Bool
unfolding rank
type_eq (other m) (other n) = text_eq m n
type_eq a b = rank a == rank b

-- The task types of a task history row.
pub data TaskType : Type 0 where
  backup verify restore : TaskType
  other : Text → TaskType

pub record Message : Type 0 where
  pub id : Text
  pub type : MessageType
  pub payload : Text

pub record AgentCommand : Type 0 where
  pub id : Text
  pub agent_id : Text
  pub type : MessageType
  pub status : CommandStatus
  pub message_id : Text
  pub payload : Text
  pub result : Text
  pub error_message : Text
  pub attempts : ℕ
  pub policy_id : Text
  pub policy_updated_at : Option ℕ
  pub storage_id : Text
  pub deadline_at : Option ℕ
  pub dispatched_at : Option ℕ
  pub completed_at : Option ℕ
  pub created_at : ℕ
  pub updated_at : ℕ

-- What a task result brings into a task history row.
pub record Report : Type 0 where
  pub artifact_path : Text
  pub artifact_name : Text
  pub artifact_size : ℕ
  pub artifact_content_type : Text
  pub backup_mode : Text
  pub archive_format : Text
  pub duration_ms : ℕ
  pub repo_size : ℕ

-- The columns that hold JSON documents.
pub record Documents : Type 0 where
  pub docker : Text
  pub database : Text
  pub verification : Text
  pub artifact_naming : Text
  pub restore_items : Text

pub record TaskHistory : Type 0 where
  pub id : Text
  pub agent_id : Text
  pub type : TaskType
  pub status : TaskStatus
  pub snapshot_id : Text
  pub report : Report
  pub documents : Documents
  pub message_id : Text
  pub command_id : Text
  pub policy_id : Text
  pub policy_name : Text
  pub storage_id : Text
  pub started_at : Option ℕ
  pub finished_at : Option ℕ
  pub error_log : Text
  pub created_at : ℕ
  pub updated_at : ℕ

-- The columns of an agent that the service reads.
pub record Agent : Type 0 where
  pub id : Text
  pub system_info : Text

-- A message that the hub has taken for an agent.
pub record Delivery : Type 0 where
  pub agent_id : Text
  pub message : Message

pub record Tables : Type 0 where
  pub commands : List AgentCommand
  pub tasks : List TaskHistory
  pub agents : List Agent
  pub sent : List Delivery

-- What a stored payload is when it is opened: a message, or a failure with its text.
pub data Unsealed : Type 0 where
  opened : Message → Unsealed
  broken : Text → Unsealed

-- What the service uses of other code: the engine, `json` with `db.Encrypt` and `db.Decrypt`, and
-- the hub, whose answers may change from one call to the next.
pub record Env : Type 0 where
  pub engine : Engine
  pub seal : Message → Option Text
  pub unseal : Text → Unsealed
  pub include_paths : Text → Option (List Text)
  pub capabilities : Text → Option (List Text)
  pub cancel_payload : Text → Text → Text
  pub is_online : ℕ → Text → Bool
  pub send_error : ℕ → Text → Message → Option Text

abbrev pub second : ℕ
second = 1_000_000_000

abbrev pub minute : ℕ
minute = 60 * second

abbrev pub hour : ℕ
hour = 60 * minute

-- `isTerminal`, and the list `terminalStatuses`.
abbrev pub is_terminal : CommandStatus → Bool
is_terminal succeeded = true
is_terminal failed = true
is_terminal timeout = true
is_terminal cancelled = true
is_terminal _ = false

-- The list `{pending, dispatched, running}` of the conditions.
abbrev pub is_active : CommandStatus → Bool
is_active pending = true
is_active dispatched = true
is_active running = true
is_active _ = false

abbrev pub is_pending : CommandStatus → Bool
is_pending pending = true
is_pending _ = false

-- The list `{pending, dispatched}`.
abbrev pub is_undelivered : CommandStatus → Bool
is_undelivered pending = true
is_undelivered dispatched = true
is_undelivered _ = false

abbrev pub is_task_pending : TaskStatus → Bool
is_task_pending pending = true
is_task_pending _ = false

abbrev pub is_task_running : TaskStatus → Bool
is_task_running running = true
is_task_running _ = false

abbrev pub is_task_active : TaskStatus → Bool
is_task_active s = is_task_pending s || is_task_running s

abbrev pub is_task_terminal : TaskStatus → Bool
is_task_terminal success = true
is_task_terminal partial_success = true
is_task_terminal failed = true
is_task_terminal timeout = true
is_task_terminal cancelled = true
is_task_terminal _ = false

abbrev pub is_long_running : MessageType → Bool
is_long_running backup_now = true
is_long_running backup_verify_req = true
is_long_running restore_req = true
is_long_running selective_restore_req = true
is_long_running _ = false

abbrev pub is_cancelable_on_timeout : MessageType → Bool
is_cancelable_on_timeout backup_now = true
is_cancelable_on_timeout backup_verify_req = true
is_cancelable_on_timeout restore_req = true
is_cancelable_on_timeout selective_restore_req = true
is_cancelable_on_timeout snapshot_list_req = true
is_cancelable_on_timeout snapshot_browse_req = true
is_cancelable_on_timeout _ = false

abbrev pub task_type_for_command : MessageType → Option TaskType
task_type_for_command backup_now = some backup
task_type_for_command backup_verify_req = some verify
task_type_for_command restore_req = some restore
task_type_for_command selective_restore_req = some restore
task_type_for_command _ = none

-- What the outcome of a task makes of its command.
abbrev pub result_status : TaskStatus → CommandStatus
result_status success = CommandStatus.succeeded
result_status cancelled = CommandStatus.cancelled
result_status _ = CommandStatus.failed

abbrev pub is_success : TaskStatus → Bool
is_success success = true
is_success _ = false

-- A number for each task type; that of a command is never `other`.
abbrev pub task_rank : TaskType → ℕ
task_rank backup = 0
task_rank verify = 1
task_rank restore = 2
task_rank (other n) = 3

-- `dispatched` or `running`.
abbrev pub was_delivered : CommandStatus → Bool
was_delivered dispatched = true
was_delivered running = true
was_delivered _ = false

-- `nullableTime`: the zero time is no time.
abbrev pub nullable_time : ℕ → Option ℕ
nullable_time t = if t == 0 then none else some t

-- `DeadlineForType`.
unfoldable pub deadline_for_type : MessageType → ℕ → ℕ
deadline_for_type policy_push now = now + 5 * minute
deadline_for_type snapshot_list_req now = now + 2 * minute
deadline_for_type backup_now now = now + 6 * hour
deadline_for_type backup_verify_req now = now + 6 * hour
deadline_for_type restore_req now = now + 6 * hour
deadline_for_type selective_restore_req now = now + 6 * hour
deadline_for_type _ now = now + 30 * minute

-- `UPDATE agent_commands SET f WHERE p`, with the rows affected.
unfoldable pub update_commands :
    Engine → (AgentCommand → Bool) → (AgentCommand → AgentCommand) → M Tables ℕ
update_commands env p f =
    statement env
      λ t. (count_where p t.commands, record t { commands = update_where p f t.commands })

unfoldable pub update_tasks :
    Engine → (TaskHistory → Bool) → (TaskHistory → TaskHistory) → M Tables (Unit {0})
update_tasks env p f = statement env λ t. (tt, record t { tasks = update_where p f t.tasks })

unfoldable pub find_commands : Engine → (AgentCommand → Bool) → M Tables (List AgentCommand)
find_commands env p = statement env λ t. (where_rows p t.commands, t)

unfoldable pub first_command : Engine → (AgentCommand → Bool) → M Tables (Option AgentCommand)
first_command env p = statement env λ t. (first_where p t.commands, t)

-- The conditions `id = ?` and `command_id = ?`.
abbrev pub has_id : Text → AgentCommand → Bool
has_id i c = text_eq c.id i

abbrev pub of_command : Text → TaskHistory → Bool
of_command i t = text_eq t.command_id i
