-- ===== src/TaskLogs/Model.antt =====
-- The data of the task logs: TaskLogPayload of pkg/protocol/message.go, TaskLog of
-- internal/master/db/models.go, and the types of internal/master/tasklogs/buffer.go.
use vault_fleet.Prelude.{
  ℕ, Bool, false, ◌+◌, ◌&&◌, ◌*◌, Option, none, some, List, [], ◌∷◌, ℤ, pos, positive_or_default,
  Text, text_eq, length, if◌then◌else◌,
}
use vault_fleet.Engine.{Engine}

pub record TaskLogPayload : Type 0 where
  pub agent_id : Text
  pub message_id : Text
  pub task_type : Text
  pub sequence : ℤ
  pub timestamp : ℕ
  pub level : Text
  pub phase : Text
  pub stream : Text
  pub line : Text
  pub truncated : Bool

-- A row of the table. `(agent_id, message_id, sequence)` is unique.
pub record TaskLog : Type 0 where
  pub id : Text
  pub agent_id : Text
  pub message_id : Text
  pub sequence : ℤ
  pub task_type : Text
  pub timestamp : ℕ
  pub level : Text
  pub phase : Text
  pub stream : Text
  pub line : Text
  pub truncated : Bool
  pub latest_sequence : ℤ
  pub dropped_lines : ℕ
  pub log_updated_at : ℕ
  pub completed_at : Option ℕ
  pub created_at : ℕ

pub record Entry : Type 0 where
  pub lines : List TaskLogPayload
  pub bytes : ℕ
  pub latest_sequence : ℤ
  pub dropped_lines : ℕ
  pub updated_at : ℕ
  pub completed_at : Option ℕ

abbrev pub empty_entry : Entry
empty_entry = record {
  lines = [];
  bytes = 0;
  latest_sequence = pos 0;
  dropped_lines = 0;
  updated_at = 0;
  completed_at = none;
}

pub record Snapshot : Type 0 where
  pub lines : List TaskLogPayload
  pub latest_sequence : ℤ
  pub truncated : Bool
  pub dropped_lines : ℕ
  pub exists : Bool
  pub expired : Bool

abbrev pub no_snapshot : Snapshot
no_snapshot = record {
  lines = [];
  latest_sequence = pos 0;
  truncated = false;
  dropped_lines = 0;
  exists = false;
  expired = false;
}

-- An entry of the map, by its `key`.
pub record Slot : Type 0 where
  pub agent_id : Text
  pub message_id : Text
  pub item : Entry

-- The map in memory and the table on disk.
pub record Tables : Type 0 where
  pub entries : List Slot
  pub rows : List TaskLog

-- The fields of a `Buffer` that do not change, and `redact.Text`; `persistent` tells whether the
-- buffer has a database.
pub record Env : Type 0 where
  pub engine : Engine
  pub redact : Text → Text
  pub persistent : Bool
  pub max_lines : ℕ
  pub max_bytes : ℕ
  pub ttl : ℕ

abbrev pub default_max_lines : ℕ
default_max_lines = 2000

abbrev pub default_max_bytes : ℕ
default_max_bytes = 512 * 1024

-- 24 hours.
abbrev pub default_ttl : ℕ
default_ttl = 86400000000000

-- `NewBufferWithLimits` and `NewPersistentBufferWithLimits`: the limits that a buffer gets.
unfoldable pub new_buffer_with_limits : Engine → (Text → Text) → Bool → ℤ → ℤ → ℤ → Env
new_buffer_with_limits engine redact persistent max_lines max_bytes ttl = record {
  engine = engine;
  redact = redact;
  persistent = persistent;
  max_lines = positive_or_default max_lines default_max_lines;
  max_bytes = positive_or_default max_bytes default_max_bytes;
  ttl = positive_or_default ttl default_ttl;
}

abbrev pub slot_of : Text → Text → Slot → Bool
slot_of agent_id message_id s = text_eq s.agent_id agent_id && text_eq s.message_id message_id

abbrev pub row_of : Text → Text → TaskLog → Bool
row_of agent_id message_id r = text_eq r.agent_id agent_id && text_eq r.message_id message_id

unfoldable pub find_entry : Text → Text → List Slot → Option Entry
find_entry agent_id message_id [] = none
find_entry agent_id message_id (s ∷ ss) =
    if slot_of agent_id message_id s then some s.item else find_entry agent_id message_id ss

unfoldable pub delete_entry : Text → Text → List Slot → List Slot
delete_entry agent_id message_id [] = []
delete_entry agent_id message_id (s ∷ ss) =
    if slot_of agent_id message_id s
    then delete_entry agent_id message_id ss
    else s ∷ delete_entry agent_id message_id ss

-- `b.entries[key] = item`, and a write through the pointer that the map holds.
unfoldable pub set_entry : Text → Text → Entry → List Slot → List Slot
unfolding delete_entry
set_entry agent_id message_id item ss =
    record { agent_id = agent_id; message_id = message_id; item = item }
    ∷ delete_entry agent_id message_id ss

-- The bytes that lines take.
abbrev pub bytes_of : List TaskLogPayload → ℕ
bytes_of [] = 0
bytes_of (p ∷ ps) = length p.line + bytes_of ps
