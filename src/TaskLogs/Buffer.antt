-- ===== src/TaskLogs/Buffer.antt =====
-- The methods of `Buffer` of internal/master/tasklogs/buffer.go. The calls do not overlap: the source
-- writes a line to the table after it has released the mutex.
use vault_fleet.Prelude.{
  ℕ, zero, suc, Bool, true, false, not, ◌&&◌, ◌||◌, ◌==◌, ltb, ◌-◌, Option, none, some, List, [],
  ◌∷◌, ◌++◌, ◌+◌, length, ℤ, pos, negsuc, ltb_int, Text, text_eq, is_empty, if◌then◌else◌,
  where_rows,
}
use vault_fleet.Engine.{M, ok, pure, ◌>>=◌, ◌>>◌, now}
use vault_fleet.TaskLogs.Model.{
  TaskLogPayload, Entry, empty_entry, Snapshot, no_snapshot, Slot, Tables, Env, find_entry,
  set_entry, delete_entry,
}
use vault_fleet.TaskLogs.Limits.{enforce_limits}
use vault_fleet.TaskLogs.Persist.{
  dropping_errors, delete_rows, persist_line, load_persistent_entry, mark_persistent_complete,
  delete_persistent_logs,
}

-- Reading and writing the map is no statement, and never fails.
unfoldable pub entry_locked : Text → Text → M Tables (Option Entry)
unfolding find_entry
entry_locked agent_id message_id d = (ok (find_entry agent_id message_id d.tables.entries), d)

unfoldable pub write_entries : (List Slot → List Slot) → M Tables (Unit {0})
write_entries f d = (ok tt, record d { tables = record d.tables { entries = f d.tables.entries } })

-- The payload as it is kept.
unfoldable pub prepared : Env → Text → Text → TaskLogPayload → ℕ → TaskLogPayload
prepared env agent_id message_id p t = record p {
  agent_id = agent_id;
  message_id = message_id;
  line = env.redact p.line;
  timestamp = if p.timestamp == 0 then t else p.timestamp;
}

-- What `Add` does to an entry.
unfoldable pub appended : Env → TaskLogPayload → ℕ → Entry → Entry
unfolding enforce_limits
appended env p t e = enforce_limits env.max_lines env.max_bytes (record e {
  lines = e.lines ++ p ∷ [];
  bytes = e.bytes + length p.line;
  latest_sequence = if ltb_int e.latest_sequence p.sequence then p.sequence else e.latest_sequence;
  updated_at = t;
  completed_at = none;
})

abbrev pub oldest_sequence : List TaskLogPayload → ℤ
oldest_sequence [] = pos 0
oldest_sequence (p ∷ ps) = p.sequence

abbrev pub entry_or_empty : Option Entry → Entry
entry_or_empty none = empty_entry
entry_or_empty (some e) = e

abbrev pub or_loaded : Env → Text → Text → Option Entry → M Tables (Option Entry)
or_loaded env agent_id message_id none = load_persistent_entry env agent_id message_id
or_loaded env agent_id message_id (some e) = pure (some e)

-- The entry goes into the map, and its last line into the table.
unfoldable pub store_line : Env → TaskLogPayload → ℕ → Entry → M Tables (Unit {0})
unfolding write_entries set_entry
store_line env p t e = do
  write_entries (set_entry p.agent_id p.message_id e)
  persist_line env p e.latest_sequence e.dropped_lines (oldest_sequence e.lines) t

abbrev pub add_found : Env → TaskLogPayload → ℕ → Option Entry → M Tables (Unit {0})
add_found env p t found = store_line env p t (appended env p t (entry_or_empty found))

unfoldable pub add_line : Env → TaskLogPayload → ℕ → M Tables (Unit {0})
unfolding entry_locked appended
add_line env p t = do
  held ← entry_locked p.agent_id p.message_id
  found ← or_loaded env p.agent_id p.message_id held
  add_found env p t found

unfoldable pub add : Env → Text → Text → TaskLogPayload → M Tables (Unit {0})
unfolding add_line prepared
add env agent_id message_id payload =
    if is_empty agent_id || is_empty message_id then pure tt else do
      t ← now env.engine
      let p = prepared env agent_id message_id payload t
      if is_empty p.line then pure tt else add_line env p t

abbrev pub complete_held : Text → Text → ℕ → Option Entry → M Tables (Unit {0})
complete_held agent_id message_id t none = pure tt
complete_held agent_id message_id t (some e) =
    write_entries
      (set_entry agent_id message_id (record e { completed_at = some t; updated_at = t }))

unfoldable pub mark_complete : Env → Text → Text → M Tables (Unit {0})
unfolding entry_locked write_entries set_entry
mark_complete env agent_id message_id =
    if is_empty agent_id || is_empty message_id then pure tt else do
      t ← now env.engine
      held ← entry_locked agent_id message_id
      complete_held agent_id message_id t held
      mark_persistent_complete env agent_id message_id t

-- `isExpired`; `now.Sub` of a later time is negative.
abbrev pub expired_since : Env → ℕ → ℕ → Option ℕ → Bool
expired_since env t updated_at (some completed_at) = ltb env.ttl (t - completed_at)
expired_since env t updated_at none = not (updated_at == 0) && ltb env.ttl (t - updated_at)

unfoldable pub is_expired : Env → Entry → ℕ → Bool
is_expired env e t = not (env.ttl == 0) && expired_since env t e.updated_at e.completed_at

-- The loop of `Get`: it stops when `limit` lines are found.
unfoldable pub lines_after : ℤ → ℕ → List TaskLogPayload → List TaskLogPayload
lines_after after zero ps = []
lines_after after (suc n) [] = []
lines_after after (suc n) (p ∷ ps) =
    let rest = lines_after after n ps in
    let skipped = lines_after after (suc n) ps in
    if ltb_int after p.sequence then p ∷ rest else skipped

unfoldable pub limit_of : ℤ → ℕ
limit_of (pos zero) = 200
limit_of (pos (suc n)) = if ltb 1000 (suc n) then 1000 else suc n
limit_of (negsuc n) = 200

abbrev pub snapshot_of : Entry → ℤ → ℤ → Snapshot
snapshot_of e after limit = record {
  lines = lines_after after (limit_of limit) e.lines;
  latest_sequence = e.latest_sequence;
  truncated = ltb 0 e.dropped_lines;
  dropped_lines = e.dropped_lines;
  exists = true;
  expired = false;
}

abbrev pub expired_snapshot : Entry → Snapshot
expired_snapshot e = record {
  lines = [];
  latest_sequence = e.latest_sequence;
  truncated = ltb 0 e.dropped_lines;
  dropped_lines = e.dropped_lines;
  exists = true;
  expired = true;
}

unfoldable pub get_found : Env → Text → Text → ℤ → ℤ → ℕ → Option Entry → M Tables Snapshot
unfolding is_expired write_entries delete_entry lines_after limit_of
get_found env agent_id message_id after limit t none = pure no_snapshot
get_found env agent_id message_id after limit t (some e) =
    if is_expired env e t
    then (do
      write_entries (delete_entry agent_id message_id)
      delete_persistent_logs env agent_id message_id
      pure (expired_snapshot e))
    else pure (snapshot_of e after limit)

-- An entry that was not in the map and has been loaded is put there.
abbrev pub keep_loaded : Text → Text → Option Entry → Option Entry → M Tables (Unit {0})
keep_loaded agent_id message_id none (some e) = write_entries (set_entry agent_id message_id e)
keep_loaded agent_id message_id _ _ = pure tt

abbrev pub get_kept :
    Env → Text → Text → ℤ → ℤ → ℕ → Option Entry → Option Entry → M Tables Snapshot
get_kept env agent_id message_id after limit t held found = do
  keep_loaded agent_id message_id held found
  get_found env agent_id message_id after limit t found

unfoldable pub get : Env → Text → Text → ℤ → ℤ → M Tables Snapshot
unfolding entry_locked get_found write_entries set_entry
get env agent_id message_id after limit =
    if is_empty agent_id || is_empty message_id then pure no_snapshot else do
      t ← now env.engine
      held ← entry_locked agent_id message_id
      found ← or_loaded env agent_id message_id held
      get_kept env agent_id message_id after limit t held found

unfoldable pub delete_agent : Env → Text → M Tables (Unit {0})
unfolding write_entries
delete_agent env agent_id = if is_empty agent_id then pure tt else do
  write_entries λ ss. where_rows (λ s. not (text_eq s.agent_id agent_id)) ss
  dropping_errors env.persistent (delete_rows env λ r. text_eq r.agent_id agent_id)
