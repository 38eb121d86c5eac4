-- ===== src/TaskLogs/Persist.antt =====
-- The table of task logs: `persistLine`, `loadPersistentEntry`, `markPersistentComplete`,
-- `deletePersistentLogs` and `pruneExpiredPersistentLogs` of internal/master/tasklogs/buffer.go. Their
-- errors are logged and dropped.
use vault_fleet.Prelude.{
  ℕ, Bool, not, ◌&&◌, ◌||◌, ◌==◌, ltb, ◌-◌, Option, none, some, List, [], ◌∷◌, ◌++◌, ℤ, pos,
  ltb_int, Text, if◌then◌else◌, where_rows, update_where, count_where, sort_by,
}
use vault_fleet.Engine.{
  Result, ok, err, M, pure, ◌>>=◌, ◌>>◌, now, new_id, statement, transaction, attempt,
}
use vault_fleet.TaskLogs.Model.{TaskLogPayload, TaskLog, Entry, Tables, Env, row_of, bytes_of}

abbrev pub new_row : TaskLogPayload → ℤ → ℕ → ℕ → Text → TaskLog
new_row p latest dropped t id = record {
  id = id;
  agent_id = p.agent_id;
  message_id = p.message_id;
  sequence = p.sequence;
  task_type = p.task_type;
  timestamp = p.timestamp;
  level = p.level;
  phase = p.phase;
  stream = p.stream;
  line = p.line;
  truncated = p.truncated;
  latest_sequence = latest;
  dropped_lines = dropped;
  log_updated_at = t;
  completed_at = none;
  created_at = t;
}

abbrev pub same_sequence : ℤ → ℤ → Bool
same_sequence a b = not (ltb_int a b) && not (ltb_int b a)

-- The columns of the unique index.
abbrev pub same_key : TaskLog → TaskLog → Bool
same_key r x = row_of r.agent_id r.message_id x && same_sequence x.sequence r.sequence

-- The columns that `DoUpdates` assigns.
abbrev pub reassigned : TaskLog → TaskLog → TaskLog
reassigned r x = record x {
  task_type = r.task_type;
  timestamp = r.timestamp;
  level = r.level;
  phase = r.phase;
  stream = r.stream;
  line = r.line;
  truncated = r.truncated;
  latest_sequence = r.latest_sequence;
  dropped_lines = r.dropped_lines;
  log_updated_at = r.log_updated_at;
  completed_at = none;
}

-- `INSERT … ON CONFLICT … DO UPDATE`.
unfoldable pub upsert : TaskLog → List TaskLog → List TaskLog
upsert r rows =
    if count_where (same_key r) rows == 0
    then rows ++ r ∷ []
    else update_where (same_key r) (reassigned r) rows

unfoldable pub delete_rows : Env → (TaskLog → Bool) → M Tables (Unit {0})
delete_rows env p =
    statement env.engine λ t. (tt, record t { rows = where_rows (λ r. not (p r)) t.rows })

abbrev pub older_than : TaskLogPayload → ℤ → TaskLog → Bool
older_than p oldest r = row_of p.agent_id p.message_id r && ltb_int r.sequence oldest

unfoldable pub persist_rows : Env → TaskLogPayload → ℤ → ℕ → ℤ → ℕ → M Tables (Unit {0})
unfolding upsert delete_rows
persist_rows env p latest dropped oldest t = do
  id ← new_id env.engine
  statement env.engine λ s. (tt, record s { rows = upsert (new_row p latest dropped t id) s.rows })
  if ltb_int (pos 0) oldest then delete_rows env (older_than p oldest) else pure tt

unfoldable pub dropping_errors : Bool → M Tables (Unit {0}) → M Tables (Unit {0})
dropping_errors persistent m = if not persistent then pure tt else do dropped ← attempt m; pure tt

unfoldable pub persist_line : Env → TaskLogPayload → ℤ → ℕ → ℤ → ℕ → M Tables (Unit {0})
unfolding persist_rows dropping_errors
persist_line env p latest dropped oldest t =
    dropping_errors env.persistent
      (transaction env.engine (persist_rows env p latest dropped oldest t))

abbrev pub line_of : TaskLog → TaskLogPayload
line_of r = record {
  agent_id = r.agent_id;
  message_id = r.message_id;
  task_type = r.task_type;
  sequence = r.sequence;
  timestamp = r.timestamp;
  level = r.level;
  phase = r.phase;
  stream = r.stream;
  line = r.line;
  truncated = r.truncated;
}

abbrev pub lines_of : List TaskLog → List TaskLogPayload
lines_of [] = []
lines_of (r ∷ rs) = line_of r ∷ lines_of rs

abbrev pub last_row : List TaskLog → Option TaskLog
last_row [] = none
last_row (r ∷ []) = some r
last_row (r ∷ q ∷ rs) = last_row (q ∷ rs)

abbrev pub entry_with : List TaskLog → TaskLog → Entry
entry_with rs latest = record {
  lines = lines_of rs;
  bytes = bytes_of (lines_of rs);
  latest_sequence = latest.latest_sequence;
  dropped_lines = latest.dropped_lines;
  updated_at = latest.log_updated_at;
  completed_at = latest.completed_at;
}

abbrev pub entry_ending : List TaskLog → Option TaskLog → Option Entry
entry_ending rs none = none
entry_ending rs (some latest) = some (entry_with rs latest)

-- The entry that rows stand for.
abbrev pub entry_of : List TaskLog → Option Entry
entry_of rs = entry_ending rs (last_row rs)

-- `ORDER BY sequence ASC`.
abbrev pub by_sequence : TaskLog → TaskLog → Bool
by_sequence x y = not (ltb_int y.sequence x.sequence)

abbrev pub selected : Text → Text → List TaskLog → List TaskLog
selected agent_id message_id rows =
    sort_by by_sequence (where_rows (row_of agent_id message_id) rows)

abbrev pub loaded : Result (List TaskLog) → Option Entry
loaded (ok rs) = entry_of rs
loaded (err e) = none

unfoldable pub load_persistent_entry : Env → Text → Text → M Tables (Option Entry)
load_persistent_entry env agent_id message_id = if not env.persistent then pure none else do
  found ← attempt (statement env.engine λ t. (selected agent_id message_id t.rows, t))
  pure (loaded found)

abbrev pub completed_row : ℕ → TaskLog → TaskLog
completed_row t r = record r { completed_at = some t; log_updated_at = t }

unfoldable pub mark_persistent_complete : Env → Text → Text → ℕ → M Tables (Unit {0})
unfolding dropping_errors
mark_persistent_complete env agent_id message_id t = dropping_errors env.persistent (
    statement env.engine λ s.
      (tt, record s { rows = update_where (row_of agent_id message_id) (completed_row t) s.rows }))

unfoldable pub delete_persistent_logs : Env → Text → Text → M Tables (Unit {0})
unfolding dropping_errors delete_rows
delete_persistent_logs env agent_id message_id =
    dropping_errors env.persistent (delete_rows env (row_of agent_id message_id))

abbrev pub before_cutoff : ℕ → ℕ → ℕ → Bool
before_cutoff now ttl t = ltb ttl (now - t)

-- `completed_at < ? OR (completed_at IS NULL AND log_updated_at < ?)`, with the cutoff `now - ttl`.
abbrev pub prunable : ℕ → ℕ → TaskLog → Option ℕ → Bool
prunable now ttl r (some t) = before_cutoff now ttl t
prunable now ttl r none = before_cutoff now ttl r.log_updated_at

unfoldable pub prune_expired_persistent_logs : Env → M Tables (Unit {0})
unfolding dropping_errors delete_rows
prune_expired_persistent_logs env = if not env.persistent || env.ttl == 0 then pure tt else do
  t ← now env.engine
  dropping_errors env.persistent (delete_rows env λ r. prunable t env.ttl r r.completed_at)
