-- ===== src/TaskLogs/Examples.antt =====
-- Runs of the task logs of internal/master/tasklogs/buffer.go.
use vault_fleet.Prelude.{
  arith, ltb, ℕ, ◌≤◌, ◌≡◌, refl, true, false, none, some, List, [], ◌∷◌, ◌++◌, ◌+◌, length,
  where_rows, Text, text_eq, pos,
}
use vault_fleet.Engine.{now, attempt, statement, Engine, Db, ok}
use vault_fleet.TaskLogs.Model.{
  TaskLogPayload, Entry, no_snapshot, Tables, Env, new_buffer_with_limits, find_entry, bytes_of,
}
use vault_fleet.TaskLogs.Buffer.{add, snapshot_of, is_expired, get, delete_agent, mark_complete}
use vault_fleet.TaskLogs.Calls.{step, Call, completes, gets, deletes, run}
use vault_fleet.TaskLogs.Counted.Adds.{add_keeps_longest}
use vault_fleet.TaskLogs.Pages.{newer, Ascending, pages, pages_read_all}
use vault_fleet.TaskLogs.Persist.{
  dropping_errors, delete_rows, load_persistent_entry, mark_persistent_complete,
}
use vault_fleet.TaskLogs.Reload.{rows_of}
use vault_fleet.TaskLogs.Forget.{expired_log_reported_once, deletes_one_agent}

abbrev engine : Engine
engine = record { fails = λ n. false; clock = λ n. 100; uuid = λ n. n ∷ [] }

-- Two lines of ten bytes at most.
abbrev env : Env
env = record {
  engine = engine;
  redact = λ t. t;
  persistent = true;
  max_lines = 2;
  max_bytes = 10;
  ttl = 5;
}

abbrev agent : Text
agent = 1 ∷ []

abbrev task : Text
task = 2 ∷ []

abbrev line : ℕ → Text → TaskLogPayload
line n t = record {
  agent_id = agent;
  message_id = task;
  task_type = [];
  sequence = pos n;
  timestamp = 3;
  level = [];
  phase = [];
  stream = [];
  line = t;
  truncated = false;
}

abbrev three_lines : List TaskLogPayload
three_lines = line 1 (7 ∷ []) ∷ line 2 (8 ∷ 8 ∷ []) ∷ line 3 (9 ∷ []) ∷ []

abbrev start : Db Tables
start = record { tables = record { entries = []; rows = [] }; tick = 0 }

abbrev old_entry : Entry
old_entry = record {
  lines = three_lines;
  bytes = 4;
  latest_sequence = pos 3;
  dropped_lines = 0;
  updated_at = 10;
  completed_at = none;
}

abbrev with_old : Db Tables
with_old = record {
  tables = record {
    entries = record { agent_id = agent; message_id = task; item = old_entry } ∷ [];
    rows = [];
  };
  tick = 0;
}

defaults : (new_buffer_with_limits engine (λ t. t) true (pos 0) (pos 9) (pos 0)).max_lines ≡ 2000
unfolding new_buffer_with_limits
defaults = refl

abbrev calls : List Call
calls = deletes (3 ∷ []) ∷ gets (3 ∷ []) task (pos 1) (pos 1) ∷ completes (3 ∷ []) task ∷ []

still_held : find_entry agent task (run env calls with_old).tables.entries ≡ some old_entry
unfolding run step delete_agent mark_complete get find_entry now dropping_errors attempt delete_rows
    statement text_eq load_persistent_entry mark_persistent_complete
still_held = refl

add_keeps_longest_example :
    let held = run env calls with_old in
    (new : Entry) × (find_entry agent task
        (add env agent task (line 4 (5 ∷ [])) held).1.tables.entries
      ≡ some new)
    × ((front : List TaskLogPayload) × (old_entry.lines ++ line 4 (5 ∷ []) ∷ []
          ≡ front ++ new.lines)
        × (new.dropped_lines ≡ 0 + length front))
    × (length new.lines ≤ 2)
    × (bytes_of new.lines ≤ 10)
    × (new.bytes ≡ bytes_of new.lines)
    × ((u v : List TaskLogPayload)
        → old_entry.lines ++ line 4 (5 ∷ []) ∷ [] ≡ u ++ v
        → length v ≤ 2
        → bytes_of v ≤ 10
        → length v ≤ length new.lines)
add_keeps_longest_example =
    add_keeps_longest env calls with_old agent task old_entry (line 4 (5 ∷ [])) (refl, tt)
      still_held refl refl

three_rising : Ascending three_lines
three_rising = ((refl, (refl, tt)), ((refl, tt), (tt, tt)))

pages_read_all_example :
    (pages 3 (pos 1) (pos 1) old_entry ≡ where_rows (newer (pos 1)) old_entry.lines)
    × (length (snapshot_of old_entry (pos 1) (pos 1)).lines ≤ 1000)
pages_read_all_example = pages_read_all 3 (pos 1) (pos 1) old_entry three_rising (omega arith)

old_held : find_entry agent task with_old.tables.entries ≡ some old_entry
unfolding find_entry text_eq
old_held = refl

old_expired : is_expired env old_entry (env.engine.clock with_old.tick) ≡ true
unfolding is_expired
old_expired = refl

expired_log_reported_once_example :
    ((get env agent task (pos 0) (pos 5) with_old).0
      ≡ ok (record {
        lines = [];
        latest_sequence = pos 3;
        truncated = ltb 0 0;
        dropped_lines = 0;
        exists = true;
        expired = true;
      }))
    × ((get env agent task (pos 0) (pos 5) (get env agent task (pos 0) (pos 5) with_old).1).0
        ≡ ok (record {
          lines = [];
          latest_sequence = pos 0;
          truncated = false;
          dropped_lines = 0;
          exists = false;
          expired = false;
        }))
expired_log_reported_once_example =
    expired_log_reported_once env agent task (pos 0) (pos 5) old_entry with_old (refl, λ n. refl)
      refl old_held old_expired

deletes_one_agent_example :
    ((get env agent task (pos 0) (pos 5) (delete_agent env agent with_old).1).0 ≡ ok no_snapshot)
    × ((b n : Text)
        → text_eq agent b ≡ false
        → (find_entry b n (delete_agent env agent with_old).1.tables.entries
            ≡ find_entry b n with_old.tables.entries)
          × (rows_of b n (delete_agent env agent with_old).1.tables ≡ rows_of b n with_old.tables))
deletes_one_agent_example =
    deletes_one_agent env agent task (pos 0) (pos 5) with_old (refl, λ n. refl) refl
