-- ===== src/TaskLogs/Reload.antt =====
-- What a buffer that starts again reads of its table (internal/master/tasklogs/buffer.go).
use mathlib.Core.Path.{subst}
use vault_fleet.Prelude.{
  ℕ, suc, ◌≤◌, ◌≡◌, refl, sym, ap, ◌∙◌, true, false, not, Option, none, some, List, length,
  where_rows, Text, text_eq_refl, ℤ, pos, ltb_int,
}
use vault_fleet.Engine.{Db, ok, statement, new_id, attempt, transaction, commit}
use vault_fleet.TaskLogs.Model.{
  TaskLogPayload, TaskLog, Entry, Slot, Tables, Env, row_of, find_entry, set_entry,
}
use vault_fleet.TaskLogs.Persist.{
  new_row, upsert, older_than, entry_of, persist_line, persist_rows, dropping_errors, delete_rows,
  load_persistent_entry,
}
use vault_fleet.TaskLogs.Buffer.{
  entry_locked, write_entries, or_loaded, entry_or_empty, store_line, add_found, add_line,
  oldest_sequence,
}
use vault_fleet.TaskLogs.Restart.{Until, since, upsert-new, where_rows-since, sort_by-rising}
use vault_fleet.TaskLogs.Pages.{Ascending}
use vault_fleet.TaskLogs.Mirror.{Mirrors, next_entry, next_rows, next_latest, next-Mirrors}

-- The rows of one task.
abbrev pub rows_of : Text → Text → Tables → List TaskLog
rows_of a m t = where_rows (row_of a m) t.rows

-- The entry in memory is what the rows stand for, and the rows rise.
abbrev pub Kept : Text → Text → Tables → Type 0
Kept a m t =
    (find_entry a m t.entries ≡ entry_of (rows_of a m t))
    × Mirrors (rows_of a m t) (entry_or_empty (entry_of (rows_of a m t)))

-- The same, with the latest sequence.
abbrev pub KeptUntil : ℤ → Text → Text → Tables → Type 0
KeptUntil s a m t = Kept a m t × ((entry_or_empty (find_entry a m t.entries)).latest_sequence ≡ s)

-- Every statement succeeds, and the buffer has a database.
abbrev pub Healthy : Env → Type 0
Healthy env = (env.persistent ≡ true) × ((n : ℕ) → env.engine.fails n ≡ false)

persist_line-tables :
    (env : Env) (p : TaskLogPayload) (l : ℤ) (n : ℕ) (o : ℤ) (t : ℕ) (d : Db Tables)
    → Healthy env
    → ltb_int (pos 0) o ≡ true
    → (persist_line env p l n o t d).1.tables ≡ record d.tables {
      rows =
          where_rows
            (λ r. not (older_than p o r))
            (upsert (new_row p l n t (env.engine.uuid d.tick)) d.tables.rows);
    }
unfolding persist_line persist_rows dropping_errors delete_rows attempt transaction commit statement
    new_id
persist_line-tables env p l n o t d h k =
    rw (h.0, h.1 (suc d.tick), k, h.1 (suc (suc d.tick)), h.1 (suc (suc (suc d.tick)))) refl

pub find_entry-set :
    (a m : Text) (e : Entry) (ss : List Slot) → find_entry a m (set_entry a m e ss) ≡ some e
unfolding find_entry set_entry
find_entry-set a m e ss = rw (text_eq_refl a, text_eq_refl m) refl

-- What a load finds, and that it leaves the tables as they are.
pub load-rows :
    (env : Env) (a m : Text) (d : Db Tables)
    → Healthy env
    → Mirrors (rows_of a m d.tables) (entry_or_empty (entry_of (rows_of a m d.tables)))
    → load_persistent_entry env a m d
      ≡ (ok (entry_of (rows_of a m d.tables)), record d { tick = suc d.tick })
unfolding load_persistent_entry attempt statement
load-rows env a m d h w =
    rw
      (
        h.0,
        h.1 d.tick,
        sort_by-rising (rows_of a m d.tables) (subst Ascending (sym w.lines) w.rising),
      )
      refl

-- The entry that `Add` and `Get` go on with is what the rows stand for.
pub or_loaded-rows :
    (env : Env) (a m : Text) (o : Option Entry) (d : Db Tables)
    → Healthy env
    → Mirrors (rows_of a m d.tables) (entry_or_empty (entry_of (rows_of a m d.tables)))
    → o ≡ entry_of (rows_of a m d.tables)
    → (n : ℕ) × (or_loaded env a m o d
        ≡ (ok (entry_of (rows_of a m d.tables)), record d { tick = n }))
or_loaded-rows env a m none d h w e = (suc d.tick, load-rows env a m d h w)
or_loaded-rows env a m (some x) d h w e = (d.tick, ap (λ y. (ok y, d)) e)

store_line-tables :
    (env : Env) (p : TaskLogPayload) (t : ℕ) (e : Entry) (d : Db Tables)
    → Healthy env
    → ltb_int (pos 0) (oldest_sequence e.lines) ≡ true
    → (store_line env p t e d).1.tables ≡ record {
      entries = set_entry p.agent_id p.message_id e d.tables.entries;
      rows =
          where_rows
            (λ r. not (older_than p (oldest_sequence e.lines) r))
            (upsert
              (new_row p e.latest_sequence e.dropped_lines t (env.engine.uuid d.tick))
              d.tables.rows);
    }
unfolding store_line write_entries
store_line-tables env p t e d h k =
    persist_line-tables env p e.latest_sequence e.dropped_lines (oldest_sequence e.lines) t
      (record d {
        tables = record d.tables { entries = set_entry p.agent_id p.message_id e d.tables.entries };
      })
      h k

-- A line that a log takes: later than those before it, and within the limit of bytes.
abbrev pub Fits : Env → Entry → TaskLogPayload → Type 0
Fits env e p =
    (ltb_int e.latest_sequence p.sequence ≡ true)
    × (1 ≤ env.max_lines)
    × (length p.line ≤ env.max_bytes)

pub add_found-Kept :
    (env : Env) (p : TaskLogPayload) (t : ℕ) (o : Option Entry) (d : Db Tables)
    → Healthy env
    → o ≡ entry_of (rows_of p.agent_id p.message_id d.tables)
    → Mirrors (rows_of p.agent_id p.message_id d.tables) (entry_or_empty o)
    → Fits env (entry_or_empty o) p
    → KeptUntil p.sequence p.agent_id p.message_id (add_found env p t o d).1.tables
add_found-Kept env p t o d h e w f =
    let a = p.agent_id in
    let m = p.message_id in
    let item = entry_or_empty o in
    let id = env.engine.uuid d.tick in
    let rs = rows_of a m d.tables in
    let next = next-Mirrors env p t id item rs w f.0 f.1 f.2 in
    let new = next_entry env p t id item in
    let row = new_row p new.latest_sequence new.dropped_lines t id in
    let rows =
      where_rows (λ r. not (older_than p (oldest_sequence new.lines) r))
        (upsert row d.tables.rows) in
    let same : where_rows (row_of a m) rows ≡ next_rows env p t id item rs =
      where_rows-since p (oldest_sequence new.lines) (upsert row d.tables.rows)
      ∙ ap (where_rows (since (oldest_sequence new.lines))) (
          upsert-new row item.latest_sequence d.tables.rows f.0
            (subst (Until item.latest_sequence) (sym w.lines) w.newest)) in
    let loads : entry_of (where_rows (row_of a m) rows) ≡ some new = ap entry_of same ∙ next.1 in
    let found = find_entry-set a m new d.tables.entries in
    subst (KeptUntil p.sequence a m) (sym (store_line-tables env p t new d h next.2)) (
      (
        found ∙ sym loads,
        subst (λ x. Mirrors (where_rows (row_of a m) rows) (entry_or_empty x)) (sym loads)
            (subst (λ xs. Mirrors xs new) (sym same) next.0),
      ),
      ap (λ x. (entry_or_empty x).latest_sequence) found ∙ next_latest env p t id item f.0,
    )

pub add_line-Kept :
    (env : Env) (p : TaskLogPayload) (t : ℕ) (d : Db Tables)
    → Healthy env
    → Kept p.agent_id p.message_id d.tables
    → Fits env (entry_or_empty (find_entry p.agent_id p.message_id d.tables.entries)) p
    → KeptUntil p.sequence p.agent_id p.message_id (add_line env p t d).1.tables
unfolding add_line entry_locked
add_line-Kept env p t d h w f =
    let a = p.agent_id in
    let m = p.message_id in
    let o = entry_of (rows_of a m d.tables) in
    let r = or_loaded-rows env a m (find_entry a m d.tables.entries) d h w.1 w.0 in
    rw (r.1) (
      add_found-Kept env p t o (record d { tick = r.0 }) h refl w.1
        (subst (λ x. Fits env (entry_or_empty x) p) w.0 f))
