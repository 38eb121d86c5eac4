-- ===== src/TaskLogs/Forget.antt =====
-- What `Get` and `DeleteAgent` of internal/master/tasklogs/buffer.go remove.
use vault_fleet.Prelude.{
  arith, suc, pos, ltb, ◌≡◌, refl, ap, ◌∙◌, Bool, true, false, not, ◌||◌, inl, inr, Bool-cases,
  none, some, List, [], ◌∷◌, Text, text_eq, text_eq_iff, text_eq_refl, ℤ, if◌then◌else◌, is_empty,
  where_rows,
}
use vault_fleet.Engine.{Db, ok, attempt, statement, now}
use vault_fleet.TaskLogs.Model.{
  TaskLog, Entry, Slot, no_snapshot, Tables, Env, find_entry, delete_entry, row_of, slot_of,
}
use vault_fleet.TaskLogs.Persist.{entry_of, dropping_errors, delete_rows, delete_persistent_logs}
use vault_fleet.TaskLogs.Buffer.{
  entry_locked, write_entries, is_expired, expired_snapshot, get_found, get, delete_agent,
}
use vault_fleet.TaskLogs.Reload.{rows_of, Healthy, or_loaded-rows}
use vault_fleet.TaskLogs.Roundtrip.{Kept-start, get-shown, shown}

find_entry-delete : (a m : Text) (ss : List Slot) → find_entry a m (delete_entry a m ss) ≡ none
unfolding find_entry delete_entry
find_entry-delete a m [] = refl
find_entry-delete a m (s ∷ ss) = elim (Bool-cases (slot_of a m s)) [
  | inl e ↦ rw e (find_entry-delete a m ss)
  | inr e ↦ rw (e, e) (find_entry-delete a m ss)
]

rows_gone :
    (p : TaskLog → Bool) (rs : List TaskLog) → where_rows p (where_rows (λ r. not (p r)) rs) ≡ []
rows_gone p [] = refl
rows_gone p (r ∷ rs) = elim (Bool-cases (p r)) [
  | inl e ↦ rw e (rows_gone p rs)
  | inr e ↦ rw (e, e) (rows_gone p rs)
]

-- A task of which nothing is kept.
get-nothing :
    (env : Env) (a m : Text) (after limit : ℤ) (d : Db Tables)
    → Healthy env
    → (is_empty a || is_empty m) ≡ false
    → find_entry a m d.tables.entries ≡ none
    → rows_of a m d.tables ≡ []
    → (get env a m after limit d).0 ≡ ok no_snapshot
get-nothing env a m after limit d h names e r =
    let w = (Kept-start a m d.tables e r).0 in
    get-shown env a m after limit d h names w.1
      (or_loaded-rows env a m (find_entry a m d.tables.entries) d h w.1 w.0)
    ∙ ap (λ rs. ok (shown env after limit (env.engine.clock d.tick) (entry_of rs))) r

expired-tables :
    (env : Env) (a m : Text) (after limit : ℤ) (e : Entry) (d : Db Tables)
    → Healthy env
    → (is_empty a || is_empty m) ≡ false
    → find_entry a m d.tables.entries ≡ some e
    → is_expired env e (env.engine.clock d.tick) ≡ true
    → (get env a m after limit d) ≡ (
      ok (expired_snapshot e),
      record {
        tables = record {
          entries = delete_entry a m d.tables.entries;
          rows = where_rows (λ r. not (row_of a m r)) d.tables.rows;
        };
        tick = suc d.tick;
      },
    )
unfolding get entry_locked now get_found write_entries delete_persistent_logs dropping_errors
    delete_rows attempt statement
expired-tables env a m after limit e d h names f x = rw (names, f, f, x, h.0, h.1 d.tick) refl

-- Where the statements succeed and the identifiers are not empty: a log in memory that has expired
-- is reported once, as existing and expired, without lines, with its latest sequence and its count
-- of dropped lines; it is removed with that, and the next `Get` reports that no log exists, with
-- sequence 0 and no dropped line.
pub expired_log_reported_once :
    (env : Env) (a m : Text) (after limit : ℤ) (e : Entry) (d : Db Tables)
    → Healthy env
    → (is_empty a || is_empty m) ≡ false
    → find_entry a m d.tables.entries ≡ some e
    → is_expired env e (env.engine.clock d.tick) ≡ true
    → ((get env a m after limit d).0
        ≡ ok (record {
          lines = [];
          latest_sequence = e.latest_sequence;
          truncated = ltb 0 e.dropped_lines;
          dropped_lines = e.dropped_lines;
          exists = true;
          expired = true;
        }))
      × ((get env a m after limit (get env a m after limit d).1).0
          ≡ ok (record {
            lines = [];
            latest_sequence = pos 0;
            truncated = false;
            dropped_lines = 0;
            exists = false;
            expired = false;
          }))
expired_log_reported_once env a m after limit e d h names f x =
    let gone = expired-tables env a m after limit e d h names f x in
    (
      ap (λ r. r.0) gone,
      get-nothing env a m after limit (get env a m after limit d).1 h names
          (ap (λ r. find_entry a m r.1.tables.entries) gone
            ∙ find_entry-delete a m d.tables.entries)
          (ap (λ r. rows_of a m r.1.tables) gone ∙ rows_gone (row_of a m) d.tables.rows),
    )

entries_left :
    (a b m : Text) (ss : List Slot)
    → find_entry b m (where_rows (λ s. not (text_eq s.agent_id a)) ss)
      ≡ (if text_eq a b then none else find_entry b m ss)
unfolding find_entry
entries_left a b m [] = ground arith
entries_left a b m (s ∷ ss) = ground (
  arith,
  entries_left a b m ss,
  text_eq_iff s.agent_id a,
  text_eq_iff s.agent_id b,
  text_eq_iff a b,
)

rows_left :
    (a b m : Text) (rs : List TaskLog)
    → where_rows (row_of b m) (where_rows (λ r. not (text_eq r.agent_id a)) rs)
      ≡ (if text_eq a b then [] else where_rows (row_of b m) rs)
rows_left a b m [] = ground arith
rows_left a b m (r ∷ rs) =
    ground (
      arith,
      rows_left a b m rs,
      text_eq_iff r.agent_id a,
      text_eq_iff r.agent_id b,
      text_eq_iff a b,
    )

deleted-tables :
    (env : Env) (a : Text) (d : Db Tables)
    → Healthy env
    → is_empty a ≡ false
    → (delete_agent env a d).1.tables ≡ record {
      entries = where_rows (λ s. not (text_eq s.agent_id a)) d.tables.entries;
      rows = where_rows (λ r. not (text_eq r.agent_id a)) d.tables.rows;
    }
unfolding delete_agent write_entries dropping_errors delete_rows attempt statement
deleted-tables env a d h n = rw (n, h.0, h.1 d.tick) refl

-- Where the statements succeed and the identifiers are not empty, deleting an agent removes every
-- log of this agent, in memory and in the table, so that `Get` finds none of them, and changes
-- nothing of any other agent's logs.
pub deletes_one_agent :
    (env : Env) (a m : Text) (after limit : ℤ) (d : Db Tables)
    → Healthy env
    → (is_empty a || is_empty m) ≡ false
    → ((get env a m after limit (delete_agent env a d).1).0 ≡ ok no_snapshot)
      × ((b n : Text)
          → text_eq a b ≡ false
          → (find_entry b n (delete_agent env a d).1.tables.entries
              ≡ find_entry b n d.tables.entries)
            × (rows_of b n (delete_agent env a d).1.tables ≡ rows_of b n d.tables))
deletes_one_agent env a m after limit d h names =
    let left = deleted-tables env a d h (ground (arith, names)) in
    (
      get-nothing env a m after limit (delete_agent env a d).1 h names
          (ap (λ t. find_entry a m t.entries) left
            ∙ entries_left a a m d.tables.entries
            ∙ rw (text_eq_refl a) refl)
          (ap (rows_of a m) left ∙ rows_left a a m d.tables.rows ∙ rw (text_eq_refl a) refl),
      λ b n other. (
        ap (λ t. find_entry b n t.entries) left
            ∙ entries_left a b n d.tables.entries
            ∙ rw other refl,
        ap (rows_of b n) left ∙ rows_left a b n d.tables.rows ∙ rw other refl,
      ),
    )
