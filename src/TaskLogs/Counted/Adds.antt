-- ===== src/TaskLogs/Counted/Adds.antt =====
-- What `Add` of internal/master/tasklogs/buffer.go leaves of an entry in memory.
use vault_fleet.Prelude.{
  ◌++◌, ◌+◌, ◌∙◌, ◌≤◌, ◌≡◌, ◌==◌, some, length, ℕ, refl, false, not, ◌||◌, List, [], ◌∷◌, ℤ, ap,
  Text, is_empty, if◌then◌else◌,
}
use vault_fleet.Engine.{Db, now}
use vault_fleet.Engine.Keeps.{
  Keeps, Keeps-pure, Keeps-bind, Keeps-if, Keeps-attempt, Keeps-new_id, Keeps-statement,
  Keeps-transaction,
}
use vault_fleet.TaskLogs.Model.{bytes_of, find_entry, set_entry, TaskLogPayload, Entry, Tables, Env}
use vault_fleet.TaskLogs.Persist.{dropping_errors, delete_rows, persist_line, persist_rows}
use vault_fleet.TaskLogs.Buffer.{
  entry_locked, write_entries, appended, add_line, add, prepared, store_line, oldest_sequence,
}
use vault_fleet.TaskLogs.Calls.{Call, run}
use vault_fleet.TaskLogs.Reload.{find_entry-set}
use vault_fleet.TaskLogs.Counted.{appended_keeps_longest, AllCount}
use vault_fleet.TaskLogs.Counted.Calls.{run-AllCount, entry-Counts}

abbrev SameEntries : Tables → Tables → Type 0
SameEntries s t = t.entries ≡ s.entries

same_trans : (s t u : Tables) → SameEntries s t → SameEntries t u → SameEntries s u
same_trans s t u p q = q ∙ p

persist_rows-SameEntries :
    (env : Env) (p : TaskLogPayload) (l : ℤ) (n : ℕ) (o : ℤ) (t : ℕ)
    → Keeps SameEntries (persist_rows env p l n o t)
unfolding persist_rows delete_rows
persist_rows-SameEntries env p l n o t =
    Keeps-bind SameEntries (λ s. refl) same_trans _ _
      (Keeps-new_id SameEntries (λ s. refl) same_trans env.engine)
      λ id.
        Keeps-bind SameEntries (λ s. refl) same_trans _ _
          (Keeps-statement SameEntries (λ s. refl) same_trans env.engine _ λ s. refl)
          λ u.
            Keeps-if SameEntries (λ s. refl) same_trans _ _ _
              (Keeps-statement SameEntries (λ s. refl) same_trans env.engine _ λ s. refl)
              (Keeps-pure SameEntries (λ s. refl) same_trans tt)

-- Whatever statements fail, writing a line to the table leaves the map as it is.
persist_line-SameEntries :
    (env : Env) (p : TaskLogPayload) (l : ℤ) (n : ℕ) (o : ℤ) (t : ℕ)
    → Keeps SameEntries (persist_line env p l n o t)
unfolding persist_line dropping_errors
persist_line-SameEntries env p l n o t =
    Keeps-if SameEntries (λ s. refl) same_trans (not env.persistent) _ _
      (Keeps-pure SameEntries (λ s. refl) same_trans tt)
      (Keeps-bind SameEntries (λ s. refl) same_trans _ _
        (Keeps-attempt SameEntries (λ s. refl) same_trans _
          (Keeps-transaction SameEntries (λ s. refl) same_trans env.engine _
            (persist_rows-SameEntries env p l n o t)))
        λ r. Keeps-pure SameEntries (λ s. refl) same_trans tt)

stored_entry :
    (env : Env) (p : TaskLogPayload) (t : ℕ) (e : Entry) (d : Db Tables)
    → find_entry p.agent_id p.message_id (store_line env p t e d).1.tables.entries ≡ some e
unfolding store_line write_entries
stored_entry env p t e d =
    ap (find_entry p.agent_id p.message_id) (
      (persist_line-SameEntries env p e.latest_sequence e.dropped_lines (oldest_sequence e.lines)
          t).holds
        (record d {
          tables = record d.tables {
            entries = set_entry p.agent_id p.message_id e d.tables.entries;
          };
        }))
    ∙ find_entry-set p.agent_id p.message_id e d.tables.entries

added_entry :
    (env : Env) (p : TaskLogPayload) (t : ℕ) (e : Entry) (d : Db Tables)
    → find_entry p.agent_id p.message_id d.tables.entries ≡ some e
    → find_entry p.agent_id p.message_id (add_line env p t d).1.tables.entries
      ≡ some (appended env p t e)
unfolding add_line entry_locked
added_entry env p t e d h = rw h (stored_entry env p t (appended env p t e) d)

-- After any calls on a buffer whose byte counts were right, whatever statements fail: when an entry
-- is in memory, under identifiers that are not empty, and the line is not empty once redacted,
-- `Add` leaves an entry in memory under them that has the longest end of the lines, the redacted
-- one behind those of before, that is within both limits, and that counts the lines which it drops;
-- and its count of bytes is the length of its lines together.
pub add_keeps_longest :
    (env : Env) (cs : List Call) (d : Db Tables) (a m : Text) (e : Entry) (payload : TaskLogPayload)
    → AllCount d.tables
    → find_entry a m (run env cs d).tables.entries ≡ some e
    → (is_empty a || is_empty m) ≡ false
    → is_empty (env.redact payload.line) ≡ false
    → let held = run env cs d in
      let p = record payload {
        agent_id = a;
        message_id = m;
        line = env.redact payload.line;
        timestamp =
            if payload.timestamp == 0 then env.engine.clock held.tick else payload.timestamp;
      } in
      (new : Entry) × (find_entry a m (add env a m payload held).1.tables.entries ≡ some new)
      × ((front : List TaskLogPayload) × (e.lines ++ p ∷ [] ≡ front ++ new.lines)
          × (new.dropped_lines ≡ e.dropped_lines + length front))
      × (length new.lines ≤ env.max_lines)
      × (bytes_of new.lines ≤ env.max_bytes)
      × (new.bytes ≡ bytes_of new.lines)
      × ((u v : List TaskLogPayload)
          → e.lines ++ p ∷ [] ≡ u ++ v
          → length v ≤ env.max_lines
          → bytes_of v ≤ env.max_bytes
          → length v ≤ length new.lines)
unfolding add prepared now
add_keeps_longest env cs d a m e payload h f names shown =
    let held = run env cs d in
    let t = env.engine.clock held.tick in
    let p = prepared env a m payload t in
    let w =
      appended_keeps_longest env p t e
        (entry-Counts a m e held.tables (run-AllCount env cs d h) f) in
    (appended env p t e, rw (names, shown) (added_entry env p t e held f), w.0, w.1, w.2, w.3, w.4)
