-- ===== src/TaskLogs/Counted.antt =====
-- The count of bytes that an entry of internal/master/tasklogs/buffer.go keeps, and the limits.
pub mod Calls
pub mod Adds
use vault_fleet.Prelude.{
  ℕ, ◌+◌, ◌≤◌, ◌≡◌, refl, Bool, not, ◌||◌, inl, inr, Option, none, some, List, [], ◌∷◌, ◌++◌, arith,
  length, All, where_rows, Bool-cases, Text, text_eq, is_empty, ℤ,
}
use vault_fleet.Engine.{◌>>=◌, ◌>>◌, now, Db, M, Result, ok, err, pure, attempt, statement}
use vault_fleet.Engine.Assures.{
  Given, Assures, Assures-pure, Assures-bind, Assures-if, Assures-attempt, Assures-now,
  Assures-new_id, Assures-statement, Assures-transaction,
}
use vault_fleet.TaskLogs.Model.{
  TaskLogPayload, TaskLog, Entry, Slot, Tables, Env, find_entry, set_entry, delete_entry, slot_of,
  bytes_of, no_snapshot, row_of,
}
use vault_fleet.TaskLogs.Limits.{enforce_limits, dropping, dropping-Dropped}
use vault_fleet.TaskLogs.Persist.{
  dropping_errors, delete_rows, persist_line, persist_rows, load_persistent_entry, loaded, entry_of,
  last_row, entry_ending, mark_persistent_complete, delete_persistent_logs,
}
use vault_fleet.TaskLogs.Buffer.{
  entry_locked, write_entries, appended, or_loaded, entry_or_empty, add_line, add, complete_held,
  mark_complete, get_found, keep_loaded, get, delete_agent, prepared, store_line, add_found,
  get_kept, oldest_sequence, is_expired, expired_snapshot, snapshot_of,
}
use vault_fleet.TaskLogs.Calls.{Call, adds, completes, gets, deletes, step, run}

abbrev pub Counts : Entry → Type 0
Counts e = e.bytes ≡ bytes_of e.lines

abbrev pub AllCount : Tables → Type 0
AllCount t = All (λ s. Counts s.item) t.entries

abbrev pub FoundCounts : Option Entry → Type 0
FoundCounts none = Unit {0}
FoundCounts (some e) = Counts e

abbrev pub Any : {A : Type 0} → A → Type 0
Any a = Unit {0}

pub bytes_of-append :
    (ps qs : List TaskLogPayload) → bytes_of (ps ++ qs) ≡ bytes_of ps + bytes_of qs
bytes_of-append [] qs = omega arith
bytes_of-append (p ∷ ps) qs = omega (arith, bytes_of-append ps qs)

pub appended-Counts :
    (env : Env) (p : TaskLogPayload) (t : ℕ) (e : Entry) → Counts e → Counts (appended env p t e)
unfolding appended enforce_limits dropping
appended-Counts env p t e h =
    (dropping-Dropped env.max_lines env.max_bytes (e.lines ++ p ∷ []) (e.bytes + length p.line)
      e.dropped_lines (omega (arith, h, bytes_of-append e.lines (p ∷ [])))).right

-- `Add` keeps the longest end of an entry's lines, the new one behind them, that is within both limits,
-- and counts the lines that it drops; the count of bytes is right again.
pub appended_keeps_longest :
    (env : Env) (p : TaskLogPayload) (t : ℕ) (e : Entry)
    → Counts e
    → ((front : List TaskLogPayload) × (e.lines ++ p ∷ [] ≡ front ++ (appended env p t e).lines)
        × ((appended env p t e).dropped_lines ≡ e.dropped_lines + length front))
      × (length (appended env p t e).lines ≤ env.max_lines)
      × (bytes_of (appended env p t e).lines ≤ env.max_bytes)
      × Counts (appended env p t e)
      × ((a b : List TaskLogPayload)
          → e.lines ++ p ∷ [] ≡ a ++ b
          → length b ≤ env.max_lines
          → bytes_of b ≤ env.max_bytes
          → length b ≤ length (appended env p t e).lines)
unfolding appended enforce_limits
appended_keeps_longest env p t e h =
    let d =
      dropping-Dropped env.max_lines env.max_bytes (e.lines ++ p ∷ []) (e.bytes + length p.line)
        e.dropped_lines (omega (arith, h, bytes_of-append e.lines (p ∷ []))) in
    (
      (d.trimmed.front, d.trimmed.same, omega (arith, d.added, d.trimmed.count)),
      d.trimmed.few,
      d.trimmed.small,
      d.right,
      d.trimmed.longest,
    )

pub find_entry-Counts :
    (a m : Text) (ss : List Slot) → All (λ s. Counts s.item) ss → FoundCounts (find_entry a m ss)
unfolding find_entry
find_entry-Counts a m [] h = tt
find_entry-Counts a m (s ∷ ss) h = elim (Bool-cases (slot_of a m s)) [
  | inl e ↦ rw e (h.0)
  | inr e ↦ rw e (find_entry-Counts a m ss h.1)
]

pub delete_entry-Counts :
    (a m : Text) (ss : List Slot)
    → All (λ s. Counts s.item) ss
    → All (λ s. Counts s.item) (delete_entry a m ss)
unfolding delete_entry
delete_entry-Counts a m [] h = tt
delete_entry-Counts a m (s ∷ ss) h = elim (Bool-cases (slot_of a m s)) [
  | inl e ↦ rw e (delete_entry-Counts a m ss h.1)
  | inr e ↦ rw e (h.0, delete_entry-Counts a m ss h.1)
]

pub set_entry-Counts :
    (a m : Text) (e : Entry) (ss : List Slot)
    → Counts e
    → All (λ s. Counts s.item) ss
    → All (λ s. Counts s.item) (set_entry a m e ss)
unfolding set_entry delete_entry
set_entry-Counts a m e ss c h = (c, delete_entry-Counts a m ss h)

pub where_rows-Counts :
    (p : Slot → Bool) (ss : List Slot)
    → All (λ s. Counts s.item) ss
    → All (λ s. Counts s.item) (where_rows p ss)
where_rows-Counts p [] h = tt
where_rows-Counts p (s ∷ ss) h = elim (Bool-cases (p s)) [
  | inl e ↦ rw e (h.0, where_rows-Counts p ss h.1)
  | inr e ↦ rw e (where_rows-Counts p ss h.1)
]

pub entry_of-Counts : (rs : List TaskLog) → FoundCounts (entry_of rs)
entry_of-Counts rs = go (last_row rs)
  where
    go : (o : Option TaskLog) → FoundCounts (entry_ending rs o)
    go none = tt
    go (some r) = refl
