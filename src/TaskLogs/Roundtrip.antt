-- ===== src/TaskLogs/Roundtrip.antt =====
-- The lines of a task that a buffer of internal/master/tasklogs/buffer.go has taken, after a restart.
use mathlib.Core.Path.{subst}
use vault_fleet.Prelude.{
  arith, ℕ, ◌≤◌, ◌≡◌, refl, sym, ap, ◌∙◌, Bool, true, false, not, ◌||◌, inl, inr, Bool-cases,
  Option, none, some, List, [], ◌∷◌, length, Text, ℤ, pos, ltb_int, if◌then◌else◌, is_empty,
}
use vault_fleet.Engine.{Db, M, Result, ok, err, attempt, now, next, pure}
use vault_fleet.TaskLogs.Model.{
  TaskLogPayload, Entry, Snapshot, no_snapshot, Tables, Env, find_entry, delete_entry, row_of,
}
use vault_fleet.TaskLogs.Persist.{entry_of, dropping_errors, delete_rows, delete_persistent_logs}
use vault_fleet.TaskLogs.Buffer.{
  entry_locked, write_entries, or_loaded, entry_or_empty, add, is_expired, expired_snapshot,
  snapshot_of, get_found, get_kept, get,
}
use vault_fleet.TaskLogs.Mirror.{Mirrors, Mirrors-empty}
use vault_fleet.TaskLogs.Reload.{rows_of, KeptUntil, Healthy}

-- Lines that a log takes one after the other: their sequences rise from a start, and each is neither
-- empty nor longer than the limit once it has been redacted.
abbrev pub Sendable : Env → ℤ → List TaskLogPayload → Type 0
Sendable env s [] = Unit {0}
Sendable env s (p ∷ ps) =
    (ltb_int s p.sequence ≡ true)
    × (is_empty (env.redact p.line) ≡ false)
    × (length (env.redact p.line) ≤ env.max_bytes)
    × Sendable env p.sequence ps

unfoldable pub add_all : Env → Text → Text → List TaskLogPayload → Db Tables → Db Tables
add_all env a m [] d = d
add_all env a m (p ∷ ps) d = add_all env a m ps (add env a m p d).1

-- A buffer on the same table that has nothing in memory.
abbrev pub restarted : Db Tables → Db Tables
restarted d = record d { tables = record d.tables { entries = [] } }

-- A task without lines.
pub Kept-start :
    (a m : Text) (t : Tables)
    → find_entry a m t.entries ≡ none
    → rows_of a m t ≡ []
    → KeptUntil (pos 0) a m t
Kept-start a m t e r = (
  (
    e ∙ sym (ap entry_of r),
    subst (λ rs. Mirrors rs (entry_or_empty (entry_of rs))) (sym r) Mirrors-empty,
  ),
  ap (λ o. (entry_or_empty o).latest_sequence) e,
)

pub dropping_errors-ok :
    (b : Bool) (m : M Tables (Unit {0})) (d : Db Tables) → (dropping_errors b m d).0 ≡ ok tt
unfolding dropping_errors attempt
dropping_errors-ok b m d = elim (Bool-cases (not b)) [ inl e ↦ rw e refl | inr e ↦ rw e refl ]

-- What `Get` shows of what it has found.
abbrev pub shown : Env → ℤ → ℤ → ℕ → Option Entry → Snapshot
shown env after limit t none = no_snapshot
shown env after limit t (some e) =
    if is_expired env e t then expired_snapshot e else snapshot_of e after limit

then_pure :
    (x : Snapshot) (r : Result (Unit {0}) × Db Tables)
    → r.0 ≡ ok tt
    → (next (λ _. pure x) r).0 ≡ ok x
then_pure x (ok u, d) h = refl
then_pure x (err e, d) h = absurd (ground (arith, h))

get_found-shown :
    (env : Env) (a m : Text) (after limit : ℤ) (t : ℕ) (o : Option Entry) (d : Db Tables)
    → (get_found env a m after limit t o d).0 ≡ ok (shown env after limit t o)
unfolding get_found write_entries delete_persistent_logs
get_found-shown env a m after limit t none d = refl
get_found-shown env a m after limit t (some e) d = elim (Bool-cases (is_expired env e t)) [
  | inl x ↦
      let d' = record d {
        tables = record d.tables { entries = delete_entry a m d.tables.entries };
      } in
      rw x (
        then_pure (expired_snapshot e) (delete_persistent_logs env a m d')
          (dropping_errors-ok env.persistent (delete_rows env (row_of a m)) d'))
  | inr x ↦ rw x refl
]

get_kept-shown :
    (env : Env) (a m : Text) (after limit : ℤ) (t : ℕ) (held o : Option Entry) (d : Db Tables)
    → (get_kept env a m after limit t held o d).0 ≡ ok (shown env after limit t o)
unfolding write_entries
get_kept-shown env a m after limit t none none d = get_found-shown env a m after limit t none d
get_kept-shown env a m after limit t none (some e) d =
    get_found-shown env a m after limit t (some e) _
get_kept-shown env a m after limit t (some x) none d = get_found-shown env a m after limit t none d
get_kept-shown env a m after limit t (some x) (some e) d =
    get_found-shown env a m after limit t (some e) d

-- What `Get` returns where memory is empty for the task, or holds what the rows stand for.
pub get-shown :
    (env : Env) (a m : Text) (after limit : ℤ) (d : Db Tables)
    → Healthy env
    → (is_empty a || is_empty m) ≡ false
    → Mirrors (rows_of a m d.tables) (entry_or_empty (entry_of (rows_of a m d.tables)))
    → (n : ℕ) × (or_loaded env a m (find_entry a m d.tables.entries) d
        ≡ (ok (entry_of (rows_of a m d.tables)), record d { tick = n }))
    → (get env a m after limit d).0
      ≡ ok (shown env after limit (env.engine.clock d.tick) (entry_of (rows_of a m d.tables)))
unfolding get entry_locked now
get-shown env a m after limit d h names w r =
    rw (names, r.1)
      (get_kept-shown env a m after limit (env.engine.clock d.tick)
        (find_entry a m d.tables.entries) (entry_of (rows_of a m d.tables))
        (record d { tick = r.0 }))
