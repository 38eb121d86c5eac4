-- ===== src/TaskLogs/Counted/Calls.antt =====
-- The count of bytes under every method of internal/master/tasklogs/buffer.go.
use mathlib.Core.Path.{subst}
use vault_fleet.Prelude.{
  ◌≡◌, some, ℕ, refl, Bool, not, ◌||◌, Option, none, List, [], ◌∷◌, All, where_rows, Text, text_eq,
  is_empty, ℤ,
}
use vault_fleet.Engine.{◌>>=◌, ◌>>◌, now, Db, M, Result, ok, err, pure, attempt, statement}
use vault_fleet.Engine.Assures.{
  Given, Assures, Assures-pure, Assures-bind, Assures-if, Assures-attempt, Assures-now,
  Assures-new_id, Assures-statement, Assures-transaction,
}
use vault_fleet.TaskLogs.Model.{
  find_entry, TaskLogPayload, TaskLog, Entry, Slot, Tables, Env, set_entry, delete_entry,
  no_snapshot, row_of,
}
use vault_fleet.TaskLogs.Persist.{
  dropping_errors, delete_rows, persist_line, persist_rows, load_persistent_entry, loaded,
  mark_persistent_complete, delete_persistent_logs,
}
use vault_fleet.TaskLogs.Buffer.{
  entry_locked, write_entries, appended, or_loaded, entry_or_empty, add_line, add, complete_held,
  mark_complete, get_found, keep_loaded, get, delete_agent, prepared, store_line, add_found,
  get_kept, oldest_sequence, is_expired, expired_snapshot, snapshot_of,
}
use vault_fleet.TaskLogs.Calls.{Call, adds, completes, gets, deletes, step, run}
use vault_fleet.TaskLogs.Counted.{
  Counts, find_entry-Counts, FoundCounts, AllCount, Any, appended-Counts, delete_entry-Counts,
  set_entry-Counts, where_rows-Counts, entry_of-Counts,
}

-- A statement that leaves the map alone.
table_statement :
    {A : Type 0} (env : Env) (f : Tables → A × Tables)
    → ((s : Tables) → (f s).1.entries ≡ s.entries)
    → Assures AllCount Any (statement env.engine f)
table_statement env f h = Assures-statement AllCount Any env.engine f λ s p. (rw (h s) p, tt)

dropping_errors-Assures :
    (b : Bool) (m : M Tables (Unit {0}))
    → Assures AllCount Any m
    → Assures AllCount Any (dropping_errors b m)
unfolding dropping_errors
dropping_errors-Assures b m h =
    Assures-if AllCount Any (not b) _ _ (Assures-pure AllCount Any tt tt) (
      Assures-bind AllCount (Given Any) Any (attempt m) _ (Assures-attempt AllCount Any m h)
        λ r q. Assures-pure AllCount Any tt tt)

write_entries-Assures :
    (f : List Slot → List Slot)
    → ((ss : List Slot) → All (λ s. Counts s.item) ss → All (λ s. Counts s.item) (f ss))
    → Assures AllCount Any (write_entries f)
unfolding write_entries
write_entries-Assures f h = record { holds = λ d p. (h d.tables.entries p, tt) }

delete_rows-Assures : (env : Env) (p : TaskLog → Bool) → Assures AllCount Any (delete_rows env p)
unfolding delete_rows
delete_rows-Assures env p = table_statement env _ λ s. refl

persist_line-Assures :
    (env : Env) (p : TaskLogPayload) (latest : ℤ) (dropped : ℕ) (oldest : ℤ) (t : ℕ)
    → Assures AllCount Any (persist_line env p latest dropped oldest t)
unfolding persist_line persist_rows
persist_line-Assures env p latest dropped oldest t = dropping_errors-Assures env.persistent _ (
    Assures-transaction AllCount Any env.engine _ (
      Assures-bind AllCount Any Any _ _ (Assures-new_id AllCount env.engine) λ id q.
        Assures-bind AllCount Any Any _ _ (table_statement env _ λ s. refl) λ u q.
          Assures-if AllCount Any _ _ _ (delete_rows-Assures env _)
            (Assures-pure AllCount Any tt tt)))

loaded-Counts : (r : Result (List TaskLog)) → FoundCounts (loaded r)
loaded-Counts (ok rs) = entry_of-Counts rs
loaded-Counts (err e) = tt

load_persistent_entry-Assures :
    (env : Env) (a m : Text) → Assures AllCount FoundCounts (load_persistent_entry env a m)
unfolding load_persistent_entry
load_persistent_entry-Assures env a m =
    Assures-if AllCount FoundCounts (not env.persistent) _ _
      (Assures-pure AllCount FoundCounts none tt)
      (Assures-bind AllCount (Given Any) FoundCounts _ _
        (Assures-attempt AllCount Any _ (table_statement env _ λ s. refl))
        λ r q. Assures-pure AllCount FoundCounts (loaded r) (loaded-Counts r))

entry_locked-Assures : (a m : Text) → Assures AllCount FoundCounts (entry_locked a m)
unfolding entry_locked
entry_locked-Assures a m = record { holds = λ d p. (p, find_entry-Counts a m d.tables.entries p) }

or_loaded-Assures :
    (env : Env) (a m : Text) (o : Option Entry)
    → FoundCounts o
    → Assures AllCount FoundCounts (or_loaded env a m o)
or_loaded-Assures env a m none h = load_persistent_entry-Assures env a m
or_loaded-Assures env a m (some e) h = Assures-pure AllCount FoundCounts (some e) h

entry_or_empty-Counts : (o : Option Entry) → FoundCounts o → Counts (entry_or_empty o)
entry_or_empty-Counts none h = refl
entry_or_empty-Counts (some e) h = h

set_entry-Assures :
    (a m : Text) (e : Entry) → Counts e → Assures AllCount Any (write_entries (set_entry a m e))
set_entry-Assures a m e c = write_entries-Assures _ λ ss. set_entry-Counts a m e ss c

nothing : Assures AllCount Any (pure {A = Unit {0}} tt)
nothing = Assures-pure AllCount Any tt tt

add_line-Assures :
    (env : Env) (p : TaskLogPayload) (t : ℕ) → Assures AllCount Any (add_line env p t)
unfolding add_line store_line
add_line-Assures env p t =
    Assures-bind AllCount FoundCounts Any (entry_locked p.agent_id p.message_id)
      (λ held. or_loaded env p.agent_id p.message_id held >>= add_found env p t)
      (entry_locked-Assures p.agent_id p.message_id)
      λ held h.
        Assures-bind AllCount FoundCounts Any (or_loaded env p.agent_id p.message_id held)
          (add_found env p t) (or_loaded-Assures env p.agent_id p.message_id held h)
          λ found c.
            let e = appended env p t (entry_or_empty found) in
            Assures-bind AllCount Any Any (write_entries (set_entry p.agent_id p.message_id e)) _
              (set_entry-Assures p.agent_id p.message_id e
                (appended-Counts env p t (entry_or_empty found) (entry_or_empty-Counts found c)))
              λ u q.
                persist_line-Assures env p e.latest_sequence e.dropped_lines
                  (oldest_sequence e.lines) t

add-Assures : (env : Env) (a m : Text) (p : TaskLogPayload) → Assures AllCount Any (add env a m p)
unfolding add
add-Assures env a m payload = Assures-if AllCount Any (is_empty a || is_empty m) _ _ nothing (
    Assures-bind AllCount Any Any (now env.engine) _ (Assures-now AllCount env.engine) λ t q.
      let p = prepared env a m payload t in
      Assures-if AllCount Any (is_empty p.line) _ _ nothing (add_line-Assures env p t))

complete_held-Assures :
    (a m : Text) (t : ℕ) (o : Option Entry)
    → FoundCounts o
    → Assures AllCount Any (complete_held a m t o)
complete_held-Assures a m t none h = nothing
complete_held-Assures a m t (some e) h =
    set_entry-Assures a m (record e { completed_at = some t; updated_at = t }) h

mark_persistent_complete-Assures :
    (env : Env) (a m : Text) (t : ℕ) → Assures AllCount Any (mark_persistent_complete env a m t)
unfolding mark_persistent_complete
mark_persistent_complete-Assures env a m t =
    dropping_errors-Assures env.persistent _ (table_statement env _ λ s. refl)

mark_complete-Assures : (env : Env) (a m : Text) → Assures AllCount Any (mark_complete env a m)
unfolding mark_complete
mark_complete-Assures env a m = Assures-if AllCount Any (is_empty a || is_empty m) _ _ nothing (
    Assures-bind AllCount Any Any (now env.engine) _ (Assures-now AllCount env.engine) λ t q.
      Assures-bind AllCount FoundCounts Any (entry_locked a m)
        (λ held. complete_held a m t held >> mark_persistent_complete env a m t)
        (entry_locked-Assures a m)
        λ held h.
          Assures-bind AllCount Any Any (complete_held a m t held)
            (λ _. mark_persistent_complete env a m t) (complete_held-Assures a m t held h)
            λ u q. mark_persistent_complete-Assures env a m t)

keep_loaded-Assures :
    (a m : Text) (held found : Option Entry)
    → FoundCounts found
    → Assures AllCount Any (keep_loaded a m held found)
keep_loaded-Assures a m none none h = nothing
keep_loaded-Assures a m none (some e) h = set_entry-Assures a m e h
keep_loaded-Assures a m (some e) none h = nothing
keep_loaded-Assures a m (some e) (some f) h = nothing

delete_persistent_logs-Assures :
    (env : Env) (a m : Text) → Assures AllCount Any (delete_persistent_logs env a m)
unfolding delete_persistent_logs
delete_persistent_logs-Assures env a m =
    dropping_errors-Assures env.persistent _ (delete_rows-Assures env (row_of a m))

get_found-Assures :
    (env : Env) (a m : Text) (after limit : ℤ) (t : ℕ) (o : Option Entry)
    → Assures AllCount Any (get_found env a m after limit t o)
unfolding get_found
get_found-Assures env a m after limit t none = Assures-pure AllCount Any no_snapshot tt
get_found-Assures env a m after limit t (some e) =
    Assures-if AllCount Any (is_expired env e t) _ _
      (Assures-bind AllCount Any Any (write_entries (delete_entry a m))
        (λ _. delete_persistent_logs env a m >> pure (expired_snapshot e))
        (write_entries-Assures (delete_entry a m) (delete_entry-Counts a m))
        λ u q.
          Assures-bind AllCount Any Any (delete_persistent_logs env a m)
            (λ _. pure (expired_snapshot e)) (delete_persistent_logs-Assures env a m)
            λ v q. Assures-pure AllCount Any (expired_snapshot e) tt)
      (Assures-pure AllCount Any (snapshot_of e after limit) tt)

get-Assures :
    (env : Env) (a m : Text) (after limit : ℤ) → Assures AllCount Any (get env a m after limit)
unfolding get
get-Assures env a m after limit =
    Assures-if AllCount Any (is_empty a || is_empty m) _ _
      (Assures-pure AllCount Any no_snapshot tt)
      (Assures-bind AllCount Any Any (now env.engine) _ (Assures-now AllCount env.engine) λ t q.
        Assures-bind AllCount FoundCounts Any (entry_locked a m)
          (λ held. or_loaded env a m held >>= get_kept env a m after limit t held)
          (entry_locked-Assures a m)
          λ held h.
            Assures-bind AllCount FoundCounts Any (or_loaded env a m held)
              (get_kept env a m after limit t held) (or_loaded-Assures env a m held h)
              λ found c.
                Assures-bind AllCount Any Any (keep_loaded a m held found)
                  (λ _. get_found env a m after limit t found)
                  (keep_loaded-Assures a m held found c)
                  λ u q. get_found-Assures env a m after limit t found)

delete_agent-Assures : (env : Env) (a : Text) → Assures AllCount Any (delete_agent env a)
unfolding delete_agent
delete_agent-Assures env a =
    let others : Slot → Bool = λ s. not (text_eq s.agent_id a) in
    Assures-if AllCount Any (is_empty a) _ _ nothing (
      Assures-bind AllCount Any Any (write_entries (where_rows others))
        (λ _. dropping_errors env.persistent (delete_rows env λ r. text_eq r.agent_id a))
        (write_entries-Assures (where_rows others) (where_rows-Counts others))
        λ u q.
          dropping_errors-Assures env.persistent _
            (delete_rows-Assures env λ r. text_eq r.agent_id a))

step-AllCount :
    (env : Env) (c : Call) (d : Db Tables) → AllCount d.tables → AllCount (step env c d).tables
unfolding step
step-AllCount env (adds a m p) d h = ((add-Assures env a m p).holds d h).0
step-AllCount env (completes a m) d h = ((mark_complete-Assures env a m).holds d h).0
step-AllCount env (gets a m after limit) d h = ((get-Assures env a m after limit).holds d h).0
step-AllCount env (deletes a) d h = ((delete_agent-Assures env a).holds d h).0

-- After any calls on a buffer, whatever statements fail, the byte count of each entry in memory is
-- the length of its lines together, entries that were loaded from the table included.
pub run-AllCount :
    (env : Env) (cs : List Call) (d : Db Tables)
    → AllCount d.tables
    → AllCount (run env cs d).tables
unfolding run
run-AllCount env [] d h = h
run-AllCount env (c ∷ cs) d h = run-AllCount env cs (step env c d) (step-AllCount env c d h)

pub entry-Counts :
    (a m : Text) (e : Entry) (t : Tables)
    → AllCount t
    → find_entry a m t.entries ≡ some e
    → Counts e
entry-Counts a m e t h f = subst FoundCounts f (find_entry-Counts a m t.entries h)
