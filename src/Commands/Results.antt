-- ===== src/Commands/Results.antt =====
-- What the methods of internal/master/commands/service.go that end a command promise their callers.
pub mod Replay
use vault_fleet.Prelude.{
  ℕ, suc, ◌≡◌, refl, ◌∙◌, ◌≢◌, ◌⊎◌, inl, inr, Bool, true, false, Option, none, some, arith, Text,
  first_where, is_empty, Bool-cases, ap, if◌then◌else◌,
}
use vault_fleet.Engine.{
  Engine, Db, M, Result, ok, err, Error, command_not_active, pure, next, ◌>>=◌, attempt, now,
  commit, transaction, statement,
}
use vault_fleet.Commands.Model.{
  AgentCommand, Tables, Env, first_command, update_commands, update_tasks,
}
use vault_fleet.Commands.Complete.{
  TaskResult, SnapshotList, expects, apply_result, complete_found, complete_rows, inactive_as_false,
  complete_task_result_with, agent_or, awaits_result, require_rows, complete_snapshots,
  awaits_snapshots, complete_snapshot_list_with,
}

-- The result is "completed", or the tables are those of the start.
abbrev CompletedOrSame : Tables → Result Bool × Db Tables → Type 0
CompletedOrSame s r = (r.0 ≡ ok true) ⊎ (r.1.tables ≡ s)

commit-CompletedOrSame :
    (env : Engine) (d : Db Tables) (r : Result Bool × Db Tables)
    → (r.0 ≡ ok false → r.1.tables ≡ d.tables)
    → CompletedOrSame d.tables (commit env d r)
unfolding commit
commit-CompletedOrSame env d (ok true, d') h = elim (Bool-cases (env.fails d'.tick)) [
  | inl e ↦ rw e (inr refl)
  | inr e ↦ rw e (inl refl)
]
commit-CompletedOrSame env d (ok false, d') h = elim (Bool-cases (env.fails d'.tick)) [
  | inl e ↦ rw e (inr refl)
  | inr e ↦ rw e (inr (h refl))
]
commit-CompletedOrSame env d (err e, d') h = inr refl

inactive-CompletedOrSame :
    (s : Tables) (r : Result Bool) (d : Db Tables)
    → (r ≡ ok true) ⊎ (d.tables ≡ s)
    → CompletedOrSame s (inactive_as_false r d)
inactive-CompletedOrSame s (ok b) d h = h
inactive-CompletedOrSame s (err command_not_active) d (inl p) = cc
inactive-CompletedOrSame s (err command_not_active) d (inr q) = inr q
inactive-CompletedOrSame s (err e) d (inl p) = cc
inactive-CompletedOrSame s (err e) d (inr q) = inr q

-- A body that never answers "not completed".
abbrev NeverFalse : M Tables Bool → Type 0
NeverFalse m = (d : Db Tables) → (m d).0 ≢ ok false

next-NeverFalse :
    {A : Type 0} (f : A → M Tables Bool) (r : Result A × Db Tables)
    → ((a : A) → NeverFalse (f a))
    → (next f r).0 ≢ ok false
next-NeverFalse f (ok a, d) h = h a d
next-NeverFalse f (err e, d) h = λ p. cc

NeverFalse-after :
    {A : Type 0} (m : M Tables A) (f : A → M Tables Bool)
    → ((a : A) → NeverFalse (f a))
    → NeverFalse (m >>= f)
NeverFalse-after m f h d = next-NeverFalse f (m d) h

-- A body whose answer "not completed" says that it wrote nothing.
abbrev HonestFalse : M Tables Bool → Type 0
HonestFalse m = (d : Db Tables) → (m d).0 ≡ ok false → (m d).1.tables ≡ d.tables

first_command-HonestFalse :
    (env : Engine) (p : AgentCommand → Bool) (f : Option AgentCommand → M Tables Bool)
    → ((o : Option AgentCommand) → HonestFalse (f o))
    → HonestFalse (first_command env p >>= f)
unfolding first_command statement
first_command-HonestFalse env p f h d = elim (Bool-cases (env.fails d.tick)) [
  | inl e ↦ rw e (λ q. cc)
  | inr e ↦ rw e (h (first_where p d.tables.commands) (record d { tick = suc d.tick }))
]

ended-CompletedOrSame :
    (env : Engine) (m : M Tables Bool) (d : Db Tables)
    → HonestFalse m
    → CompletedOrSame d.tables ((attempt (transaction env m) >>= inactive_as_false) d)
unfolding attempt transaction
ended-CompletedOrSame env m d h =
    inactive-CompletedOrSame d.tables _ _ (commit-CompletedOrSame env d (m d) (h d))

module _ (env : Env) (apply : M Tables (Unit {0})) where
  apply_result-NeverFalse :
      (result : TaskResult) (t : ℕ) (c : AgentCommand)
      → NeverFalse (apply_result env result t apply c)
  unfolding apply_result
  apply_result-NeverFalse result t c = NeverFalse-after apply _ λ u.
      NeverFalse-after (update_commands env.engine _ _) _ λ rows.
        NeverFalse-after (require_rows rows) _
          λ v. NeverFalse-after (update_tasks env.engine _ _) _ λ w d p. cc

  complete_found-HonestFalse :
      (result : TaskResult) (t : ℕ) (o : Option AgentCommand)
      → HonestFalse (complete_found env result t apply o)
  unfolding complete_found
  complete_found-HonestFalse result t none = λ d p. refl
  complete_found-HonestFalse result t (some c) = λ d.
      elim (Bool-cases (expects c.type result.task_type)) [
        | inl e ↦ rw e (λ p. absurd (apply_result-NeverFalse result t c d p))
        | inr e ↦ rw e (λ p. refl)
      ]

  -- `CompleteTaskResultWith` either reports the command as completed, or leaves every table as it
  -- was, the writes of its callback included; so whatever its callback does and whatever statement
  -- or commit fails.
  pub task_result_all_or_nothing :
      (agent_id message_id : Text) (result : TaskResult) (d : Db Tables)
      → let r = complete_task_result_with env agent_id message_id result apply d in
        (r.0 ≡ ok true) ⊎ (r.1.tables ≡ d.tables)
  unfolding complete_task_result_with complete_rows now
  task_result_all_or_nothing agent_id message_id result d =
      elim (Bool-cases (is_empty message_id)) [
        | inl e ↦ rw e (inr refl)
        | inr e ↦ rw e (
            ended-CompletedOrSame env.engine _ d (
              first_command-HonestFalse env.engine _ _
                (complete_found-HonestFalse result (env.engine.clock d.tick))))
      ]

  complete_snapshots-HonestFalse :
      (result : SnapshotList) (t : ℕ) (o : Option AgentCommand)
      → HonestFalse (complete_snapshots env result t apply o)
  unfolding complete_snapshots
  complete_snapshots-HonestFalse result t none d p = refl
  complete_snapshots-HonestFalse result t (some c) d p = absurd (
      NeverFalse-after apply _
        (λ u.
          NeverFalse-after (update_commands env.engine _ _) _
            λ rows. NeverFalse-after (require_rows rows) _ λ v d' q. cc)
        d p)

  -- `CompleteSnapshotListWith` either reports the command as completed, or leaves every table as it
  -- was, the writes of its callback included; so whatever its callback does and whatever statement
  -- or commit fails.
  pub snapshot_list_all_or_nothing :
      (agent_id message_id : Text) (result : SnapshotList) (d : Db Tables)
      → let r = complete_snapshot_list_with env agent_id message_id result apply d in
        (r.0 ≡ ok true) ⊎ (r.1.tables ≡ d.tables)
  unfolding complete_snapshot_list_with now
  snapshot_list_all_or_nothing agent_id message_id result d =
      elim (Bool-cases (is_empty message_id)) [
        | inl e ↦ rw e (inr refl)
        | inr e ↦ rw e (
            ended-CompletedOrSame env.engine _ d (
              first_command-HonestFalse env.engine _ _
                (complete_snapshots-HonestFalse result (env.engine.clock d.tick))))
      ]
