-- ===== src/Commands/Expiry.antt =====
-- What `timeoutCommandAndTask` of internal/master/commands/service.go leaves behind.
use vault_fleet.Prelude.{
  ℕ, suc, ◌≡◌, refl, ap, ==_iff, [], ◌∷◌, ◌⊎◌, inl, inr, Bool, ◌&&◌, List, arith, Text, count_where,
  update_where, Bool-cases, ◌==◌,
}
use vault_fleet.Engine.{Db, ok, commit, transaction, statement}
use vault_fleet.Commands.Model.{
  AgentCommand, TaskHistory, CommandStatus, Tables, Env, has_id, is_active, update_commands,
  update_tasks,
}
use vault_fleet.Commands.Complete.{mark_ended, command_timeout}
use vault_fleet.Commands.Timeout.{timeout_command_and_task, mark_task_timeout}
use vault_fleet.Commands.Cancel.{active_task_of, count-update_where-none}

-- The rows of a command that have not ended.
abbrev pub active_id : Text → AgentCommand → Bool
active_id i c = has_id i c && is_active c.status

update_where-same :
    {A : Type 0} (p : A → Bool) (f : A → A) (xs : List A)
    → count_where p xs ≡ 0
    → update_where p f xs ≡ xs
update_where-same p f [] h = refl
update_where-same p f (x ∷ xs) h = elim (Bool-cases (p x)) [
  | inl e ↦ absurd (ground (arith, e, h))
  | inr e ↦ rw e (ap (λ ys. x ∷ ys) (update_where-same p f xs (ground (arith, e, h))))
]

module _ (env : Env) where
  timed_out_commands :
      (i : Text) (t : ℕ) (cs : List AgentCommand)
      → count_where
          (active_id i)
          (update_where (active_id i) (mark_ended CommandStatus.timeout command_timeout t) cs)
        ≡ 0
  timed_out_commands i t cs =
      count-update_where-none (active_id i) (mark_ended CommandStatus.timeout command_timeout t)
        (λ c. ground arith) cs

  timed_out_tasks :
      (i : Text) (t : ℕ) (ts : List TaskHistory)
      → count_where
          (active_task_of i)
          (update_where (active_task_of i) (mark_task_timeout command_timeout t) ts)
        ≡ 0
  timed_out_tasks i t ts =
      count-update_where-none (active_task_of i) (mark_task_timeout command_timeout t)
        (λ x. ground arith) ts

  -- Timing a command out, where it still has a row that has not ended, ends every row of the command
  -- together with every pending or running task of it, and reports the number of the rows; or it
  -- leaves every table as it was; so whatever statement or commit fails.
  pub timeout_all_or_nothing :
      (c : AgentCommand) (t : ℕ) (d : Db Tables)
      → let r = timeout_command_and_task env c t d in
        ((r.0 ≡ ok (count_where (active_id c.id) d.tables.commands))
          × (count_where (active_id c.id) r.1.tables.commands ≡ 0)
          × (count_where (active_task_of c.id) r.1.tables.tasks ≡ 0))
        ⊎ (r.1.tables ≡ d.tables)
  unfolding timeout_command_and_task transaction commit update_commands update_tasks statement
  timeout_all_or_nothing c t d =
      let n = d.tick in
      elim (Bool-cases (env.engine.fails n)) [
        | inl e ↦ rw e (inr refl)
        | inr e ↦ elim (Bool-cases (count_where (active_id c.id) d.tables.commands == 0)) [
          | inl z ↦ elim (Bool-cases (env.engine.fails (suc n))) [
            | inl e' ↦ rw (e, z, e') (inr refl)
            | inr e' ↦
                rw (e, z, e')
                  (inr (
                    ap (λ cs. record d.tables { commands = cs })
                      (update_where-same (active_id c.id) _ d.tables.commands ((==_iff _ 0).0 z))))
          ]
          | inr z ↦ elim (Bool-cases (env.engine.fails (suc n))) [
            | inl e' ↦ rw (e, z, e') (inr refl)
            | inr e' ↦ elim (Bool-cases (env.engine.fails (suc (suc n)))) [
              | inl e'' ↦ rw (e, z, e', e'') (inr refl)
              | inr e'' ↦
                  rw (e, z, e', e'')
                    (inl (
                      refl,
                      timed_out_commands c.id t d.tables.commands,
                      timed_out_tasks c.id t d.tables.tasks,
                    ))
            ]
          ]
        ]
      ]
