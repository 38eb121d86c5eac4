-- ===== src/Commands/Cancel.antt =====
-- What `CancelCommand` of internal/master/commands/service.go leaves behind.
use mathlib.Core.Path.{subst}
use vault_fleet.Prelude.{
  ℕ, suc, ◌≡◌, refl, ◌⊎◌, inl, inr, Bool, true, false, ◌&&◌, Option, none, some, List, [], ◌∷◌,
  arith, Text, text_eq_iff, count_where, update_where, first_where, Bool-cases, ◌==◌,
}
use vault_fleet.Engine.{Db, Result, ok, attempt, now, commit, transaction, statement}
use vault_fleet.Commands.Model.{
  AgentCommand, TaskHistory, CommandStatus, Tables, Env, has_id, of_command, is_pending,
  is_task_active, is_terminal, update_commands, update_tasks, first_command,
}
use vault_fleet.Commands.Complete.{
  CancelCommandResult, cancelled_here, cancelled_by_user, mark_ended, mark_task_cancelled,
  cancel_rows, cancel_done, cancel_pending, cancel_found, cancel_command,
}

pub count-update_where-none :
    {A : Type 0} (p : A → Bool) (f : A → A)
    → ((x : A) → p (f x) ≡ false)
    → (xs : List A) → count_where p (update_where p f xs) ≡ 0
count-update_where-none p f h [] = refl
count-update_where-none p f h (x ∷ xs) = elim (Bool-cases (p x)) [
  | inl e ↦ rw (e, h x) (count-update_where-none p f h xs)
  | inr e ↦ rw (e, e) (count-update_where-none p f h xs)
]

first_where-true :
    {A : Type 0} (p : A → Bool) (xs : List A) (x : A) → first_where p xs ≡ some x → p x ≡ true
first_where-true p [] x e = absurd (ground (arith, e))
first_where-true p (y ∷ ys) x e = ground (arith, e, first_where-true p ys x)

-- The rows of a command that can be cancelled here, and of its tasks that have not ended.
abbrev pub pending_id : Text → AgentCommand → Bool
pending_id i c = has_id i c && is_pending c.status

abbrev pub active_task_of : Text → TaskHistory → Bool
active_task_of i t = of_command i t && is_task_active t.status

-- Nothing of the command is left to run, or nothing has changed.
abbrev pub CancelledOrSame : Text → Tables → Result CancelCommandResult × Db Tables → Type 0
CancelledOrSame i s r =
    ((r.0 ≡ ok cancelled_here)
      × (count_where (pending_id i) r.1.tables.commands ≡ 0)
      × (count_where (active_task_of i) r.1.tables.tasks ≡ 0))
    ⊎ (r.1.tables ≡ s)

module _ (env : Env) where
  cancelled_commands :
      (i : Text) (t : ℕ) (cs : List AgentCommand)
      → count_where
          (pending_id i)
          (update_where (pending_id i) (mark_ended CommandStatus.cancelled cancelled_by_user t) cs)
        ≡ 0
  cancelled_commands i t cs =
      count-update_where-none (pending_id i)
        (mark_ended CommandStatus.cancelled cancelled_by_user t) (λ c. ground arith) cs

  cancelled_tasks :
      (i : Text) (t : ℕ) (ts : List TaskHistory)
      → count_where
          (active_task_of i)
          (update_where (active_task_of i) (mark_task_cancelled cancelled_by_user t) ts)
        ≡ 0
  cancelled_tasks i t ts =
      count-update_where-none (active_task_of i) (mark_task_cancelled cancelled_by_user t)
        (λ x. ground arith) ts

  pending-CancelledOrSame :
      (c : AgentCommand) (d : Db Tables) → CancelledOrSame c.id d.tables (cancel_pending env c d)
  unfolding cancel_pending cancel_done cancel_rows now attempt transaction commit update_commands
      update_tasks statement
  pending-CancelledOrSame c d =
      let n = d.tick in
      let t = env.engine.clock n in
      elim (Bool-cases (env.engine.fails n)) [
        | inl e ↦ rw e (inr refl)
        | inr e ↦ elim (Bool-cases (count_where (pending_id c.id) d.tables.commands == 0)) [
          | inl z ↦ rw (e, z) (inr refl)
          | inr z ↦ elim (Bool-cases (env.engine.fails (suc n))) [
            | inl e' ↦ rw (e, z, e') (inr refl)
            | inr e' ↦ elim (Bool-cases (env.engine.fails (suc (suc n)))) [
              | inl e'' ↦ rw (e, z, e', e'') (inr refl)
              | inr e'' ↦
                  rw (e, z, e', e'')
                    (inl (
                      refl,
                      cancelled_commands c.id t d.tables.commands,
                      cancelled_tasks c.id t d.tables.tasks,
                    ))
            ]
          ]
        ]
      ]

  found-CancelledOrSame :
      (i : Text) (o : Option AgentCommand) (d : Db Tables)
      → ((c : AgentCommand) → o ≡ some c → c.id ≡ i)
      → CancelledOrSame i d.tables (cancel_found env o d)
  unfolding cancel_found
  found-CancelledOrSame i none d h = inr refl
  found-CancelledOrSame i (some c) d h = elim (Bool-cases (is_terminal c.status)) [
    | inl e ↦ rw e (inr refl)
    | inr e ↦ elim (Bool-cases (is_pending c.status)) [
      | inl p ↦
          rw (e, p)
            (subst (λ j. CancelledOrSame j d.tables (cancel_pending env c d)) (h c refl)
              (pending-CancelledOrSame c d))
      | inr p ↦ rw (e, p) (inr refl)
    ]
  ]

  -- `CancelCommand` either returns that the command is cancelled, and then no row of the command is
  -- pending and none of its tasks pending or running, or leaves every table as it was; so whatever
  -- statement or commit fails.
  pub cancel_all_or_nothing :
      (i : Text) (d : Db Tables) → CancelledOrSame i d.tables (cancel_command env i d)
  unfolding cancel_command first_command statement
  cancel_all_or_nothing i d = elim (Bool-cases (env.engine.fails d.tick)) [
    | inl e ↦ rw e (inr refl)
    | inr e ↦ rw e (
        found-CancelledOrSame i (first_where (has_id i) d.tables.commands)
          (record d { tick = suc d.tick })
          (λ c h. (text_eq_iff c.id i).0 (first_where-true (has_id i) d.tables.commands c h)))
  ]
