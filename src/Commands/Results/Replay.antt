-- ===== src/Commands/Results/Replay.antt =====
-- A task result counts once (`CompleteTaskResultWith` of internal/master/commands/service.go).
use vault_fleet.Prelude.{
  ℕ, zero, suc, ◌≡◌, ◌≤◌, refl, ◌∙◌, ◌≢◌, inl, inr, Bool, true, false, not, ◌&&◌, none, some, List,
  [], ◌∷◌, arith, Text, text_eq, Bool-cases, Option-cases, first_where, update_where, update_row,
  ap, get_elem?, count_where, text_eq_refl,
}
use mathlib.Core.Path.{subst}
use mathlib.Core.Option.{some-injective}
use vault_fleet.Engine.{Db, M, ok, attempt, now, commit, transaction, statement}
use vault_fleet.Commands.Model.{
  AgentCommand, Tables, Env, TaskStatus, first_command, update_commands, update_tasks, is_terminal,
  is_long_running, result_status,
}
use vault_fleet.Commands.Dispatch.{live_id}
use vault_fleet.Commands.Complete.{
  TaskResult, apply_result, complete_found, complete_rows, mark_result, complete_task_result_with,
  agent_or, awaits_result,
}
use vault_fleet.Commands.Service.{Callback, called, Call, run}
use vault_fleet.Commands.Service.Finality.{terminal_commands_final}

abbrev pub has_message : Text → AgentCommand → Bool
has_message m c = text_eq c.message_id m

result_status-is_terminal : (s : TaskStatus) → is_terminal (result_status s) ≡ true
result_status-is_terminal s = ground arith

-- A command that awaits a result is live and has the message.
awaits_message :
    (a m : Text) (c : AgentCommand) → awaits_result a m c ≡ true → has_message m c ≡ true
awaits_message a m c h =
    second (text_eq c.agent_id a) (has_message m c) (is_long_running c.type)
      (not (is_terminal c.status)) h
  where
    second : (x y z w : Bool) → (x && y && z && w) ≡ true → y ≡ true
    second x y z w h = ground arith

awaits_live : (a m : Text) (c : AgentCommand) → awaits_result a m c ≡ true → live_id c.id c ≡ true
awaits_live a m c h = both (text_eq c.id c.id) (text_eq_refl c.id) (is_terminal c.status) (
    last (text_eq c.agent_id a) (has_message m c) (is_long_running c.type) (is_terminal c.status) h)
  where
    last : (x y z w : Bool) → (x && y && z && not w) ≡ true → w ≡ false
    last x y z w h = ground arith

    both : (x : Bool) → x ≡ true → (w : Bool) → w ≡ false → (x && not w) ≡ true
    both x p w q = ground arith

ended_not_awaiting :
    (a m : Text) (c : AgentCommand) → is_terminal c.status ≡ true → awaits_result a m c ≡ false
ended_not_awaiting a m c h =
    last (text_eq c.agent_id a) (has_message m c) (is_long_running c.type) (is_terminal c.status) h
  where
    last : (x y z w : Bool) → w ≡ true → (x && y && z && not w) ≡ false
    last x y z w h = ground arith

-- What a first match is, and where it stands.
first_where-get :
    {A : Type 0} (p : A → Bool) (xs : List A) (x : A)
    → first_where p xs ≡ some x
    → (n : ℕ) × (get_elem? xs n ≡ some x) × (p x ≡ true)
first_where-get p [] x h = absurd (ground (arith, h))
first_where-get p (y ∷ ys) x h = elim (Bool-cases (p y)) [
  | inl e ↦
      let same = some-injective y x (rw e at h) in
      (zero, ap some same, subst (λ z. p z ≡ true) same e)
  | inr e ↦ let (n, f, g) = first_where-get p ys x (rw e at h) in (suc n, f, g)
]

get-update_where :
    {A : Type 0} (p : A → Bool) (f : A → A) (xs : List A) (n : ℕ) (x : A)
    → get_elem? xs n ≡ some x
    → get_elem? (update_where p f xs) n ≡ some (update_row p f x)
get-update_where p f [] n x h = absurd (ground (arith, h))
get-update_where p f (y ∷ ys) zero x h = ap (λ z. some (update_row p f z)) (some-injective y x h)
get-update_where p f (y ∷ ys) (suc n) x h = get-update_where p f ys n x h

counted_row :
    {A : Type 0} (q : A → Bool) (xs : List A) (n : ℕ) (x : A)
    → get_elem? xs n ≡ some x
    → q x ≡ true
    → 1 ≤ count_where q xs
counted_row q [] n x h e = absurd (ground (arith, h))
counted_row q (y ∷ ys) zero x h e =
    let f : q y ≡ true = ap q (some-injective y x h) ∙ e in ground (arith, f)
counted_row q (y ∷ ys) (suc n) x h e = ground (arith, counted_row q ys n x h e)

module _ {A : Type 0} (p q : A → Bool) (only : (y : A) → p y ≡ true → q y ≡ true) where
  unmatched : (y : A) → q y ≡ false → p y ≡ false
  unmatched y e = elim (Bool-cases (p y)) [
    | inl f ↦ absurd (ground (arith, e, only y f))
    | inr f ↦ f
  ]

  none_where : (xs : List A) → count_where q xs ≡ 0 → first_where p xs ≡ none
  none_where [] h = refl
  none_where (x ∷ xs) h = elim (Bool-cases (q x)) [
    | inl e ↦ absurd (ground (arith, h, e))
    | inr e ↦ rw (unmatched x e) (none_where xs (rw e at h))
  ]

  -- When the one row that may match does not, none does.
  none_where_one :
      (xs : List A) (n : ℕ) (x : A)
      → get_elem? xs n ≡ some x
      → q x ≡ true
      → p x ≡ false
      → count_where q xs ≤ 1
      → first_where p xs ≡ none
  none_where_one [] n x h e f le = refl
  none_where_one (y ∷ ys) zero x h e f le =
      let here : q y ≡ true = ap q (some-injective y x h) ∙ e in
      rw (ap p (some-injective y x h) ∙ f) (none_where ys (ground (arith, le, here)))
  none_where_one (y ∷ ys) (suc n) x h e f le = elim (Bool-cases (q y)) [
    | inl k ↦ absurd (ground (arith, k, le, counted_row q ys n x h e))
    | inr k ↦ rw (unmatched y k) (none_where_one ys n x h e f (rw k at le))
  ]

completed_commands :
    (env : Env) (a m : Text) (result : TaskResult) (f : Callback) (d : Db Tables)
    → (complete_task_result_with env a m result (called f) d).0 ≡ ok true
    → (c : AgentCommand) × (first_where
          (awaits_result (agent_or a result.agent_id) m)
          d.tables.commands
        ≡ some c)
      × ((complete_task_result_with env a m result (called f) d).1.tables.commands
          ≡ update_where
              (live_id c.id)
              (mark_result result (env.engine.clock d.tick))
              d.tables.commands)
unfolding complete_task_result_with complete_rows complete_found apply_result first_command
    update_commands update_tasks statement transaction commit attempt now
completed_commands env a m result f d h =
    elim (Option-cases
      (first_where (awaits_result (agent_or a result.agent_id) m) d.tables.commands)) [
        | inl e ↦ absurd (ground arith)
        | inr (c, e) ↦ (c, e, ground arith)
      ]

-- A result that completes a command leaves a row of its message that is terminal.
ended_row :
    (env : Env) (a m : Text) (result : TaskResult) (f : Callback) (d : Db Tables)
    → let r = complete_task_result_with env a m result (called f) d in
      r.0 ≡ ok true
      → (n : ℕ) × (c : AgentCommand) × (get_elem? r.1.tables.commands n ≡ some c)
        × (is_terminal c.status ≡ true)
        × (has_message m c ≡ true)
ended_row env a m result f d h =
    let (c, found, rows) = completed_commands env a m result f d h in
    let who = agent_or a result.agent_id in
    let mark = mark_result result (env.engine.clock d.tick) in
    let (n, at, awaits) = first_where-get (awaits_result who m) d.tables.commands c found in
    let live = awaits_live who m c awaits in
    (
      n,
      mark c,
      ap (λ cs. get_elem? cs n) rows
          ∙ get-update_where (live_id c.id) mark d.tables.commands n c at
          ∙ rw live refl,
      result_status-is_terminal result.status,
      awaits_message who m c awaits,
    )

-- Where no command awaits the message, a result is refused.
unawaited_result :
    (env : Env) (a m : Text) (result : TaskResult) (apply : M Tables (Unit {0})) (d : Db Tables)
    → first_where (awaits_result (agent_or a result.agent_id) m) d.tables.commands ≡ none
    → (complete_task_result_with env a m result apply d).0 ≢ ok true
unfolding complete_task_result_with complete_rows complete_found first_command statement transaction
    commit attempt now
unawaited_result env a m result apply d h = λ e. ground arith

-- A task result is counted once: after a result for a message has completed a command, with a callback
-- that writes outside the command and task tables, and after any further calls of the service, no
-- result for that message completes a command, from whatever agent, whatever it says and whatever
-- callback it brings, provided that at most one command has the message then (`message_id` is
-- unique).
pub task_result_once :
    (env : Env) (a b m : Text) (first second : TaskResult) (f : Callback) (cs : List Call)
    (apply : M Tables (Unit {0})) (d : Db Tables)
    → let after = run env cs (complete_task_result_with env a m first (called f) d).1 in
      (complete_task_result_with env a m first (called f) d).0 ≡ ok true
      → count_where (has_message m) after.tables.commands ≤ 1
      → (complete_task_result_with env b m second apply after).0 ≢ ok true
task_result_once env a b m first second f cs apply d h one =
    let start = (complete_task_result_with env a m first (called f) d).1 in
    let (n, c, at, ended, has) = ended_row env a m first f d h in
    let who = agent_or b second.agent_id in
    unawaited_result env b m second apply (run env cs start) (
      none_where_one (awaits_result who m) (has_message m) (awaits_message who m)
        (run env cs start).tables.commands n c (terminal_commands_final env cs start n c at ended)
        has (ended_not_awaiting who m c ended) one)
