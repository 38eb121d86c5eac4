-- ===== src/Commands/Delivery.antt =====
-- What a dispatch leaves behind (`dispatch` of internal/master/commands/service.go), where every
-- statement succeeds.
use vault_fleet.Prelude.{
  ℕ, suc, ◌+◌, ◌≡◌, refl, ◌∙◌, not, text_eq, sym, ◌≢◌, inl, inr, Bool, true, false, ◌&&◌, none,
  some, List, [], ◌∷◌, ◌++◌, arith, Text, Bool-cases, update_where, update_row, if◌then◌else◌, ap,
  count_where,
}
use mathlib.Core.Path.{ap₂}
use vault_fleet.Engine.{
  Engine, Db, Result, ok, err, attempt, now, commit, next, transaction, statement,
}
use vault_fleet.Commands.Model.{
  CommandStatus, MessageType, Message, AgentCommand, Tables, Env, opened, type_eq, update_commands,
  update_tasks, is_long_running, is_terminal, TaskStatus, Delivery, of_command, is_task_pending,
}
use vault_fleet.Commands.Dispatch.{
  live_id, mark_dispatched, mark_undispatched, mark_started, dispatch, dispatch_prepared,
  prepare_message_for_dispatch, prepare_message, message_from_command,
  record_dispatch_success_for_command, send_recorded, hub_send, taken, after_send,
  rollback_dispatch_failure, record_dispatch_failure_for,
}

-- Every statement and every commit succeeds.
abbrev pub Healthy : Engine → Type 0
Healthy e = (n : ℕ) → e.fails n ≡ false

module _ {A : Type 0} (p : A → Bool) (f g : A → A)
    (keeps : (x : A) → p x ≡ true → p (g x) ≡ true) where
  update_row-update_row :
      (x : A) → update_row p f (update_row p g x) ≡ update_row p (λ y. f (g y)) x
  update_row-update_row x = elim (Bool-cases (p x)) [
    | inl e ↦ rw (e, keeps x e)
    | inr e ↦ rw (e, e)
  ]

  update_where-update_where :
      (xs : List A) → update_where p f (update_where p g xs) ≡ update_where p (λ y. f (g y)) xs
  update_where-update_where [] = refl
  update_where-update_where (x ∷ xs) =
      ap₂ ◌∷◌ (update_row-update_row x) (update_where-update_where xs)

  count_where-update_where : (xs : List A) → count_where p (update_where p g xs) ≡ count_where p xs
  count_where-update_where [] = refl
  count_where-update_where (x ∷ xs) = elim (Bool-cases (p x)) [
    | inl e ↦ rw (e, keeps x e) (ap suc (count_where-update_where xs))
    | inr e ↦ rw (e, e) (count_where-update_where xs)
  ]

dispatched-live :
    (i : Text) (type : MessageType) (t : ℕ) (c : AgentCommand)
    → live_id i c ≡ true
    → live_id i (mark_dispatched type t c) ≡ true
dispatched-live i type t c h = ground arith

-- The tables after the dispatch of a command is recorded.
unfoldable pub recorded : Env → AgentCommand → Db Tables → Tables
recorded env c d = record d.tables {
  commands =
      update_where (live_id c.id) (mark_dispatched c.type (env.engine.clock d.tick))
        d.tables.commands;
  tasks =
      if is_long_running c.type
      then update_where (λ r. of_command c.id r && is_task_pending r.status)
          (mark_started (env.engine.clock d.tick)) d.tables.tasks
      else d.tables.tasks;
}

module _ (env : Env) (c : AgentCommand) (m : Message) (d : Db Tables) (healthy : Healthy env.engine)
    (stored : env.unseal c.payload ≡ opened m)
    (plain : type_eq c.type MessageType.restore_req ≡ false)
    (live : count_where (live_id c.id) d.tables.commands ≢ 0) where
  prepared : prepare_message_for_dispatch env c d ≡ (ok m, d)
  unfolding prepare_message_for_dispatch prepare_message message_from_command
  prepared = ground arith

  record_success_lem : (record_dispatch_success_for_command env c d).0 ≡ ok true
  unfolding record_dispatch_success_for_command now transaction commit update_commands update_tasks
      statement
  record_success_lem =
      ground (arith, healthy d.tick, healthy (suc d.tick), healthy (suc (suc d.tick)))

  record_success_tables : (record_dispatch_success_for_command env c d).1.tables ≡ recorded env c d
  unfolding record_dispatch_success_for_command now transaction commit update_commands update_tasks
      statement recorded
  record_success_tables =
      ground (arith, healthy d.tick, healthy (suc d.tick), healthy (suc (suc d.tick)))

  abbrev delivery : Delivery
  delivery = record { agent_id = c.agent_id; message = m }

  -- What sending does after the dispatch is recorded, when the hub takes the message.
  sent_after :
      (T : Tables) (r : Result Bool × Db Tables)
      → ((n : ℕ) → env.send_error n c.agent_id m ≡ none)
      → r.0 ≡ ok true
      → r.1.tables ≡ T
      → ((next (send_recorded env c m) r).0 ≡ ok tt)
        × ((next (send_recorded env c m) r).1.tables ≡ record T { sent = T.sent ++ delivery ∷ [] })
  unfolding send_recorded hub_send taken after_send
  sent_after T (ok b, d') free e f = ground (arith, free d'.tick)
  sent_after T (err x, d') free e f = cc

  -- Where every statement succeeds, the command is of another type than `restore_req`, its payload
  -- opens and it has a row that is not terminal: when the hub takes the message, the call succeeds
  -- and the message is sent once, after those sent before. Each row of the command that is not
  -- terminal has one more attempt, the time of dispatch and of the update, no error, and the status
  -- `running` where its type is long-running, else `dispatched`; where it is long-running, the
  -- pending tasks of the command are running from that time on. Nothing else changes.
  pub sent_once :
      ((n : ℕ) → env.send_error n c.agent_id m ≡ none)
      → let t = env.engine.clock d.tick in
        ((dispatch env c d).0 ≡ ok tt)
        × ((dispatch env c d).1.tables ≡ record d.tables {
          commands =
              update_where
                (λ r. text_eq r.id c.id && not (is_terminal r.status))
                (λ r. record r {
                  attempts = r.attempts + 1;
                  dispatched_at = some t;
                  error_message = [];
                  status =
                      if is_long_running c.type
                      then CommandStatus.running
                      else CommandStatus.dispatched;
                  updated_at = t;
                })
                d.tables.commands;
          tasks =
              if is_long_running c.type
              then update_where
                  (λ r. text_eq r.command_id c.id && is_task_pending r.status)
                  (λ r. record r {
                    status = TaskStatus.running;
                    started_at = some t;
                    updated_at = t;
                  })
                  d.tables.tasks
              else d.tables.tasks;
          sent = d.tables.sent ++ delivery ∷ [];
        })
  unfolding dispatch dispatch_prepared attempt recorded
  sent_once free = rw prepared (
      sent_after (recorded env c d) (record_dispatch_success_for_command env c d) free
        record_success_lem record_success_tables)

  -- What the failed send takes back.
  refused_after :
      (T : Tables) (text : Text) (r : Result Bool × Db Tables)
      → count_where (live_id c.id) T.commands ≢ 0
      → ((n : ℕ) → env.send_error n c.agent_id m ≡ some text)
      → r.0 ≡ ok true
      → r.1.tables ≡ T
      → ((next (send_recorded env c m) r).0 ≡ ok tt)
        × ((next (send_recorded env c m) r).1.tables.commands
            ≡ update_where
                (live_id c.id)
                (mark_undispatched false text (env.engine.clock (suc r.1.tick)))
                T.commands)
        × ((next (send_recorded env c m) r).1.tables.sent ≡ T.sent)
  unfolding send_recorded hub_send taken after_send rollback_dispatch_failure
      record_dispatch_failure_for now transaction commit update_commands update_tasks statement
  refused_after T text (ok b, d') some_live busy e f =
      let n : ℕ = suc d'.tick in
      ground (arith, busy d'.tick, healthy n, healthy (suc n), healthy (suc (suc n)))
  refused_after T text (err x, d') some_live busy e f = cc

  -- Where every statement succeeds, the command is of another type than `restore_req`, its payload
  -- opens and it has a live row: when the hub refuses the message, the call succeeds, nothing is
  -- sent, and each live row of the command is pending again, as it was but for one more attempt,
  -- the hub's error, no time of dispatch and the time of the update; all other commands are as
  -- before.
  pub send_failure_undone :
      (text : Text)
      → ((n : ℕ) → env.send_error n c.agent_id m ≡ some text)
      → (t : ℕ) × ((dispatch env c d).0 ≡ ok tt)
        × ((dispatch env c d).1.tables.commands
            ≡ update_where
                (live_id c.id)
                (λ r. record r {
                  attempts = r.attempts + 1;
                  dispatched_at = none;
                  error_message = text;
                  status = CommandStatus.pending;
                  updated_at = t;
                })
                d.tables.commands)
        × ((dispatch env c d).1.tables.sent ≡ d.tables.sent)
  unfolding dispatch dispatch_prepared attempt recorded
  send_failure_undone text busy =
      let r = record_dispatch_success_for_command env c d in
      let g = mark_dispatched c.type (env.engine.clock d.tick) in
      let kept = dispatched-live c.id c.type (env.engine.clock d.tick) in
      let some_live : count_where (live_id c.id) (recorded env c d).commands ≢ 0 =
        λ e. live (sym (count_where-update_where (live_id c.id) g g kept d.tables.commands) ∙ e) in
      let after =
        refused_after (recorded env c d) text r some_live busy record_success_lem
          record_success_tables in
      (
        env.engine.clock (suc r.1.tick),
        rw prepared after.0,
        rw prepared (
            after.1
            ∙ update_where-update_where (live_id c.id)
                (mark_undispatched false text (env.engine.clock (suc r.1.tick))) g kept
                d.tables.commands),
        rw prepared after.2,
      )
