-- ===== src/Commands/Scan.antt =====
-- The timeout scan misses no command (`TimeoutExpired` of internal/master/commands/service.go),
-- where every statement succeeds.
use vault_fleet.Prelude.{
  ℕ, suc, ◌+◌, ◌≡◌, refl, ◌∙◌, sym, inl, inr, Bool, true, false, ◌&&◌, ◌||◌, Option, List, [], ◌∷◌,
  arith, text_eq, text_eq_refl, Bool-cases, update_where, update_row, where_rows, All, count_where,
  ◌==◌,
}
use mathlib.Core.Path.{subst}
use vault_fleet.Engine.{
  Error, Db, M, Result, ok, err, next, attempt, now, new_id, commit, transaction, statement,
}
use vault_fleet.Commands.Model.{
  CommandStatus, AgentCommand, Tables, Env, update_commands, update_tasks, find_commands, is_active,
  has_id,
}
use vault_fleet.Commands.Delivery.{Healthy}
use vault_fleet.Commands.Dispatch.{hub_send, taken}
use vault_fleet.Commands.Complete.{command_timeout, mark_ended}
use vault_fleet.Commands.Timeout.{
  expired, timeout_command_and_task, send_cancel, send_timeout_cancel, notify_timeout, timed_out,
  timeout_each, timeout_expired,
}

-- Is a command's id among those of a list?
listed : AgentCommand → List AgentCommand → Bool
listed x [] = false
listed x (c ∷ cs) = text_eq x.id c.id || listed x cs

-- Every command that is past its deadline is in the list.
abbrev Covered : ℕ → List AgentCommand → List AgentCommand → Type 0
Covered t cs = All (λ x. expired t x ≡ true → listed x cs ≡ true)

abbrev ended : AgentCommand → ℕ → AgentCommand → AgentCommand
ended c t =
    update_row (λ r. has_id c.id r && is_active r.status)
      (mark_ended CommandStatus.timeout command_timeout t)

ended_covered :
    (t : ℕ) (c : AgentCommand) (cs : List AgentCommand) (x : AgentCommand)
    → (expired t x ≡ true → listed x (c ∷ cs) ≡ true)
    → expired t (ended c t x) ≡ true
    → listed (ended c t x) cs ≡ true
unfolding listed
ended_covered t c cs x h = elim (Bool-cases (has_id c.id x && is_active x.status)) [
  | inl e ↦ rw e (λ p. cc)
  | inr e ↦ rw e (λ p. ground (arith, h p))
]

Covered-step :
    (t : ℕ) (c : AgentCommand) (cs xs : List AgentCommand)
    → Covered t (c ∷ cs) xs
    → Covered t cs (
        update_where
          (λ r. has_id c.id r && is_active r.status)
          (mark_ended CommandStatus.timeout command_timeout t)
          xs)
Covered-step t c cs [] h = tt
Covered-step t c cs (x ∷ xs) h = (ended_covered t c cs x h.0, Covered-step t c cs xs h.1)

Covered-done :
    (t : ℕ) (xs : List AgentCommand) → Covered t [] xs → All (λ x. expired t x ≡ false) xs
unfolding listed
Covered-done t [] h = tt
Covered-done t (x ∷ xs) h = (not_expired, Covered-done t xs h.1)
  where
    not_expired : expired t x ≡ false
    not_expired = elim (Bool-cases (expired t x)) [
      | inl e ↦ absurd (ground (arith, h.0 e))
      | inr e ↦ e
    ]

-- Adding a command to the list covers no less.
Covered-more :
    (t : ℕ) (c : AgentCommand) (cs xs : List AgentCommand) → Covered t cs xs → Covered t (c ∷ cs) xs
unfolding listed
Covered-more t c cs [] h = tt
Covered-more t c cs (x ∷ xs) h =
    ((λ e. or_right (text_eq x.id c.id) (h.0 e)), Covered-more t c cs xs h.1)
  where
    or_right : (a : Bool) {b : Bool} → b ≡ true → (a || b) ≡ true
    or_right a e = ground arith

where_rows-cons :
    (p : AgentCommand → Bool) (x : AgentCommand) (xs : List AgentCommand)
    → p x ≡ true
    → where_rows p (x ∷ xs) ≡ x ∷ where_rows p xs
where_rows-cons p x xs e = rw e

where_rows-skip :
    (p : AgentCommand → Bool) (x : AgentCommand) (xs : List AgentCommand)
    → p x ≡ false
    → where_rows p (x ∷ xs) ≡ where_rows p xs
where_rows-skip p x xs e = rw e

listed_self : (x : AgentCommand) (cs : List AgentCommand) → listed x (x ∷ cs) ≡ true
unfolding listed
listed_self x cs = rw (text_eq_refl x.id)

Covered-start : (t : ℕ) (xs : List AgentCommand) → Covered t (where_rows (expired t) xs) xs
Covered-start t [] = tt
Covered-start t (x ∷ xs) = elim (Bool-cases (expired t x)) [
  | inl e ↦
      subst (λ l. Covered t l (x ∷ xs)) (sym (where_rows-cons (expired t) x xs e))
        (
          (λ p. listed_self x _),
          Covered-more t x (where_rows (expired t) xs) xs (Covered-start t xs),
        )
  | inr e ↦
      subst (λ l. Covered t l (x ∷ xs)) (sym (where_rows-skip (expired t) x xs e))
        ((λ p. absurd (ground arith)), Covered-start t xs)
]

module _ (env : Env) (healthy : Healthy env.engine) where
  ended_commands :
      (c : AgentCommand) (t : ℕ) (d : Db Tables)
      → ((timeout_command_and_task env c t d).1.tables.commands
          ≡ update_where
              (λ r. has_id c.id r && is_active r.status)
              (mark_ended CommandStatus.timeout command_timeout t)
              d.tables.commands)
        × ((k : ℕ) × ((timeout_command_and_task env c t d).0 ≡ ok k))
  unfolding timeout_command_and_task transaction commit update_commands update_tasks statement
  ended_commands c t d =
      let n = d.tick in
      (
        ground (arith, healthy n, healthy (suc n), healthy (suc (suc n))),
        (
          count_where (λ r. has_id c.id r && is_active r.status) d.tables.commands,
          ground (arith, healthy n, healthy (suc n), healthy (suc (suc n))),
        ),
      )

  cancel_sent_commands :
      (c : AgentCommand) (b : Bool) (d : Db Tables)
      → ((send_cancel env c b d).0 ≡ ok tt)
        × ((send_cancel env c b d).1.tables.commands ≡ d.tables.commands)
  unfolding send_cancel new_id hub_send taken
  cancel_sent_commands c b d = ground arith

  notified_commands :
      (c : AgentCommand) (k : ℕ) (d : Db Tables)
      → ((notify_timeout env c k d).0 ≡ ok tt)
        × ((notify_timeout env c k d).1.tables.commands ≡ d.tables.commands)
  unfolding notify_timeout send_timeout_cancel
  notified_commands c k d = elim (Bool-cases (k == 0)) [
    | inl e ↦ rw e (refl, refl)
    | inr e ↦ rw e (cancel_sent_commands c _ d)
  ]

  abbrev Spared : ℕ → Result (ℕ × Option Error) × Db Tables → Type 0
  Spared t r = All (λ x. expired t x ≡ false) r.1.tables.commands

  next-Spared :
      (t : ℕ) (rest : M Tables (ℕ × Option Error)) (xs : List AgentCommand)
      (r : Result (Unit {0}) × Db Tables)
      → ((d : Db Tables) → d.tables.commands ≡ xs → Spared t (rest d))
      → r.0 ≡ ok tt
      → r.1.tables.commands ≡ xs
      → Spared t (next (λ _. rest) r)
  next-Spared t rest xs (ok u, d) h e p = h d p
  next-Spared t rest xs (err x, d) h e p = absurd (ground arith)

  timed_out-Spared :
      (t n : ℕ) (c : AgentCommand) (rest : ℕ → M Tables (ℕ × Option Error)) (xs : List AgentCommand)
      (k : ℕ) (r : Result ℕ) (d : Db Tables)
      → ((m : ℕ) (d' : Db Tables) → d'.tables.commands ≡ xs → Spared t (rest m d'))
      → r ≡ ok k
      → d.tables.commands ≡ xs
      → Spared t (timed_out env c n rest r d)
  unfolding timed_out
  timed_out-Spared t n c rest xs k (ok m) d h e p =
      let told = notified_commands c m d in
      next-Spared t (rest (n + m)) xs (notify_timeout env c m d) (h (n + m)) told.0 (told.1 ∙ p)
  timed_out-Spared t n c rest xs k (err x) d h e p = absurd (ground arith)

  timeout_each-Spared :
      (t n : ℕ) (cs : List AgentCommand) (d : Db Tables)
      → Covered t cs d.tables.commands
      → Spared t (timeout_each env t n cs d)
  unfolding timeout_each attempt
  timeout_each-Spared t n [] d h = Covered-done t d.tables.commands h
  timeout_each-Spared t n (c ∷ cs) d h =
      let (rows, (k, e)) = ended_commands c t d in
      timed_out-Spared t n c (λ m. timeout_each env t m cs) _ k
        (timeout_command_and_task env c t d).0 (timeout_command_and_task env c t d).1
        (λ m d' p.
          timeout_each-Spared t m cs d'
            (subst (Covered t cs) (sym p) (Covered-step t c cs d.tables.commands h)))
        e rows

  -- Where every statement succeeds: after a scan no command is past its deadline and still pending, dispatched or running: each one
  -- that was, at the time that the scan read from the clock, has been ended.
  pub scan_misses_none :
      (d : Db Tables)
      → All
          (λ x. expired (env.engine.clock d.tick) x ≡ false)
          (timeout_expired env d).1.tables.commands
  unfolding timeout_expired now find_commands statement
  scan_misses_none d = rw (healthy d.tick) (
      timeout_each-Spared (env.engine.clock d.tick) 0 _ (record d { tick = suc d.tick })
        (Covered-start (env.engine.clock d.tick) d.tables.commands))
