-- ===== src/Commands/Limit.antt =====
-- What one call of `DispatchPendingForAgent` sends (`dispatchForAgent` of internal/master/commands/
-- service.go).
mod Silence
use mathlib.Core.List.{append-nil, append_assoc}
use vault_fleet.Prelude.{
  ℕ, zero, suc, ◌+◌, ◌≤◌, ◌≡◌, refl, sym, ap, ◌∙◌, Bool, true, false, ◌&&◌, inl, inr, Option, none,
  some, List, [], ◌∷◌, ◌++◌, arith, ℤ, positive_or_default, Text, text_eq, text_eq_iff, length,
  length-append, length-take-le, take, where_rows, insert_by, order_by, leb, All, Bool-cases,
  is_empty, if◌then◌else◌,
}
use vault_fleet.Engine.{
  Db, M, Result, ok, err, Error, capabilities_unknown, selective_restore_unsupported,
  invalid_payload, db_error, not_found, not_configured, command_not_active, no_targets,
  no_matched_targets, duplicate_active_target, context_done, message, pure, fail, next, ◌>>=◌, ◌>>◌,
  attempt, now, statement, for_each,
}
use vault_fleet.Engine.Keeps.{Keeps}
use vault_fleet.Commands.Model.{
  CommandStatus, AgentCommand, Message, Delivery, Tables, Env, find_commands,
}
use vault_fleet.Commands.Dispatch.{
  taken, hub_send, after_send, send_recorded, dispatch_prepared, dispatch,
  prepare_message_for_dispatch, record_dispatch_success_for_command, deliverable,
  select_deliverable, hub_is_online, dispatch_online, dispatch_for_agent,
}
use vault_fleet.Commands.Limit.Silence.{
  Unsent, prepare-Unsent, record_success-Unsent, rollback-Unsent, fail_command-Unsent,
}

-- At most `n` messages are sent, after those sent before, and all to this agent.
abbrev pub SentWithin : Text → ℕ → Tables → Tables → Type 0
SentWithin a n s t =
    (extra : List Delivery) × (t.sent ≡ s.sent ++ extra)
    × (length extra ≤ n)
    × All (λ x. x.agent_id ≡ a) extra

Unsent-SentWithin : (a : Text) (n : ℕ) (s t : Tables) → Unsent s t → SentWithin a n s t
Unsent-SentWithin a n s t p = ([], p.same ∙ sym (append-nil s.sent), omega arith, tt)

All-append : {A : Type 0} (P : A → Type 0) (xs ys : List A) → All P xs → All P ys → All P (xs ++ ys)
All-append P [] ys p q = q
All-append P (x ∷ xs) ys p q = (p.0, All-append P xs ys p.1 q)

SentWithin-trans :
    (a : Text) (m n k : ℕ) (s t u : Tables)
    → m + n ≤ k
    → SentWithin a m s t
    → SentWithin a n t u
    → SentWithin a k s u
SentWithin-trans a m n k s t u le (xs, e, h, all_xs) (ys, e', h', all_ys) = (
  xs ++ ys,
  e' ∙ ap (λ z. z ++ ys) e ∙ append_assoc s.sent xs ys,
  omega (arith, length-append xs ys, h, h', le),
  All-append _ xs ys all_xs all_ys,
)

-- A step after one that sends nothing.
SentWithin-next :
    {A : Type 0} (a : Text) (n : ℕ) (f : A → M Tables (Unit {0})) (s : Tables)
    (r : Result A × Db Tables)
    → Unsent s r.1.tables
    → ((x : A) (d : Db Tables) → SentWithin a n d.tables (f x d).1.tables)
    → SentWithin a n s (next f r).1.tables
SentWithin-next a n f s (ok x, d) p h =
    SentWithin-trans a 0 n n s d.tables (f x d).1.tables (omega arith)
      (Unsent-SentWithin a 0 s d.tables p) (h x d)
SentWithin-next a n f s (err e, d) p h = Unsent-SentWithin a n s d.tables p

module _ (env : Env) where
  after_taken :
      (c : AgentCommand) (m : Message) (o : Option Text) (d : Db Tables)
      → SentWithin c.agent_id 1 d.tables (next (after_send env c) (taken c.agent_id m o d)).1.tables
  unfolding taken after_send
  after_taken c m none d =
      let delivery : Delivery = record { agent_id = c.agent_id; message = m } in
      (delivery ∷ [], refl, omega arith, (refl, tt))
  after_taken c m (some text) d =
      Unsent-SentWithin c.agent_id 1 d.tables _ ((rollback-Unsent env c text).holds d)

  send_recorded-SentWithin :
      (c : AgentCommand) (m : Message) (b : Bool) (d : Db Tables)
      → SentWithin c.agent_id 1 d.tables (send_recorded env c m b d).1.tables
  unfolding send_recorded hub_send
  send_recorded-SentWithin c m false d = ([], sym (append-nil d.tables.sent), omega arith, tt)
  send_recorded-SentWithin c m true d = after_taken c m _ (record d { tick = suc d.tick })

  none_sent :
      (a : Text) (n : ℕ) (m : M Tables (Unit {0})) (d : Db Tables)
      → Keeps Unsent m
      → SentWithin a n d.tables (m d).1.tables
  none_sent a n m d p = Unsent-SentWithin a n d.tables _ (p.holds d)

  nothing_sent : (a : Text) (n : ℕ) (s : Tables) → SentWithin a n s s
  nothing_sent a n s = ([], sym (append-nil s.sent), omega arith, tt)

  prepared-SentWithin :
      (c : AgentCommand) (r : Result Message) (d : Db Tables)
      → SentWithin c.agent_id 1 d.tables (dispatch_prepared env c r d).1.tables
  unfolding dispatch_prepared
  prepared-SentWithin c (err capabilities_unknown) d = nothing_sent c.agent_id 1 d.tables
  prepared-SentWithin c (err selective_restore_unsupported) d =
      none_sent c.agent_id 1 _ d (fail_command-Unsent env c _)
  prepared-SentWithin c (err (invalid_payload text)) d =
      none_sent c.agent_id 1 _ d (fail_command-Unsent env c text)
  prepared-SentWithin c (err db_error) d = nothing_sent c.agent_id 1 d.tables
  prepared-SentWithin c (err not_found) d = nothing_sent c.agent_id 1 d.tables
  prepared-SentWithin c (err not_configured) d = nothing_sent c.agent_id 1 d.tables
  prepared-SentWithin c (err command_not_active) d = nothing_sent c.agent_id 1 d.tables
  prepared-SentWithin c (err no_targets) d = nothing_sent c.agent_id 1 d.tables
  prepared-SentWithin c (err no_matched_targets) d = nothing_sent c.agent_id 1 d.tables
  prepared-SentWithin c (err (duplicate_active_target t)) d = nothing_sent c.agent_id 1 d.tables
  prepared-SentWithin c (err context_done) d = nothing_sent c.agent_id 1 d.tables
  prepared-SentWithin c (err (message text)) d = nothing_sent c.agent_id 1 d.tables
  prepared-SentWithin c (ok m) d =
      SentWithin-next c.agent_id 1 (send_recorded env c m) d.tables
        (record_dispatch_success_for_command env c d) ((record_success-Unsent env c).holds d)
        (send_recorded-SentWithin c m)

  dispatch-SentWithin :
      (c : AgentCommand) (d : Db Tables)
      → SentWithin c.agent_id 1 d.tables (dispatch env c d).1.tables
  unfolding dispatch
  dispatch-SentWithin c d =
      SentWithin-next c.agent_id 1 (dispatch_prepared env c) d.tables
        (attempt (prepare_message_for_dispatch env c) d) ((prepare-Unsent env c).holds d)
        (prepared-SentWithin c)

  after_dispatch :
      (a : Text) (n : ℕ) (k : M Tables (Unit {0})) (s : Tables) (r : Result (Unit {0}) × Db Tables)
      → SentWithin a 1 s r.1.tables
      → ((d : Db Tables) → SentWithin a n d.tables (k d).1.tables)
      → SentWithin a (suc n) s (next (λ _. k) r).1.tables
  after_dispatch a n k s (ok u, d) p h =
      SentWithin-trans a 1 n (suc n) s d.tables (k d).1.tables (omega arith) p (h d)
  after_dispatch a n k s (err e, d) (xs, q, l, all_xs) h = (xs, q, omega (arith, l), all_xs)

  each_dispatched :
      (a : Text) (cs : List AgentCommand) (d : Db Tables)
      → All (λ c. c.agent_id ≡ a) cs
      → SentWithin a (length cs) d.tables (for_each (dispatch env) cs d).1.tables
  unfolding for_each
  each_dispatched a [] d h = nothing_sent a 0 d.tables
  each_dispatched a (c ∷ cs) d h =
      after_dispatch a (length cs) (for_each (dispatch env) cs) d.tables (dispatch env c d)
        (rw (sym h.0) (dispatch-SentWithin c d)) (λ d'. each_dispatched a cs d' h.1)

module _ {A : Type 0} (P : A → Type 0) where
  All-where_rows :
      (p : A → Bool) (xs : List A) → ((x : A) → p x ≡ true → P x) → All P (where_rows p xs)
  All-where_rows p [] h = tt
  All-where_rows p (x ∷ xs) h = elim (Bool-cases (p x)) [
    | inl e ↦ rw e (h x e, All-where_rows p xs h)
    | inr e ↦ rw e (All-where_rows p xs h)
  ]

  All-insert_by : (key : A → ℕ) (x : A) (xs : List A) → P x → All P xs → All P (insert_by key x xs)
  All-insert_by key x [] h hs = (h, tt)
  All-insert_by key x (y ∷ ys) h hs = elim (Bool-cases (leb (key x) (key y))) [
    | inl e ↦ rw e (h, hs)
    | inr e ↦ rw e (hs.0, All-insert_by key x ys h hs.1)
  ]

  All-order_by : (key : A → ℕ) (xs : List A) → All P xs → All P (order_by key xs)
  All-order_by key [] h = tt
  All-order_by key (x ∷ xs) h = All-insert_by key x _ h.0 (All-order_by key xs h.1)

  All-take : (n : ℕ) (xs : List A) → All P xs → All P (take n xs)
  All-take zero xs h = tt
  All-take (suc n) [] h = tt
  All-take (suc n) (x ∷ xs) h = (h.0, All-take n xs h.1)

module _ (env : Env) (a : Text) (limit : ℤ) (statuses : CommandStatus → Bool) where
  deliverable-agent :
      (t : ℕ) (c : AgentCommand) → deliverable a statuses t c ≡ true → c.agent_id ≡ a
  deliverable-agent t c h = (text_eq_iff c.agent_id a).0 (ground (arith, h))

  selected_sent :
      (k : ℕ) (cs : List AgentCommand) (d : Db Tables)
      → length cs ≤ k
      → All (λ c. c.agent_id ≡ a) cs
      → SentWithin a k d.tables (for_each (dispatch env) cs d).1.tables
  selected_sent k cs d le h =
      let (xs, e, l, all_xs) = each_dispatched env a cs d h in (xs, e, omega (arith, l, le), all_xs)

  online_sent :
      (b : Bool) (d : Db Tables)
      → SentWithin a
          (positive_or_default limit 100)
          d.tables
          (dispatch_online env a limit statuses b d).1.tables
  unfolding dispatch_online select_deliverable now find_commands statement
  online_sent false d = nothing_sent env a _ d.tables
  online_sent true d = elim (Bool-cases (env.engine.fails d.tick)) [
    | inl f ↦ rw f (nothing_sent env a _ d.tables)
    | inr f ↦
        let t = env.engine.clock d.tick in
        let k = positive_or_default limit 100 in
        let rows = where_rows (deliverable a statuses t) d.tables.commands in
        rw f (
          selected_sent k _ (record d { tick = suc d.tick })
            (length-take-le k (order_by (λ c. c.created_at) rows))
            (All-take _ k _ (
              All-order_by _ _ rows (
                All-where_rows _ (deliverable a statuses t) d.tables.commands
                  (deliverable-agent t)))))
  ]

  -- One call of `dispatchForAgent` sends at most as many messages as its limit (100, if the limit is
  -- not positive), all of them to its agent and after those sent before, whatever statements fail
  -- and whatever the hub answers.
  pub dispatch_within_limit :
      (d : Db Tables)
      → SentWithin a
          (positive_or_default limit 100)
          d.tables
          (dispatch_for_agent env a limit statuses d).1.tables
  unfolding dispatch_for_agent hub_is_online
  dispatch_within_limit d = elim (Bool-cases (is_empty a)) [
    | inl e ↦ rw e (nothing_sent env a _ d.tables)
    | inr e ↦ rw e (online_sent (env.is_online d.tick a) d)
  ]
