-- ===== src/Rollout/Evolution/Steps.antt =====
-- `AdvanceRollout` and all that it calls respect the evolution of the tables
-- (internal/master/agentrollout/service.go).
use vault_fleet.Prelude.{
  ℕ, zero, suc, ◌≡◌, refl, Bool, true, false, Option, none, some, List, [], ◌∷◌, arith, Text,
}
use vault_fleet.Engine.{Result, ok, err}
use vault_fleet.Engine.Keeps.{Keeps, Keeps-statement}
use vault_fleet.Rollout.Model.{
  RolloutStatus, AgentUpgradeRollout, AgentUpgradeRolloutItem, Env, Reply, send_failed, closed,
  invalid, answered, context_ended, record_audit, update_rollouts,
}
use vault_fleet.Rollout.Advance.{
  open_id, mark_rollout, record_found, record_skipped_items, fail_rows, fail_rollout, fail_item,
  mark_rollout_running, complete_as, complete_rollout, expire_timed_out_items, batch_items,
  after_canaries, next_after, next_items, after_reply, ask_agent, start_with, encode_request,
  agent_online, start_online, start_item, start_items, advance_pending, advance_quiet,
  advance_unfailed, advance_found, advance_rollout,
}
use vault_fleet.Rollout.Evolution.{
  Kept, Evolves, Evolves-refl, Evolves-trans, update_rollouts-Evolves, update_items-Evolves,
  count_items-Evolves, find_items-Evolves, first_rollout-Evolves, clocked, committed, bind, tried,
  unchanged, refused, either, each,
}

-- An update of an open rollout that leaves its task alone.
pub open-Kept :
    (i : Text) (r r' : AgentUpgradeRollout)
    → r'.id ≡ r.id
    → r'.target_version ≡ r.target_version
    → r'.canary_count ≡ r.canary_count
    → r'.batch_size ≡ r.batch_size
    → open_id i r ≡ true
    → Kept r r'
open-Kept i r r' p q s t h = record {
  same_id = p;
  same_version = q;
  same_canaries = s;
  same_batch = t;
  final = λ e. absurd (ground arith);
}

module _ (env : Env) where
  pub mark_rollout-Evolves :
      (i : Text) (status : RolloutStatus) (reason : Text) (t : ℕ)
      → Keeps Evolves (update_rollouts env.engine (open_id i) (mark_rollout status reason t))
  mark_rollout-Evolves i status reason t =
      update_rollouts-Evolves env.engine _ _ λ r h. open-Kept i r _ refl refl refl refl h

  pub record_audit-Evolves :
      (action target result text : Text)
      → Keeps Evolves (record_audit env action target result text)
  unfolding record_audit
  record_audit-Evolves action target result text = either _ _ _ (unchanged _) (
      bind _ _
        (tried _ (
          Keeps-statement Evolves Evolves-refl Evolves-trans env.engine _
            λ s. record { rollouts = (Evolves-refl s).rollouts; items = (Evolves-refl s).items }))
        λ r. unchanged _)

  record_found-Evolves :
      (text : Text) (r : Result (List AgentUpgradeRolloutItem))
      → Keeps Evolves (record_found env text r)
  unfolding record_found
  record_found-Evolves text (err e) = unchanged _
  record_found-Evolves text (ok xs) = each _ xs λ x. record_audit-Evolves _ _ _ _

  pub record_skipped_items-Evolves :
      (i text : Text) → Keeps Evolves (record_skipped_items env i text)
  unfolding record_skipped_items
  record_skipped_items-Evolves i text =
      bind _ _ (tried _ (find_items-Evolves env.engine _)) λ r. record_found-Evolves text r

  fail_rows-Evolves : (i reason : Text) (t : ℕ) → Keeps Evolves (fail_rows env i reason t)
  unfolding fail_rows
  fail_rows-Evolves i reason t =
      bind _ _ (mark_rollout-Evolves i _ _ t)
        λ u. update_items-Evolves env.engine _ _ λ x. ground arith

  pub fail_rollout-Evolves : (i text : Text) → Keeps Evolves (fail_rollout env i text)
  unfolding fail_rollout
  fail_rollout-Evolves i text = bind _ _ (clocked env.engine) λ t.
      bind _ _ (committed env.engine _ (fail_rows-Evolves i _ t))
        λ u. bind _ _ (record_audit-Evolves _ _ _ _) λ v. record_skipped_items-Evolves i _

  fail_item-Evolves :
      (x : AgentUpgradeRolloutItem) (text : Text) → Keeps Evolves (fail_item env x text)
  unfolding fail_item
  fail_item-Evolves x text = bind _ _ (clocked env.engine) λ t.
      bind _ _ (update_items-Evolves env.engine _ _ λ y. ground arith)
        λ u. bind _ _ (record_audit-Evolves _ _ _ _) λ v. fail_rollout-Evolves _ _

  mark_rollout_running-Evolves : (i : Text) → Keeps Evolves (mark_rollout_running env i)
  unfolding mark_rollout_running
  mark_rollout_running-Evolves i = bind _ _ (clocked env.engine) λ t.
      bind _ _ (tried _ (first_rollout-Evolves env.engine _))
        λ found. update_rollouts-Evolves env.engine _ _ λ r h. open-Kept i r _ refl refl refl refl h

  complete_as-Evolves : (i : Text) (t n : ℕ) → Keeps Evolves (complete_as env i t n)
  unfolding complete_as
  complete_as-Evolves i t zero =
      bind _ _ (mark_rollout-Evolves i _ _ t) λ u. record_audit-Evolves _ _ _ _
  complete_as-Evolves i t (suc n) =
      bind _ _ (mark_rollout-Evolves i _ _ t) λ u. record_audit-Evolves _ _ _ _

  complete_rollout-Evolves : (i : Text) → Keeps Evolves (complete_rollout env i)
  unfolding complete_rollout
  complete_rollout-Evolves i =
      bind _ _ (clocked env.engine)
        λ t. bind _ _ (count_items-Evolves env.engine _) λ n. complete_as-Evolves i t n

  expire-Evolves : (i : Text) → Keeps Evolves (expire_timed_out_items env i)
  unfolding expire_timed_out_items
  expire-Evolves i =
      bind _ _ (clocked env.engine)
        λ t. bind _ _ (find_items-Evolves env.engine _) λ xs. each _ xs λ x. fail_item-Evolves x _

  batch_items-Evolves :
      (r : AgentUpgradeRollout) (xs : List AgentUpgradeRolloutItem)
      → Keeps Evolves (batch_items env r xs)
  unfolding batch_items
  batch_items-Evolves r [] = unchanged _
  batch_items-Evolves r (x ∷ xs) = bind _ _ (find_items-Evolves env.engine _) λ ys. unchanged _

  after_canaries-Evolves :
      (r : AgentUpgradeRollout) (n : ℕ) → Keeps Evolves (after_canaries env r n)
  unfolding after_canaries
  after_canaries-Evolves r (suc n) = unchanged _
  after_canaries-Evolves r zero =
      bind _ _ (find_items-Evolves env.engine _) λ xs. batch_items-Evolves r _

  next_after-Evolves :
      (r : AgentUpgradeRollout) (xs : List AgentUpgradeRolloutItem)
      → Keeps Evolves (next_after env r xs)
  unfolding next_after
  next_after-Evolves r (x ∷ xs) = unchanged _
  next_after-Evolves r [] =
      bind _ _ (count_items-Evolves env.engine _) λ n. after_canaries-Evolves r n

  next_items-Evolves : (r : AgentUpgradeRollout) → Keeps Evolves (next_items env r)
  unfolding next_items
  next_items-Evolves r = bind _ _ (find_items-Evolves env.engine _) λ xs. next_after-Evolves r xs

  after_reply-Evolves :
      (x : AgentUpgradeRolloutItem) (r : Reply) → Keeps Evolves (after_reply env x r)
  unfolding after_reply
  after_reply-Evolves x (send_failed text) = fail_item-Evolves x _
  after_reply-Evolves x closed = fail_item-Evolves x _
  after_reply-Evolves x invalid = fail_item-Evolves x _
  after_reply-Evolves x (answered true text) = unchanged _
  after_reply-Evolves x (answered false text) = fail_item-Evolves x _
  after_reply-Evolves x context_ended = refused _

  ask_agent-Evolves : (agent m : Text) → Keeps Evolves (ask_agent env agent m)
  unfolding ask_agent
  ask_agent-Evolves agent m = record {
    holds = λ d. record {
      rollouts = (Evolves-refl d.tables).rollouts;
      items = (Evolves-refl d.tables).items;
    };
  }

  start_with-Evolves :
      (x : AgentUpgradeRolloutItem) (o : Option Text) → Keeps Evolves (start_with env x o)
  unfolding start_with
  start_with-Evolves x none = fail_item-Evolves x _
  start_with-Evolves x (some m) = bind _ _ (clocked env.engine) λ t.
      bind _ _ (update_items-Evolves env.engine _ _ λ y. ground arith)
        λ u. bind _ _ (ask_agent-Evolves _ m) λ r. after_reply-Evolves x r

  encode_request-Evolves : (r : AgentUpgradeRollout) → Keeps Evolves (encode_request env r)
  unfolding encode_request
  encode_request-Evolves r = record { holds = λ d. Evolves-refl d.tables }

  agent_online-Evolves : (agent : Text) → Keeps Evolves (agent_online env agent)
  unfolding agent_online
  agent_online-Evolves agent = record { holds = λ d. Evolves-refl d.tables }

  start_online-Evolves :
      (r : AgentUpgradeRollout) (x : AgentUpgradeRolloutItem) (b : Bool)
      → Keeps Evolves (start_online env r x b)
  unfolding start_online
  start_online-Evolves r x false = fail_item-Evolves x _
  start_online-Evolves r x true = bind _ _ (encode_request-Evolves r) λ o. start_with-Evolves x o

  start_item-Evolves :
      (r : AgentUpgradeRollout) (x : AgentUpgradeRolloutItem) → Keeps Evolves (start_item env r x)
  unfolding start_item
  start_item-Evolves r x = bind _ _ (agent_online-Evolves _) λ b. start_online-Evolves r x b

  start_items-Evolves :
      (i : Text) (r : AgentUpgradeRollout) (xs : List AgentUpgradeRolloutItem)
      → Keeps Evolves (start_items env i r xs)
  unfolding start_items
  start_items-Evolves i r [] = mark_rollout_running-Evolves i
  start_items-Evolves i r (x ∷ xs) =
      bind _ _ (mark_rollout_running-Evolves i) λ u. each _ (x ∷ xs) (start_item-Evolves r)

  advance_pending-Evolves :
      (i : Text) (r : AgentUpgradeRollout) (n : ℕ) → Keeps Evolves (advance_pending env i r n)
  unfolding advance_pending
  advance_pending-Evolves i r zero = complete_rollout-Evolves i
  advance_pending-Evolves i r (suc n) =
      bind _ _ (next_items-Evolves r) λ xs. start_items-Evolves i r xs

  advance_quiet-Evolves :
      (i : Text) (r : AgentUpgradeRollout) (n : ℕ) → Keeps Evolves (advance_quiet env i r n)
  unfolding advance_quiet
  advance_quiet-Evolves i r (suc n) = mark_rollout_running-Evolves i
  advance_quiet-Evolves i r zero =
      bind _ _ (count_items-Evolves env.engine _) λ n. advance_pending-Evolves i r n

  advance_unfailed-Evolves :
      (i : Text) (r : AgentUpgradeRollout) (n : ℕ) → Keeps Evolves (advance_unfailed env i r n)
  unfolding advance_unfailed
  advance_unfailed-Evolves i r (suc n) = fail_rollout-Evolves i _
  advance_unfailed-Evolves i r zero =
      bind _ _ (count_items-Evolves env.engine _) λ n. advance_quiet-Evolves i r n

  advance_found-Evolves :
      (i : Text) (o : Option AgentUpgradeRollout) → Keeps Evolves (advance_found env i o)
  unfolding advance_found
  advance_found-Evolves i none = refused _
  advance_found-Evolves i (some r) =
      either _ _ _ (unchanged _)
        (bind _ _ (count_items-Evolves env.engine _) λ n. advance_unfailed-Evolves i r n)

  pub advance_rollout-Evolves : (i : Text) → Keeps Evolves (advance_rollout env i)
  unfolding advance_rollout
  advance_rollout-Evolves i = either _ _ _ (unchanged _) (
      bind _ _ (expire-Evolves i)
        λ u. bind _ _ (first_rollout-Evolves env.engine _) λ o. advance_found-Evolves i o)
