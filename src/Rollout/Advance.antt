-- ===== src/Rollout/Advance.antt =====
-- One step of a rollout: `AdvanceRollout` of internal/master/agentrollout/service.go and what it
-- calls.
pub mod Gate
pub mod Stop
use vault_fleet.Prelude.{
  ℕ, zero, suc, ◌+◌, ◌*◌, Bool, true, false, not, ◌&&◌, ◌||◌, Option, none, some, List, [], ◌∷◌,
  ◌++◌, ltb, leb, ◌==◌, ℤ, positive_or_default, Text, codes, text_eq, trim_space, is_empty, is_some,
  if◌then◌else◌, where_rows, sort_by, take,
}
use vault_fleet.Engine.{
  Error, not_found, context_done, Result, ok, err, M, pure, fail, ◌>>=◌, ◌>>◌, attempt, now,
  transaction, for_each,
}
use vault_fleet.Rollout.Model.{
  RolloutStatus, ItemStatus, AgentUpgradeRollout, AgentUpgradeRolloutItem, Tables, Reply,
  send_failed, closed, invalid, answered, context_ended, Env, is_open, rollout_terminal,
  is_item_pending, is_item_running, is_item_failed, is_item_skipped, is_item_settled, is_canary,
  is_batch, count_or_default, default_batch_size, has_id, of_rollout, has_item_id, update_rollouts,
  update_items, count_items, find_items, first_rollout, created_before, batch_before, record_audit,
}

-- `id = ? AND status IN (pending, running)`.
abbrev pub open_id : Text → AgentUpgradeRollout → Bool
open_id i r = has_id i r && is_open r.status

abbrev pub pending_of : Text → AgentUpgradeRolloutItem → Bool
pending_of i x = of_rollout i x && is_item_pending x.status

abbrev pub running_of : Text → AgentUpgradeRolloutItem → Bool
running_of i x = of_rollout i x && is_item_running x.status

abbrev pub failed_of : Text → AgentUpgradeRolloutItem → Bool
failed_of i x = of_rollout i x && is_item_failed x.status

abbrev pub mark_rollout : RolloutStatus → Text → ℕ → AgentUpgradeRollout → AgentUpgradeRollout
mark_rollout status reason t r = record r {
  status = status;
  failure_reason = reason;
  completed_at = some t;
  updated_at = t;
}

abbrev pub mark_skipped : Text → ℕ → AgentUpgradeRolloutItem → AgentUpgradeRolloutItem
mark_skipped reason t x = record x {
  status = ItemStatus.skipped;
  skip_reason = reason;
  completed_at = some t;
  updated_at = t;
}

-- A blank reason is replaced.
abbrev pub reason_or : Text → Text → Text
reason_or reason fallback = if is_empty (trim_space reason) then fallback else reason

unfoldable pub record_found :
    Env → Text → Result (List AgentUpgradeRolloutItem) → M Tables (Unit {0})
record_found env text (err e) = pure tt
record_found env text (ok xs) =
    for_each
      (λ x. record_audit env (codes "agent_rollout.item_skipped") x.id (codes "success") text) xs

unfoldable pub record_skipped_items : Env → Text → Text → M Tables (Unit {0})
unfolding record_found
record_skipped_items env rollout_id text = do
  found ← attempt (find_items env.engine λ x. of_rollout rollout_id x && is_item_skipped x.status)
  record_found env text found

unfoldable pub skipped_because : Text → Text
skipped_because reason = codes "skipped because rollout stopped: " ++ reason

-- The body of the transaction of `failRollout`.
unfoldable pub fail_rows : Env → Text → Text → ℕ → M Tables (Unit {0})
fail_rows env rollout_id reason t = do
  update_rollouts env.engine (open_id rollout_id) (mark_rollout RolloutStatus.failed reason t)
  update_items env.engine (pending_of rollout_id) (mark_skipped (skipped_because reason) t)

unfoldable pub fail_rollout : Env → Text → Text → M Tables (Unit {0})
unfolding fail_rows
fail_rollout env rollout_id text = do
  t ← now env.engine
  let reason = reason_or text (codes "rollout failed")
  transaction env.engine (fail_rows env rollout_id reason t)
  record_audit env (codes "agent_rollout.failed") rollout_id (codes "failure") reason
  record_skipped_items env rollout_id (skipped_because reason)

abbrev pub mark_item_failed : Text → ℕ → AgentUpgradeRolloutItem → AgentUpgradeRolloutItem
mark_item_failed reason t x = record x {
  status = ItemStatus.failed;
  error = reason;
  completed_at = some t;
  updated_at = t;
}

unfoldable pub fail_item : Env → AgentUpgradeRolloutItem → Text → M Tables (Unit {0})
unfolding fail_rollout
fail_item env item text = do
  t ← now env.engine
  let reason = reason_or text (codes "item failed")
  update_items env.engine (has_item_id item.id) (mark_item_failed reason t)
  record_audit env (codes "agent_rollout.item_failed") item.id (codes "failure") reason
  fail_rollout env item.rollout_id reason

abbrev pub mark_running : Bool → ℕ → AgentUpgradeRollout → AgentUpgradeRollout
mark_running started t r = record r {
  status = RolloutStatus.running;
  started_at = if started then some t else r.started_at;
  updated_at = t;
}

-- `First` found the rollout, and it has not started.
abbrev pub not_started : Result (Option AgentUpgradeRollout) → Bool
not_started (ok (some r)) = not (is_some r.started_at)
not_started (ok none) = false
not_started (err e) = false

unfoldable pub mark_rollout_running : Env → Text → M Tables (Unit {0})
mark_rollout_running env rollout_id = do
  t ← now env.engine
  found ← attempt (first_rollout env.engine (has_id rollout_id))
  update_rollouts env.engine (open_id rollout_id) (mark_running (not_started found) t)

unfoldable pub complete_as : Env → Text → ℕ → ℕ → M Tables (Unit {0})
complete_as env rollout_id t zero = do
  update_rollouts env.engine (open_id rollout_id) (mark_rollout RolloutStatus.succeeded [] t)
  record_audit env (codes "agent_rollout.succeeded") rollout_id (codes "success") []
complete_as env rollout_id t (suc n) = do
  let reason = codes "rollout item failed"
  update_rollouts env.engine (open_id rollout_id) (mark_rollout RolloutStatus.failed reason t)
  record_audit env (codes "agent_rollout.failed") rollout_id (codes "failure") reason

unfoldable pub complete_rollout : Env → Text → M Tables (Unit {0})
unfolding complete_as
complete_rollout env rollout_id = do
  t ← now env.engine
  failed ← count_items env.engine (failed_of rollout_id)
  complete_as env rollout_id t failed

abbrev pub past_deadline : ℕ → Option ℕ → Bool
past_deadline t none = false
past_deadline t (some deadline) = leb deadline t

unfoldable pub expire_timed_out_items : Env → Text → M Tables (Unit {0})
expire_timed_out_items env rollout_id = do
  t ← now env.engine
  items ← find_items env.engine λ x. running_of rollout_id x && past_deadline t x.deadline_at
  for_each (λ x. fail_item env x (codes "timeout waiting for target version heartbeat")) items

abbrev pub pending_canary : Text → AgentUpgradeRolloutItem → Bool
pending_canary i x = pending_of i x && is_canary x.phase

abbrev pub pending_batch : Text → AgentUpgradeRolloutItem → Bool
pending_batch i x = pending_of i x && is_batch x.phase

abbrev pub unsettled_canary : Text → AgentUpgradeRolloutItem → Bool
unsettled_canary i x = of_rollout i x && is_canary x.phase && not (is_item_settled x.status)

-- The first batch that is pending, and its items up to the batch size.
unfoldable pub batch_items :
    Env
    → AgentUpgradeRollout
    → List AgentUpgradeRolloutItem
    → M Tables (List AgentUpgradeRolloutItem)
batch_items env rollout [] = pure []
batch_items env rollout (first ∷ rest) = do
  items ←
      find_items env.engine λ x. pending_batch rollout.id x && x.batch_index == first.batch_index
  pure
      (take (count_or_default rollout.batch_size default_batch_size) (sort_by created_before items))

unfoldable pub after_canaries :
    Env → AgentUpgradeRollout → ℕ → M Tables (List AgentUpgradeRolloutItem)
unfolding batch_items
after_canaries env rollout (suc n) = pure []
after_canaries env rollout zero = do
  pending ← find_items env.engine (pending_batch rollout.id)
  batch_items env rollout (sort_by batch_before pending)

unfoldable pub next_after :
    Env
    → AgentUpgradeRollout
    → List AgentUpgradeRolloutItem
    → M Tables (List AgentUpgradeRolloutItem)
unfolding after_canaries
next_after env rollout (x ∷ xs) = pure (sort_by batch_before (x ∷ xs))
next_after env rollout [] = do
  unsettled ← count_items env.engine (unsettled_canary rollout.id)
  after_canaries env rollout unsettled

unfoldable pub next_items : Env → AgentUpgradeRollout → M Tables (List AgentUpgradeRolloutItem)
unfolding next_after
next_items env rollout = do
  canaries ← find_items env.engine (pending_canary rollout.id)
  next_after env rollout canaries

abbrev pub second : ℕ
second = 1_000_000_000

-- `itemTimeout`: ten minutes, if none is set.
unfoldable pub item_timeout : Env → ℕ
item_timeout env = positive_or_default env.item_timeout (600 * second)

abbrev pub mark_item_started : Text → ℕ → ℕ → AgentUpgradeRolloutItem → AgentUpgradeRolloutItem
mark_item_started message_id t deadline x = record x {
  status = ItemStatus.running;
  message_id = message_id;
  started_at = some t;
  deadline_at = some deadline;
  updated_at = t;
}

unfoldable pub after_reply : Env → AgentUpgradeRolloutItem → Reply → M Tables (Unit {0})
after_reply env item (send_failed text) = fail_item env item text
after_reply env item closed =
    fail_item env item (codes "timeout waiting for update acknowledgement")
after_reply env item invalid = fail_item env item (codes "invalid update acknowledgement")
after_reply env item (answered true text) = pure tt
after_reply env item (answered false text) =
    fail_item env item
      (if is_empty (trim_space text) then codes "agent rejected update" else trim_space text)
after_reply env item context_ended = fail context_done

-- `SendAndWait` and the wait for its channel.
unfoldable pub ask_agent : Env → Text → Text → M Tables Reply
ask_agent env agent_id message_id d = (
  ok (env.ask d.tick agent_id message_id),
  record d {
    tick = suc d.tick;
    tables = record d.tables { asked = d.tables.asked ++ agent_id ∷ [] };
  },
)

unfoldable pub start_with : Env → AgentUpgradeRolloutItem → Option Text → M Tables (Unit {0})
unfolding after_reply ask_agent
start_with env item none = fail_item env item (codes "encode update request")
start_with env item (some message_id) = do
  t ← now env.engine
  update_items env.engine (has_item_id item.id)
      (mark_item_started message_id t (t + item_timeout env))
  reply ← ask_agent env item.agent_id message_id
  after_reply env item reply

unfoldable pub encode_request : Env → AgentUpgradeRollout → M Tables (Option Text)
encode_request env rollout d = (
  ok (env.new_message d.tick rollout.target_version rollout.github_repo),
  record d { tick = suc d.tick },
)

unfoldable pub agent_online : Env → Text → M Tables Bool
agent_online env agent_id d = (ok (env.is_online d.tick agent_id), d)

unfoldable pub start_online :
    Env → AgentUpgradeRollout → AgentUpgradeRolloutItem → Bool → M Tables (Unit {0})
unfolding start_with encode_request
start_online env rollout item false = fail_item env item (codes "agent offline")
start_online env rollout item true = do
  message_id ← encode_request env rollout
  start_with env item message_id

unfoldable pub start_item :
    Env → AgentUpgradeRollout → AgentUpgradeRolloutItem → M Tables (Unit {0})
unfolding start_online agent_online
start_item env rollout item = do
  online ← agent_online env item.agent_id
  start_online env rollout item online

unfoldable pub start_items :
    Env → Text → AgentUpgradeRollout → List AgentUpgradeRolloutItem → M Tables (Unit {0})
start_items env rollout_id rollout [] = mark_rollout_running env rollout_id
start_items env rollout_id rollout (x ∷ xs) = do
  mark_rollout_running env rollout_id
  for_each (start_item env rollout) (x ∷ xs)

unfoldable pub advance_pending : Env → Text → AgentUpgradeRollout → ℕ → M Tables (Unit {0})
unfolding start_items
advance_pending env rollout_id rollout zero = complete_rollout env rollout_id
advance_pending env rollout_id rollout (suc n) = do
  items ← next_items env rollout
  start_items env rollout_id rollout items

unfoldable pub advance_quiet : Env → Text → AgentUpgradeRollout → ℕ → M Tables (Unit {0})
unfolding advance_pending
advance_quiet env rollout_id rollout (suc n) = mark_rollout_running env rollout_id
advance_quiet env rollout_id rollout zero = do
  pending ← count_items env.engine (pending_of rollout_id)
  advance_pending env rollout_id rollout pending

unfoldable pub advance_unfailed : Env → Text → AgentUpgradeRollout → ℕ → M Tables (Unit {0})
unfolding advance_quiet
advance_unfailed env rollout_id rollout (suc n) =
    fail_rollout env rollout_id (codes "rollout item failed")
advance_unfailed env rollout_id rollout zero = do
  running ← count_items env.engine (running_of rollout_id)
  advance_quiet env rollout_id rollout running

unfoldable pub advance_found : Env → Text → Option AgentUpgradeRollout → M Tables (Unit {0})
unfolding advance_unfailed
advance_found env rollout_id none = fail not_found
advance_found env rollout_id (some rollout) =
    if rollout_terminal rollout.status then pure tt else do
      failed ← count_items env.engine (failed_of rollout_id)
      advance_unfailed env rollout_id rollout failed

unfoldable pub advance_rollout : Env → Text → M Tables (Unit {0})
unfolding advance_found
advance_rollout env rollout_id = if is_empty rollout_id then pure tt else do
  expire_timed_out_items env rollout_id
  found ← first_rollout env.engine (has_id rollout_id)
  advance_found env rollout_id found
