-- ===== src/Rollout/Heartbeat.antt =====
-- The events that move rollouts on: `HandleHeartbeat`, `CancelRollout` and `AdvanceAll` of internal/
-- master/agentrollout/service.go.
use vault_fleet.Prelude.{
  ℕ, Bool, true, false, ◌&&◌, ◌||◌, some, [], leb, Text, codes, text_eq, trim_space, is_empty,
  if◌then◌else◌, where_rows, sort_by,
}
use vault_fleet.Engine.{M, pure, ◌>>=◌, ◌>>◌, now, statement, transaction, for_each}
use vault_fleet.Rollout.Model.{
  RolloutStatus, ItemStatus, AgentUpgradeRollout, AgentUpgradeRolloutItem, Tables, Env, is_open,
  is_item_running, is_item_active, of_rollout, has_item_id, update_rollouts, update_items,
  find_items, record_audit,
}
use vault_fleet.Rollout.Advance.{
  open_id, mark_rollout, mark_skipped, reason_or, record_skipped_items, advance_rollout,
}

abbrev pub mark_seen : Text → ℕ → AgentUpgradeRolloutItem → AgentUpgradeRolloutItem
mark_seen version t x = record x { last_seen_version = version; updated_at = t }

abbrev pub mark_upgraded : Text → ℕ → AgentUpgradeRolloutItem → AgentUpgradeRolloutItem
mark_upgraded version t x = record x {
  last_seen_version = version;
  status = ItemStatus.success;
  completed_at = some t;
  error = [];
  updated_at = t;
}

unfoldable pub item_seen : Env → Text → ℕ → AgentUpgradeRolloutItem → Bool → M Tables (Unit {0})
item_seen env version t item false =
    update_items env.engine (has_item_id item.id) (mark_seen version t)
item_seen env version t item true = do
  update_items env.engine (has_item_id item.id) (mark_upgraded version t)
  record_audit env (codes "agent_rollout.item_success") item.id (codes "success") item.agent_id
  advance_rollout env item.rollout_id

unfoldable pub handle_heartbeat : Env → Text → Text → M Tables (Unit {0})
unfolding item_seen
handle_heartbeat env agent_id version =
    if is_empty agent_id || is_empty (trim_space version) then pure tt else do
      t ← now env.engine
      items ← find_items env.engine λ x. text_eq x.agent_id agent_id && is_item_running x.status
      for_each (λ x. item_seen env version t x (text_eq version x.target_version)) items

unfoldable pub cancel_rows : Env → Text → Text → ℕ → M Tables (Unit {0})
cancel_rows env rollout_id reason t = do
  update_rollouts env.engine (open_id rollout_id) (mark_rollout RolloutStatus.cancelled reason t)
  update_items env.engine (λ x. of_rollout rollout_id x && is_item_active x.status)
      (mark_skipped reason t)

unfoldable pub cancel_rollout : Env → Text → Text → M Tables (Unit {0})
unfolding cancel_rows
cancel_rollout env rollout_id text = if is_empty rollout_id then pure tt else do
  t ← now env.engine
  let reason = reason_or text (codes "cancelled by operator")
  transaction env.engine (cancel_rows env rollout_id reason t)
  record_audit env (codes "agent_rollout.cancelled") rollout_id (codes "success") reason
  record_skipped_items env rollout_id reason

-- `ORDER BY created_at ASC`.
abbrev pub rollout_before : AgentUpgradeRollout → AgentUpgradeRollout → Bool
rollout_before r s = leb r.created_at s.created_at

unfoldable pub advance_all : Env → M Tables (Unit {0})
advance_all env = do
  rollouts ←
      statement env.engine
        λ t. (sort_by rollout_before (where_rows (λ r. is_open r.status) t.rollouts), t)
  for_each (λ r. advance_rollout env r.id) rollouts
