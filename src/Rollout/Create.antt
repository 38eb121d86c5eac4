-- ===== src/Rollout/Create.antt =====
-- `CreateRollout` of internal/master/agentrollout/service.go, with its test for agents that are
-- already in an active rollout.
pub mod Conflict
use vault_fleet.Prelude.{
  ℕ, Bool, false, not, ◌&&◌, ◌||◌, Option, none, some, List, [], ◌∷◌, ◌++◌, Text, text_eq,
  text_elem, is_empty, if◌then◌else◌, sort_by, map, where_rows,
}
use vault_fleet.Engine.{
  no_matched_targets, duplicate_active_target, Result, ok, err, M, pure, fail, ◌>>=◌, attempt, now,
  new_id, statement, transaction,
}
use vault_fleet.Rollout.Model.{
  RolloutStatus, AgentUpgradeRollout, AgentUpgradeRolloutItem, Agent, Tables, Env, is_open,
  is_item_active, created_before,
}
use vault_fleet.Rollout.Input.{CreateInput, NormalInput, normalize_create_input}
use vault_fleet.Rollout.Plan.{resolve_targets, plan_items}

-- `JOIN agent_upgrade_rollouts`: the item's rollout is there and open.
unfoldable pub in_open_rollout : List AgentUpgradeRollout → AgentUpgradeRolloutItem → Bool
in_open_rollout [] x = false
in_open_rollout (r ∷ rs) x = (text_eq r.id x.rollout_id && is_open r.status) || in_open_rollout rs x

-- An item that keeps its agent busy.
abbrev pub is_busy : List AgentUpgradeRollout → AgentUpgradeRolloutItem → Bool
is_busy rollouts x = is_item_active x.status && in_open_rollout rollouts x

abbrev pub conflict_agent : List AgentUpgradeRolloutItem → Option Text
conflict_agent [] = none
conflict_agent (x ∷ xs) = if is_empty x.agent_id then none else some x.agent_id

abbrev pub busy_among : List Text → Tables → AgentUpgradeRolloutItem → Bool
busy_among ids t x = text_elem x.agent_id ids && is_busy t.rollouts x

abbrev pub none_on_error : Result (Option Text) → Option Text
none_on_error (ok found) = found
none_on_error (err e) = none

-- An error of the query counts as no conflict.
unfoldable pub first_active_conflict : Env → List Agent → M Tables (Option Text)
first_active_conflict env [] = pure none
first_active_conflict env (a ∷ rest) = do
  found ← attempt (
      statement env.engine λ t. (
        conflict_agent (
            sort_by created_before
              (where_rows (busy_among (map (λ b. b.id) (a ∷ rest)) t) t.items)),
        t,
      ))
  pure (none_on_error found)

abbrev pub new_rollout : Env → NormalInput → Text → ℕ → AgentUpgradeRollout
new_rollout env input id created = record {
  id = id;
  target_version = input.target_version;
  github_repo = input.github_repo;
  target_tags = env.encode_list input.target_tags;
  target_agent_ids = env.encode_list input.target_agent_ids;
  canary_count = input.canary_count;
  batch_size = input.batch_size;
  status = RolloutStatus.pending;
  failure_reason = [];
  created_by = input.actor;
  started_at = none;
  completed_at = none;
  created_at = created;
  updated_at = created;
}

unfoldable pub create_items :
    Env → Text → List AgentUpgradeRolloutItem → M Tables (List AgentUpgradeRolloutItem)
create_items env rollout_id [] = pure []
create_items env rollout_id (x ∷ xs) =
    let rest = create_items env rollout_id xs in
    do
      id ← new_id env.engine
      created ← now env.engine
      let row = record x {
        id = id;
        rollout_id = rollout_id;
        created_at = created;
        updated_at = created;
      }
      u ← statement env.engine λ t. (tt, record t { items = t.items ++ row ∷ [] })
      rows ← rest
      pure (row ∷ rows)

unfoldable pub create_rollout_rows :
    Env
    → NormalInput
    → List AgentUpgradeRolloutItem
    → M Tables (AgentUpgradeRollout × List AgentUpgradeRolloutItem)
create_rollout_rows env input items = do
  id ← new_id env.engine
  created ← now env.engine
  let rollout = new_rollout env input id created
  u ← statement env.engine λ t. (tt, record t { rollouts = t.rollouts ++ rollout ∷ [] })
  rows ← create_items env rollout.id items
  pure (rollout, rows)

unfoldable pub create_unless :
    Env
    → NormalInput
    → List Agent
    → Option Text
    → M Tables (AgentUpgradeRollout × List AgentUpgradeRolloutItem)
create_unless env input agents (some agent_id) = fail (duplicate_active_target agent_id)
create_unless env input agents none = do
  t ← now env.engine
  transaction env.engine (
      create_rollout_rows env input
        (plan_items env agents input.target_version input.canary_count input.batch_size t))

unfoldable pub create_for :
    Env → NormalInput → List Agent → M Tables (AgentUpgradeRollout × List AgentUpgradeRolloutItem)
unfolding create_unless
create_for env input [] = fail no_matched_targets
create_for env input (a ∷ rest) = do
  conflict ← first_active_conflict env (a ∷ rest)
  create_unless env input (a ∷ rest) conflict

unfoldable pub create_normal :
    Env → Result NormalInput → M Tables (AgentUpgradeRollout × List AgentUpgradeRolloutItem)
unfolding create_for
create_normal env (err e) = fail e
create_normal env (ok input) = do
  agents ← resolve_targets env input.target_agent_ids input.target_tags
  create_for env input agents

unfoldable pub create_rollout :
    Env → CreateInput → M Tables (AgentUpgradeRollout × List AgentUpgradeRolloutItem)
unfolding create_normal
create_rollout env input = create_normal env (normalize_create_input input)

-- `HasActiveItem`.
unfoldable pub has_active_item : Env → Text → M Tables Bool
has_active_item env agent_id =
    if is_empty agent_id
    then pure false
    else statement env.engine λ t. (
      not (
          is_empty (where_rows (λ x. text_eq x.agent_id agent_id && is_busy t.rollouts x) t.items)),
      t,
    )
