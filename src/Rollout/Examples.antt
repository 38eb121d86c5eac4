-- ===== src/Rollout/Examples.antt =====
-- Runs of the rollout service (internal/master/agentrollout/service.go) on small databases.
use vault_fleet.Prelude.{
  ◌↔◌, Distinct, arith, ◌+◌, ◌≤◌, ◌≡◌, ◌≢◌, ◌⊎◌, refl, true, false, none, some, List, [], ◌∷◌, map,
  pos, Text, codes, text_eq, text_elem, text_leb, trim_space, trim_left, get_elem?, count_where,
  not,
}
use vault_fleet.Engine.{ok, attempt, statement, transaction, commit, now, new_id, Engine, Db, ok}
use vault_fleet.Rollout.Model.{
  RolloutStatus, ItemStatus, Phase, AgentUpgradeRollout, AgentUpgradeRolloutItem, Agent, Tables,
  Env, answered, count_or_default, default_batch_size, is_canary,
}
use vault_fleet.Rollout.Input.{
  normalize_with, check_normal, normalize_ids, distinct_ids, normalize_tags, distinct_tags,
  CreateInput, NormalInput, normalize_create_input,
}
use vault_fleet.Rollout.Plan.{
  match_agents, plan_items, plan_from, plan_item, planned, fate, parse_system_info,
}
use vault_fleet.Rollout.Create.{
  create_for, new_rollout, create_unless, create_rollout_rows, create_items, first_active_conflict,
  in_open_rollout, busy_among,
}
use vault_fleet.Rollout.Create.Conflict.{agents_enrolled_once}
use vault_fleet.Rollout.Plan.Bounds.{in_batch, batches_bounded, canaries_bounded, plan_items-agents}
use vault_fleet.Rollout.Plan.Targets.{ids_of, Selected, targets_exact}
use vault_fleet.Rollout.Input.Bounds.{normalized_bounds}
use vault_fleet.Rollout.Input.Ids.{in_order, names, normalize_ids_lem}
use vault_fleet.Rollout.Advance.{advance_rollout}
use vault_fleet.Rollout.Advance.Gate.{advance_waits_for_items}
use vault_fleet.Rollout.Service.{Call, advances, heartbeats, cancels, run}
use vault_fleet.Rollout.Service.Finality.{terminal_rollouts_final, items_keep_plan}

abbrev steady : Engine
steady = record { fails = λ n. false; clock = λ n. 100 + n; uuid = λ n. n ∷ [] }

-- The agent 1 is offline; the others accept a request.
abbrev env : Env
env = record {
  engine = steady;
  encode_list = λ xs. [];
  parse_tags = λ t. some (t ∷ []);
  parse_system_info = λ t. record { version = t; arch = 6 ∷ [] };
  is_online = λ n a. not (text_eq a (1 ∷ []));
  new_message = λ n v g. some (5 ∷ []);
  ask = λ n a m. answered true [];
  item_timeout = pos 60;
}

abbrev rollout : Text → RolloutStatus → AgentUpgradeRollout
rollout i status = record {
  id = i;
  target_version = 2 ∷ [];
  github_repo = [];
  target_tags = [];
  target_agent_ids = [];
  canary_count = 1;
  batch_size = 2;
  status = status;
  failure_reason = [];
  created_by = [];
  started_at = none;
  completed_at = none;
  created_at = 0;
  updated_at = 0;
}

abbrev item : Text → Text → AgentUpgradeRolloutItem
item i agent = record {
  id = i;
  rollout_id = 8 ∷ [];
  agent_id = agent;
  phase = Phase.batch;
  batch_index = 1;
  status = ItemStatus.pending;
  current_version = 1 ∷ [];
  target_version = 2 ∷ [];
  architecture = 6 ∷ [];
  message_id = [];
  error = [];
  skip_reason = [];
  last_seen_version = [];
  started_at = none;
  completed_at = none;
  deadline_at = none;
  created_at = 0;
  updated_at = 0;
}

abbrev agent : Text → Agent
agent i = record { id = i; name = i; status = codes "online"; system_info = 1 ∷ []; tags = 97 ∷ [] }

abbrev finished : AgentUpgradeRollout
finished = rollout (7 ∷ []) RolloutStatus.succeeded

abbrev first : AgentUpgradeRolloutItem
first = item (1 ∷ []) (1 ∷ [])

abbrev later : AgentUpgradeRolloutItem
later = item (2 ∷ []) (2 ∷ [])

abbrev db : Db Tables
db = record {
  tables = record {
    rollouts = finished ∷ rollout (8 ∷ []) RolloutStatus.pending ∷ [];
    items = first ∷ later ∷ [];
    agents = agent (1 ∷ []) ∷ agent (2 ∷ []) ∷ agent (3 ∷ []) ∷ [];
    audits = [];
    asked = [];
  };
  tick = 0;
}

abbrev calls : List Call
calls = advances (8 ∷ []) ∷ heartbeats (2 ∷ []) (2 ∷ []) ∷ cancels (7 ∷ []) [] ∷ []

terminal_rollouts_final_example : get_elem? (run env calls db).tables.rollouts 0 ≡ some finished
terminal_rollouts_final_example = terminal_rollouts_final env calls db 0 finished refl refl

items_keep_plan_example :
    (x : AgentUpgradeRolloutItem) × (get_elem? (run env calls db).tables.items 1 ≡ some x)
    × (x.rollout_id ≡ later.rollout_id)
    × (x.agent_id ≡ later.agent_id)
    × (x.phase ≡ later.phase)
    × (x.batch_index ≡ later.batch_index)
    × (x.target_version ≡ later.target_version)
items_keep_plan_example = items_keep_plan env calls db 1 later refl

batches_bounded_example :
    count_where (in_batch 1) (plan_items env db.tables.agents (2 ∷ []) 1 2 100)
    ≤ count_or_default 2 default_batch_size
batches_bounded_example = batches_bounded env db.tables.agents (2 ∷ []) 1 2 100 1

canaries_bounded_example :
    count_where (λ x. is_canary x.phase) (plan_items env db.tables.agents (2 ∷ []) 1 2 100) ≤ 1
canaries_bounded_example = canaries_bounded env db.tables.agents (2 ∷ []) 1 2 100

plan_items-agents_example :
    map (λ x. x.agent_id) (plan_items env db.tables.agents (2 ∷ []) 1 2 100)
    ≡ map (λ a. a.id) db.tables.agents
plan_items-agents_example = plan_items-agents env db.tables.agents (2 ∷ []) 1 2 100

targets_exact_example :
    let chosen = ids_of (match_agents env ((2 ∷ []) ∷ []) [] [] db.tables.agents) in
    Distinct chosen
    × ((t : Text) → text_elem t chosen ≡ true ↔ Selected env ((2 ∷ []) ∷ []) [] t db.tables.agents)
targets_exact_example = targets_exact env ((2 ∷ []) ∷ []) [] db.tables.agents

abbrev input : CreateInput
input = record {
  target_version = 50 ∷ [];
  github_repo = [];
  target_tags = [];
  target_agent_ids = (2 ∷ []) ∷ (2 ∷ []) ∷ [];
  canary_count = pos 0;
  batch_size = pos 50;
  actor = [];
}

abbrev normal : NormalInput
normal = record {
  target_version = 50 ∷ [];
  github_repo = [];
  target_tags = [];
  target_agent_ids = (2 ∷ []) ∷ [];
  canary_count = 1;
  batch_size = 50;
  actor = [];
}

normalizes : normalize_create_input input ≡ ok normal
unfolding normalize_create_input normalize_with check_normal normalize_ids distinct_ids
    normalize_tags distinct_tags text_elem text_eq text_leb trim_space trim_left
normalizes = refl

normalized_bounds_example :
    (1 ≤ 1)
    × (1 ≤ 10)
    × (1 ≤ 50)
    × (50 ≤ 50)
    × (normal.target_version ≢ [])
    × ((normal.target_agent_ids ≢ []) ⊎ (normal.target_tags ≢ []))
normalized_bounds_example = normalized_bounds input normal normalizes

-- The first item has been started.
abbrev under_way : Db Tables
under_way = record {
  tables = record db.tables { items = record first { status = ItemStatus.running } ∷ later ∷ [] };
  tick = 0;
}

advance_waits_for_items_example :
    (advance_rollout env (8 ∷ []) under_way).1.tables.asked ≡ under_way.tables.asked
unfolding text_eq
advance_waits_for_items_example = advance_waits_for_items env (8 ∷ []) under_way (λ e. ground arith)

abbrev third : List Agent
third = agent (3 ∷ []) ∷ []

abbrev created : AgentUpgradeRollout × List AgentUpgradeRolloutItem
created = (
  new_rollout env normal (1 ∷ []) 102,
  record (planned (agent (3 ∷ [])) (record { version = 1 ∷ []; arch = 6 ∷ [] }) (50 ∷ [])) {
    phase = Phase.canary;
    batch_index = 0;
    id = 3 ∷ [];
    rollout_id = 1 ∷ [];
    created_at = 104;
    updated_at = 104;
  }
      ∷ [],
)

created-third : (create_for env normal third db).0 ≡ ok created
unfolding create_for first_active_conflict create_unless create_rollout_rows create_items attempt
    statement transaction commit now new_id plan_items plan_from plan_item fate parse_system_info
    text_elem text_eq in_open_rollout trim_space trim_left
created-third = refl

agents_enrolled_once_example :
    count_where (busy_among (map (λ a. a.id) third) db.tables) db.tables.items ≡ 0
unfolding text_elem text_eq
agents_enrolled_once_example =
    agents_enrolled_once env normal third db created refl refl created-third

abbrev values : List Text
values = (32 ∷ 9 ∷ []) ∷ (5 ∷ []) ∷ [] ∷ (32 ∷ 5 ∷ []) ∷ (3 ∷ []) ∷ []

values_lem : normalize_ids values ≡ (3 ∷ []) ∷ (5 ∷ []) ∷ []
unfolding normalize_ids distinct_ids text_elem text_eq text_leb trim_space trim_left
values_lem = refl

normalize_ids_lem_example :
    (in_order (normalize_ids values) ≡ true)
    × Distinct (normalize_ids values)
    × ((t : Text) → text_elem t (normalize_ids values) ≡ names t values)
normalize_ids_lem_example = normalize_ids_lem values
