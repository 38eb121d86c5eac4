-- ===== src/Rollout/Plan.antt =====
-- Which agents a rollout is for, and the plan of its items: `resolveTargets` and `planItems` of
-- internal/master/agentrollout/service.go.
pub mod Bounds
pub mod Targets
use vault_fleet.Prelude.{
  ℕ, suc, ◌+◌, ◌-◌, ◌/◌, Bool, true, false, not, ◌&&◌, ◌||◌, Option, none, some, List, [], ◌∷◌, ltb,
  Text, codes, text_eq, text_elem, text_leb, trim_space, is_empty, if◌then◌else◌, sort_by,
}
use vault_fleet.Engine.{Result, ok, err, M, pure, ◌>>=◌, statement}
use vault_fleet.Rollout.Model.{
  ItemStatus, Phase, AgentUpgradeRolloutItem, Agent, SystemInfo, Tables, Env, default_batch_size,
  count_or_default,
}
use vault_fleet.Rollout.Input.{normalize_tags}

abbrev pub tags_or_none : Result (List Text) → List Text
tags_or_none (ok tags) = tags
tags_or_none (err e) = []

unfoldable pub normal_tags : Option (List Text) → List Text
normal_tags none = []
normal_tags (some tags) = tags_or_none (normalize_tags tags)

unfoldable pub agent_tags : Env → Agent → List Text
unfolding normal_tags
agent_tags env a = if is_empty (trim_space a.tags) then [] else normal_tags (env.parse_tags a.tags)

unfoldable pub all_present : List Text → List Text → Bool
all_present tags [] = true
all_present tags (r ∷ rs) = text_elem r tags && all_present tags rs

unfoldable pub has_all_tags : List Text → List Text → Bool
unfolding all_present
has_all_tags tags required = if is_empty required then false else all_present tags required

unfoldable pub no_info : SystemInfo
no_info = record { version = []; arch = [] }

unfoldable pub parse_system_info : Env → Text → SystemInfo
unfolding no_info
parse_system_info env raw = if is_empty (trim_space raw) then no_info else env.parse_system_info raw

-- `ORDER BY name ASC, id ASC`.
abbrev pub agent_before : Agent → Agent → Bool
agent_before a b = if text_eq a.name b.name then text_leb a.id b.id else text_leb a.name b.name

abbrev pub is_target : Env → List Text → List Text → Agent → Bool
is_target env ids tags a = text_elem a.id ids || has_all_tags (agent_tags env a) tags

-- The loop of `resolveTargets`; `seen` holds the ids that are matched.
unfoldable pub match_agents : Env → List Text → List Text → List Text → List Agent → List Agent
match_agents env ids tags seen [] = []
match_agents env ids tags seen (a ∷ rest) =
    if is_target env ids tags a && not (text_elem a.id seen)
    then a ∷ match_agents env ids tags (a.id ∷ seen) rest
    else match_agents env ids tags seen rest

unfoldable pub resolve_targets : Env → List Text → List Text → M Tables (List Agent)
unfolding match_agents
resolve_targets env ids tags = do
  agents ← statement env.engine λ t. (sort_by agent_before t.agents, t)
  pure (match_agents env ids tags [] agents)

-- The parts of a planned item that do not depend on its case.
abbrev pub planned : Agent → SystemInfo → Text → AgentUpgradeRolloutItem
planned a info target_version = record {
  id = [];
  rollout_id = [];
  agent_id = a.id;
  phase = Phase.unphased;
  batch_index = 0;
  status = ItemStatus.pending;
  current_version = info.version;
  target_version = target_version;
  architecture = info.arch;
  message_id = [];
  error = [];
  skip_reason = [];
  last_seen_version = [];
  started_at = none;
  completed_at = none;
  deadline_at = none;
  created_at = 0;
  updated_at = 0;
}

abbrev pub skipped_item : Text → ℕ → AgentUpgradeRolloutItem → AgentUpgradeRolloutItem
skipped_item reason now x = record x {
  status = ItemStatus.skipped;
  skip_reason = reason;
  completed_at = some now;
}

-- The cases of the `switch`; `runnable` is the default.
pub data Fate : Type 0 where
  offline version_unknown arch_unknown up_to_date runnable : Fate

unfoldable pub fate : Agent → SystemInfo → Text → Fate
fate a info target_version =
    if not (text_eq a.status (codes "online"))
    then offline
    else if is_empty info.version
    then version_unknown
    else if is_empty info.arch
    then arch_unknown
    else if text_eq info.version target_version
    then up_to_date
    else runnable

-- The phase and the batch of a runnable agent, by its place among the runnable ones.
abbrev pub place : ℕ → ℕ → ℕ → AgentUpgradeRolloutItem → AgentUpgradeRolloutItem
place index canary_count batch_size x =
    if ltb index canary_count
    then record x { phase = Phase.canary; batch_index = 0 }
    else record x {
      phase = Phase.batch;
      batch_index = (index - canary_count) / count_or_default batch_size default_batch_size + 1;
    }

-- One item, and the place of the next runnable agent.
unfoldable pub plan_item :
    Fate → ℕ → ℕ → ℕ → ℕ → Text → AgentUpgradeRolloutItem → AgentUpgradeRolloutItem × ℕ
plan_item offline index canary_count batch_size now version x =
    (skipped_item (codes "agent offline") now x, index)
plan_item version_unknown index canary_count batch_size now version x =
    (skipped_item (codes "agent version unknown") now x, index)
plan_item arch_unknown index canary_count batch_size now version x =
    (skipped_item (codes "agent architecture unknown") now x, index)
plan_item up_to_date index canary_count batch_size now version x = (
  record x { status = ItemStatus.success; last_seen_version = version; completed_at = some now },
  index,
)
plan_item runnable index canary_count batch_size now version x =
    (place index canary_count batch_size x, suc index)

-- The loop of `planItems` from the runnable index `index` on.
unfoldable pub plan_from : Env → ℕ → List Agent → Text → ℕ → ℕ → ℕ → List AgentUpgradeRolloutItem
unfolding plan_item fate
plan_from env index [] version canary_count batch_size now = []
plan_from env index (a ∷ rest) version canary_count batch_size now =
    let info = parse_system_info env a.system_info in
    let r =
      plan_item (fate a info version) index canary_count batch_size now info.version
        (planned a info version) in
    r.0 ∷ plan_from env r.1 rest version canary_count batch_size now

unfoldable pub plan_items : Env → List Agent → Text → ℕ → ℕ → ℕ → List AgentUpgradeRolloutItem
unfolding plan_from
plan_items env agents version canary_count batch_size now =
    plan_from env 0 agents version canary_count batch_size now
