-- ===== src/Rollout/Model.antt =====
-- The constants, rows and tables of internal/master/agentrollout/service.go and internal/master/db/
-- models.go, and the statements on one table.
use vault_fleet.Prelude.{
  ℕ, Bool, true, false, ◌&&◌, ◌||◌, Option, List, [], ◌∷◌, ◌++◌, ℤ, ltb, leb, ◌==◌, Text, codes,
  text_eq, is_empty, if◌then◌else◌, update_where, count_where, where_rows, first_where, take,
  trim_space,
}
use vault_fleet.Engine.{Engine, M, pure, ◌>>=◌, attempt, statement}

pub data RolloutStatus : Type 0 where
  pending running succeeded failed cancelled : RolloutStatus

pub data ItemStatus : Type 0 where
  pending running success failed skipped : ItemStatus

pub data Phase : Type 0 where
  unphased canary batch : Phase

abbrev pub default_canary_count : ℕ
default_canary_count = 1

abbrev pub default_batch_size : ℕ
default_batch_size = 5

abbrev pub max_canary_count : ℕ
max_canary_count = 10

abbrev pub max_batch_size : ℕ
max_batch_size = 50

pub record AgentUpgradeRollout : Type 0 where
  pub id : Text
  pub target_version : Text
  pub github_repo : Text
  pub target_tags : Text
  pub target_agent_ids : Text
  pub canary_count : ℕ
  pub batch_size : ℕ
  pub status : RolloutStatus
  pub failure_reason : Text
  pub created_by : List Text  -- the actor's type, id and name
  pub started_at : Option ℕ
  pub completed_at : Option ℕ
  pub created_at : ℕ
  pub updated_at : ℕ

pub record AgentUpgradeRolloutItem : Type 0 where
  pub id : Text
  pub rollout_id : Text
  pub agent_id : Text
  pub phase : Phase
  pub batch_index : ℕ
  pub status : ItemStatus
  pub current_version : Text
  pub target_version : Text
  pub architecture : Text
  pub message_id : Text
  pub error : Text
  pub skip_reason : Text
  pub last_seen_version : Text
  pub started_at : Option ℕ
  pub completed_at : Option ℕ
  pub deadline_at : Option ℕ
  pub created_at : ℕ
  pub updated_at : ℕ

-- The columns of an agent that the service reads.
pub record Agent : Type 0 where
  pub id : Text
  pub name : Text
  pub status : Text
  pub system_info : Text
  pub tags : Text

pub record AuditEvent : Type 0 where
  pub action : Text
  pub target_id : Text
  pub result : Text
  pub message : Text

pub record Tables : Type 0 where
  pub rollouts : List AgentUpgradeRollout
  pub items : List AgentUpgradeRolloutItem
  pub agents : List Agent
  pub audits : List AuditEvent
  pub asked : List Text  -- the agents that were sent an update request

pub record SystemInfo : Type 0 where
  pub version : Text
  pub arch : Text

-- How `SendAndWait` and the wait for its channel end.
pub data Reply : Type 0 where
  send_failed : Text → Reply
  closed : Reply
  invalid : Reply
  answered : Bool → Text → Reply
  context_ended : Reply

-- What the service uses of other code: the engine, `json`, and the hub.
pub record Env : Type 0 where
  pub engine : Engine
  pub encode_list : List Text → Text
  pub parse_tags : Text → Option (List Text)
  pub parse_system_info : Text → SystemInfo
  pub is_online : ℕ → Text → Bool
  pub new_message : ℕ → Text → Text → Option Text  -- the identifier of an update request
  pub ask : ℕ → Text → Text → Reply
  pub item_timeout : ℤ

abbrev pub is_open : RolloutStatus → Bool
is_open pending = true
is_open running = true
is_open _ = false

abbrev pub rollout_terminal : RolloutStatus → Bool
rollout_terminal succeeded = true
rollout_terminal failed = true
rollout_terminal cancelled = true
rollout_terminal _ = false

abbrev pub is_item_pending : ItemStatus → Bool
is_item_pending pending = true
is_item_pending _ = false

abbrev pub is_item_running : ItemStatus → Bool
is_item_running running = true
is_item_running _ = false

abbrev pub is_item_failed : ItemStatus → Bool
is_item_failed failed = true
is_item_failed _ = false

abbrev pub is_item_skipped : ItemStatus → Bool
is_item_skipped skipped = true
is_item_skipped _ = false

-- The list `{pending, running}`.
abbrev pub is_item_active : ItemStatus → Bool
is_item_active s = is_item_pending s || is_item_running s

-- The list `{success, skipped}`.
abbrev pub is_item_settled : ItemStatus → Bool
is_item_settled success = true
is_item_settled skipped = true
is_item_settled _ = false

abbrev pub is_canary : Phase → Bool
is_canary canary = true
is_canary _ = false

abbrev pub is_batch : Phase → Bool
is_batch batch = true
is_batch _ = false

-- `positiveOrDefault` of a count that is not negative.
abbrev pub count_or_default : ℕ → ℕ → ℕ
count_or_default value fallback = if ltb 0 value then value else fallback

-- The conditions `id = ?` and `rollout_id = ?`.
abbrev pub has_id : Text → AgentUpgradeRollout → Bool
has_id i r = text_eq r.id i

abbrev pub of_rollout : Text → AgentUpgradeRolloutItem → Bool
of_rollout i x = text_eq x.rollout_id i

abbrev pub has_item_id : Text → AgentUpgradeRolloutItem → Bool
has_item_id i x = text_eq x.id i

unfoldable pub update_rollouts :
    Engine
    → (AgentUpgradeRollout → Bool)
    → (AgentUpgradeRollout → AgentUpgradeRollout)
    → M Tables (Unit {0})
update_rollouts env p f =
    statement env λ t. (tt, record t { rollouts = update_where p f t.rollouts })

unfoldable pub update_items :
    Engine
    → (AgentUpgradeRolloutItem → Bool)
    → (AgentUpgradeRolloutItem → AgentUpgradeRolloutItem)
    → M Tables (Unit {0})
update_items env p f = statement env λ t. (tt, record t { items = update_where p f t.items })

unfoldable pub count_items : Engine → (AgentUpgradeRolloutItem → Bool) → M Tables ℕ
count_items env p = statement env λ t. (count_where p t.items, t)

unfoldable pub find_items :
    Engine → (AgentUpgradeRolloutItem → Bool) → M Tables (List AgentUpgradeRolloutItem)
find_items env p = statement env λ t. (where_rows p t.items, t)

unfoldable pub first_rollout :
    Engine → (AgentUpgradeRollout → Bool) → M Tables (Option AgentUpgradeRollout)
first_rollout env p = statement env λ t. (first_where p t.rollouts, t)

-- `ORDER BY created_at ASC`, and `ORDER BY batch_index ASC, created_at ASC`.
abbrev pub created_before : AgentUpgradeRolloutItem → AgentUpgradeRolloutItem → Bool
created_before x y = leb x.created_at y.created_at

abbrev pub batch_before : AgentUpgradeRolloutItem → AgentUpgradeRolloutItem → Bool
batch_before x y =
    ltb x.batch_index y.batch_index || (x.batch_index == y.batch_index && created_before x y)

unfoldable pub audit_limit : ℕ
audit_limit = 500

abbrev audit_row : Text → Text → Text → Text → AuditEvent
audit_row action target_id result text = record {
  action = action;
  target_id = target_id;
  result = if is_empty (trim_space result) then codes "success" else result;
  message = take audit_limit text;
}

-- `recordAudit`; an error is dropped.
unfoldable pub record_audit : Env → Text → Text → Text → Text → M Tables (Unit {0})
record_audit env action target_id result text = if is_empty (trim_space action) then pure tt else do
  dropped ← attempt (
      statement env.engine
        λ t. (tt, record t { audits = t.audits ++ audit_row action target_id result text ∷ [] }))
  pure tt
