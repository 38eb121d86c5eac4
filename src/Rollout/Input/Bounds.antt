-- ===== src/Rollout/Input/Bounds.antt =====
-- What a normalized rollout input satisfies (`normalizeCreateInput` of internal/master/agentrollout/
-- service.go).
use vault_fleet.Prelude.{◌≤◌, ◌≡◌, ◌≢◌, ◌⊎◌, [], arith}
use vault_fleet.Engine.{ok}
use vault_fleet.Rollout.Input.{
  CreateInput, NormalInput, check_normal, normalize_with, normalize_create_input,
}

-- A normalized input has between 1 and 10 canaries and between 1 and 50 agents to a batch, a target
-- version, and an agent or a tag that it selects.
pub normalized_bounds :
    (input : CreateInput) (n : NormalInput)
    → normalize_create_input input ≡ ok n
    → (1 ≤ n.canary_count)
      × (n.canary_count ≤ 10)
      × (1 ≤ n.batch_size)
      × (n.batch_size ≤ 50)
      × (n.target_version ≢ [])
      × ((n.target_agent_ids ≢ []) ⊎ (n.target_tags ≢ []))
unfolding normalize_create_input normalize_with check_normal
normalized_bounds input n e = ground arith
