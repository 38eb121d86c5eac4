-- ===== src/Rollout/Advance/Stop.antt =====
-- What happens to the rest of a wave when one of its items cannot be started (`AdvanceRollout` of
-- internal/master/agentrollout/service.go), where every statement succeeds.
use vault_fleet.Prelude.{ℕ, ◌≡◌, true, false, List, [], ◌++◌, Text, count_where}
use vault_fleet.Engine.{Engine, Db, M, Result, ok}
use vault_fleet.Rollout.Model.{AgentUpgradeRolloutItem, Tables, Env, answered}
use vault_fleet.Rollout.Advance.{open_id}

-- A step that succeeds and leaves the rollouts and the requests alone.
abbrev Silent : M Tables (Unit {0}) → Type 0
Silent m =
    (d : Db Tables)
    → ((m d).0 ≡ ok tt)
      × ((m d).1.tables.rollouts ≡ d.tables.rollouts)
      × ((m d).1.tables.asked ≡ d.tables.asked)

-- Every statement and every commit succeeds.
abbrev pub Healthy : Engine → Type 0
Healthy e = (n : ℕ) → e.fails n ≡ false

-- A rollout with this id is no longer open, and no agent has been asked since.
abbrev Stopped : Text → Tables → Result (Unit {0}) × Db Tables → Type 0
Stopped i s r =
    (r.0 ≡ ok tt) × (count_where (open_id i) r.1.tables.rollouts ≡ 0) × (r.1.tables.asked ≡ s.asked)

-- As many rollouts with this id are open as before, and these agents have been asked since.
abbrev Going : Text → List Text → Tables → Result (Unit {0}) × Db Tables → Type 0
Going i agents s r =
    (r.0 ≡ ok tt)
    × (count_where (open_id i) r.1.tables.rollouts ≡ count_where (open_id i) s.rollouts)
    × (r.1.tables.asked ≡ s.asked ++ agents)

-- No rollout with this id is open, and these agents have been asked since.
abbrev Ended : Text → List Text → Tables → Result (Unit {0}) × Db Tables → Type 0
Ended i agents s r =
    (r.0 ≡ ok tt)
    × (count_where (open_id i) r.1.tables.rollouts ≡ 0)
    × (r.1.tables.asked ≡ s.asked ++ agents)

module _ (env : Env) (healthy : Healthy env.engine) where
  -- An agent that is online and accepts the request.
  abbrev pub Accepts : AgentUpgradeRolloutItem → Type 0
  Accepts y =
      ((n : ℕ) → env.is_online n y.agent_id ≡ true)
      × ((n : ℕ) (m : Text) → env.ask n y.agent_id m ≡ answered true [])
