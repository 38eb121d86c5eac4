-- ===== src/Rollout/Service.antt =====
-- The methods of the rollout service of internal/master/agentrollout/service.go that write, as
-- calls, and runs of them in any order on one database.
pub mod Finality
use vault_fleet.Prelude.{List, [], ◌∷◌, Text}
use vault_fleet.Engine.{Db}
use vault_fleet.Rollout.Model.{Tables, Env}
use vault_fleet.Rollout.Input.{CreateInput}
use vault_fleet.Rollout.Create.{create_rollout}
use vault_fleet.Rollout.Advance.{advance_rollout}
use vault_fleet.Rollout.Heartbeat.{handle_heartbeat, cancel_rollout, advance_all}

pub data Call : Type 0 where
  creates : CreateInput → Call
  advances : Text → Call
  advances_all : Call
  heartbeats : Text → Text → Call
  cancels : Text → Text → Call

-- The session after one call, whatever it returned.
unfoldable pub step : Env → Call → Db Tables → Db Tables
step env (creates input) d = (create_rollout env input d).1
step env (advances i) d = (advance_rollout env i d).1
step env advances_all d = (advance_all env d).1
step env (heartbeats agent version) d = (handle_heartbeat env agent version d).1
step env (cancels i reason) d = (cancel_rollout env i reason d).1

unfoldable pub run : Env → List Call → Db Tables → Db Tables
run env [] d = d
run env (c ∷ cs) d = run env cs (step env c d)
