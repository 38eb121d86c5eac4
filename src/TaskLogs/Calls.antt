-- ===== src/TaskLogs/Calls.antt =====
-- Runs of the methods of `Buffer` of internal/master/tasklogs/buffer.go, on one buffer.
use vault_fleet.Prelude.{List, [], ◌∷◌, ℤ, Text}
use vault_fleet.Engine.{Db}
use vault_fleet.TaskLogs.Model.{TaskLogPayload, Tables, Env}
use vault_fleet.TaskLogs.Buffer.{add, mark_complete, get, delete_agent}

pub data Call : Type 0 where
  adds : Text → Text → TaskLogPayload → Call
  completes : Text → Text → Call
  gets : Text → Text → ℤ → ℤ → Call
  deletes : Text → Call

unfoldable pub step : Env → Call → Db Tables → Db Tables
step env (adds a m p) d = (add env a m p d).1
step env (completes a m) d = (mark_complete env a m d).1
step env (gets a m after limit) d = (get env a m after limit d).1
step env (deletes a) d = (delete_agent env a d).1

unfoldable pub run : Env → List Call → Db Tables → Db Tables
run env [] d = d
run env (c ∷ cs) d = run env cs (step env c d)
