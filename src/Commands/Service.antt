-- ===== src/Commands/Service.antt =====
-- The methods of the command service of internal/master/commands/service.go as calls, and runs of
-- them in any order on one database.
pub mod Finality
use vault_fleet.Prelude.{ℕ, Bool, List, [], ◌∷◌, ℤ, Text}
use vault_fleet.Engine.{Db, M, Result}
use vault_fleet.Commands.Model.{MessageType, Tables, Env}
use vault_fleet.Commands.Create.{CreateCommandInput, create_command}
use vault_fleet.Commands.Dispatch.{
  dispatch_pending_for_agent, dispatch_new_pending_for_agent, record_dispatch_success,
  record_dispatch_failure,
}
use vault_fleet.Commands.Complete.{
  TaskResult, SnapshotList, complete_policy_ack, complete_task_result, complete_snapshot_list,
  complete_task_result_with, complete_snapshot_list_with, fail_command, fail_command_of_type,
  timeout_command, cancel_command,
}
use vault_fleet.Commands.Timeout.{timeout_expired}

-- The callback of `CompleteTaskResultWith` or `CompleteSnapshotListWith` as internal/master/api passes
-- it: it writes the table of snapshots, which is not in the model, and succeeds or fails. From the
-- count of statements it makes its outcome and the next count.
abbrev pub Callback : Type 0
Callback = ℕ → Result (Unit {0}) × ℕ

abbrev pub called : Callback → M Tables (Unit {0})
called f d = ((f d.tick).0, record d { tick = (f d.tick).1 })

pub data Call : Type 0 where
  creates : CreateCommandInput → Call
  dispatches_pending dispatches_new : Text → ℤ → Call
  acknowledges : Text → Text → Bool → Text → Call
  reports_task : Text → Text → TaskResult → Call
  reports_task_with : Text → Text → TaskResult → Callback → Call
  reports_snapshots : Text → Text → SnapshotList → Call
  reports_snapshots_with : Text → Text → SnapshotList → Callback → Call
  fails_command : Text → Text → Text → Call
  fails_of_type : Text → Text → MessageType → Text → Call
  times_out : Text → Text → Call
  cancels : Text → Call
  scans_timeouts : Call
  records_success : Text → Call
  records_failure : Text → Text → Call

-- The session after one call, whatever it returned.
unfoldable pub step : Env → Call → Db Tables → Db Tables
step env (creates input) d = (create_command env input d).1
step env (dispatches_pending agent limit) d = (dispatch_pending_for_agent env agent limit d).1
step env (dispatches_new agent limit) d = (dispatch_new_pending_for_agent env agent limit d).1
step env (acknowledges agent m success text) d = (complete_policy_ack env agent m success text d).1
step env (reports_task agent m result) d = (complete_task_result env agent m result d).1
step env (reports_snapshots agent m result) d = (complete_snapshot_list env agent m result d).1
step env (reports_task_with agent m result f) d =
    (complete_task_result_with env agent m result (called f) d).1
step env (reports_snapshots_with agent m result f) d =
    (complete_snapshot_list_with env agent m result (called f) d).1
step env (fails_command agent m text) d = (fail_command env agent m text d).1
step env (fails_of_type agent m type text) d = (fail_command_of_type env agent m type text d).1
step env (times_out agent m) d = (timeout_command env agent m d).1
step env (cancels i) d = (cancel_command env i d).1
step env scans_timeouts d = (timeout_expired env d).1
step env (records_success i) d = (record_dispatch_success env i d).1
step env (records_failure i text) d = (record_dispatch_failure env i text d).1

unfoldable pub run : Env → List Call → Db Tables → Db Tables
run env [] d = d
run env (c ∷ cs) d = run env cs (step env c d)
