-- ===== src/Commands/Examples.antt =====
-- Runs of the command service (internal/master/commands/service.go) on small databases.
use vault_fleet.Prelude.{
  Bool, ℕ, ◌≡◌, ◌≢◌, ◌⊎◌, refl, true, false, Option, none, some, List, [], ◌∷◌, ◌++◌, arith, pos,
  Text, if◌then◌else◌, codes, not, ◌&&◌, get_elem?, text_eq, text_elem, count_where, update_where,
  All, ◌+◌, ◌≤◌,
}
use vault_fleet.Engine.{Engine, Result, Db, ok, pure, statement, transaction, commit, attempt, now}
use vault_fleet.Commands.Model.{
  CommandStatus, TaskStatus, TaskHistory, MessageType, TaskType, AgentCommand, Agent, Tables, Env,
  is_terminal, is_long_running, is_task_pending, opened, Delivery, type_eq, is_pending,
  update_commands, update_tasks, first_command,
}
use vault_fleet.Commands.Create.{no_report, no_documents}
use vault_fleet.Commands.Dispatch.{
  record_dispatch_success, record_dispatch_success_for_command, dispatch, dispatch_for_agent,
  live_id,
}
use vault_fleet.Commands.Restore.{restore_needs_capability}
use vault_fleet.Commands.Complete.{
  cancel_command, TaskResult, SnapshotList, complete_task_result_with, complete_snapshot_list_with,
  complete_snapshots, complete_rows, complete_found, apply_result,
}
use vault_fleet.Commands.Timeout.{timeout_command_and_task, expired, timeout_expired}
use vault_fleet.Commands.Service.{
  Callback, called, step, records_success, Call, scans_timeouts, cancels, dispatches_pending, run,
}
use vault_fleet.Commands.Service.Finality.{terminal_commands_final, commands_keep_identity}
use vault_fleet.Commands.Results.{task_result_all_or_nothing, snapshot_list_all_or_nothing}
use vault_fleet.Commands.Results.Replay.{has_message, task_result_once}
use vault_fleet.Commands.Delivery.{sent_once, send_failure_undone}
use vault_fleet.Commands.Scan.{scan_misses_none}
use vault_fleet.Commands.Expiry.{active_id, timeout_all_or_nothing}
use vault_fleet.Commands.Cancel.{active_task_of, CancelledOrSame, cancel_all_or_nothing}
use vault_fleet.Commands.Limit.{SentWithin, dispatch_within_limit}

abbrev steady : Engine
steady = record { fails = λ n. false; clock = λ n. 100 + n; uuid = λ n. n ∷ [] }

-- A hub that answers every send alike.
abbrev env_with : Option Text → Env
env_with refusal = record {
  engine = steady;
  seal = λ m. some m.payload;
  unseal = λ t. opened (record { id = t; type = MessageType.backup_now; payload = t });
  include_paths = λ t. some [];
  capabilities = λ t. some [];
  cancel_payload = λ a m. m;
  is_online = λ n a. true;
  send_error = λ n a m. refusal;
}

abbrev env : Env
env = env_with none

abbrev command : Text → MessageType → CommandStatus → AgentCommand
command i type status = record {
  id = i;
  agent_id = 1 ∷ [];
  type = type;
  status = status;
  message_id = 9 ∷ i;
  payload = 7 ∷ [];
  result = [];
  error_message = [];
  attempts = 0;
  policy_id = [];
  policy_updated_at = none;
  storage_id = [];
  deadline_at = some 50;
  dispatched_at = none;
  completed_at = none;
  created_at = 0;
  updated_at = 0;
}

abbrev done : AgentCommand
done = command (3 ∷ []) MessageType.policy_push CommandStatus.succeeded

abbrev waiting : AgentCommand
waiting = command (4 ∷ []) MessageType.backup_now CommandStatus.pending

abbrev task : TaskHistory
task = record {
  id = 5 ∷ [];
  agent_id = 1 ∷ [];
  type = TaskType.backup;
  status = TaskStatus.pending;
  snapshot_id = [];
  report = no_report;
  documents = no_documents;
  message_id = 9 ∷ 4 ∷ [];
  command_id = 4 ∷ [];
  policy_id = [];
  policy_name = [];
  storage_id = [];
  started_at = none;
  finished_at = none;
  error_log = [];
  created_at = 0;
  updated_at = 0;
}

abbrev db : Db Tables
db = record {
  tables = record { commands = done ∷ waiting ∷ []; tasks = task ∷ []; agents = []; sent = [] };
  tick = 0;
}

abbrev calls : List Call
calls = dispatches_pending (1 ∷ []) (pos 5) ∷ cancels (3 ∷ []) ∷ scans_timeouts ∷ []

terminal_commands_final_example : get_elem? (run env calls db).tables.commands 0 ≡ some done
terminal_commands_final_example = terminal_commands_final env calls db 0 done refl refl

commands_keep_identity_example :
    (c' : AgentCommand) × (get_elem? (run env calls db).tables.commands 1 ≡ some c')
    × (c'.id ≡ waiting.id)
    × (c'.agent_id ≡ waiting.agent_id)
    × (c'.message_id ≡ waiting.message_id)
    × (c'.deadline_at ≡ waiting.deadline_at)
    × (waiting.attempts ≤ c'.attempts)
commands_keep_identity_example = commands_keep_identity env calls db 1 waiting refl

abbrev outcome : TaskStatus → TaskResult
outcome status = record {
  raw = [];
  agent_id = 1 ∷ [];
  task_type = TaskType.backup;
  status = status;
  snapshot_id = 8 ∷ [];
  policy_name = [];
  report = no_report;
  error_log = [];
  started_at = 0;
  finished_at = 0;
  docker = none;
  database = none;
  verification = none;
  artifact_naming = none;
  restore_items = none;
}

task_result_all_or_nothing_example :
    let r =
      complete_task_result_with env
        (1 ∷ [])
        (9 ∷ 4 ∷ [])
        (outcome TaskStatus.success)
        (pure tt)
        db in
    (r.0 ≡ ok true) ⊎ (r.1.tables ≡ db.tables)
task_result_all_or_nothing_example =
    task_result_all_or_nothing env (pure tt) (1 ∷ []) (9 ∷ 4 ∷ []) (outcome TaskStatus.success) db

abbrev listing : SnapshotList
listing = record { raw = []; agent_id = 1 ∷ [] }

-- A database with a command that awaits a list of snapshots.
abbrev listing_db : Db Tables
listing_db = record {
  tables = record db.tables {
    commands =
        command (5 ∷ []) MessageType.snapshot_list_req CommandStatus.dispatched ∷ waiting ∷ [];
  };
  tick = 0;
}

snapshots_counted :
    (complete_snapshot_list_with env (1 ∷ []) (9 ∷ 5 ∷ []) listing (pure tt) listing_db).0 ≡ ok true
unfolding complete_snapshot_list_with complete_snapshots statement transaction commit attempt now
    update_commands first_command text_eq type_eq
snapshots_counted = refl

snapshot_list_all_or_nothing_example :
    let r = complete_snapshot_list_with env (1 ∷ []) (9 ∷ 5 ∷ []) listing (pure tt) listing_db in
    (r.0 ≡ ok true) ⊎ (r.1.tables ≡ listing_db.tables)
snapshot_list_all_or_nothing_example =
    snapshot_list_all_or_nothing env (pure tt) (1 ∷ []) (9 ∷ 5 ∷ []) listing listing_db

-- A callback that runs one statement.
abbrev one_statement : Callback
one_statement n = (ok tt, n + 1)

abbrev result_counted : Result Bool × Db Tables
result_counted =
    complete_task_result_with env (1 ∷ []) (9 ∷ 4 ∷ []) (outcome TaskStatus.success)
      (called one_statement) db

-- The first result completes the command.
first_result_counts : result_counted.0 ≡ ok true
unfolding complete_task_result_with complete_rows complete_found apply_result statement transaction
    commit attempt now update_commands update_tasks first_command text_eq
first_result_counts = refl

abbrev later_calls : List Call
later_calls = cancels (4 ∷ []) ∷ records_success (4 ∷ []) ∷ []

message_unique :
    count_where (has_message (9 ∷ 4 ∷ [])) (run env later_calls result_counted.1).tables.commands
    ≤ 1
unfolding complete_task_result_with complete_rows complete_found apply_result statement transaction
    commit attempt now update_commands update_tasks first_command text_eq run step cancel_command
    record_dispatch_success record_dispatch_success_for_command
message_unique = omega arith

task_result_once_example :
    (complete_task_result_with env
      (1 ∷ [])
      (9 ∷ 4 ∷ [])
      (outcome TaskStatus.failed)
      (called one_statement)
      (run env later_calls result_counted.1)).0
    ≢ ok true
task_result_once_example =
    task_result_once env (1 ∷ []) (1 ∷ []) (9 ∷ 4 ∷ []) (outcome TaskStatus.success)
      (outcome TaskStatus.failed) one_statement later_calls (called one_statement) db
      first_result_counts message_unique

abbrev sent_to_agent : Delivery
sent_to_agent = record {
  agent_id = 1 ∷ [];
  message = record { id = 7 ∷ []; type = MessageType.backup_now; payload = 7 ∷ [] };
}

sent_once_example :
    ((dispatch env waiting db).0 ≡ ok tt)
    × ((dispatch env waiting db).1.tables ≡ record db.tables {
      commands =
          update_where
            (λ r. text_eq r.id (4 ∷ []) && not (is_terminal r.status))
            (λ r. record r {
              attempts = r.attempts + 1;
              dispatched_at = some (env.engine.clock 0);
              error_message = [];
              status =
                  if is_long_running waiting.type
                  then CommandStatus.running
                  else CommandStatus.dispatched;
              updated_at = env.engine.clock 0;
            })
            db.tables.commands;
      tasks =
          if is_long_running waiting.type
          then update_where
              (λ r. text_eq r.command_id (4 ∷ []) && is_task_pending r.status)
              (λ r. record r {
                status = TaskStatus.running;
                started_at = some (env.engine.clock 0);
                updated_at = env.engine.clock 0;
              })
              db.tables.tasks
          else db.tables.tasks;
      sent = db.tables.sent ++ sent_to_agent ∷ [];
    })
unfolding text_eq type_eq
sent_once_example =
    sent_once env waiting sent_to_agent.message db (λ n. refl) refl refl (λ e. ground arith)
      (λ n. refl)

abbrev busy : Env
busy = env_with (some (6 ∷ []))

send_failure_undone_example :
    (t : ℕ) × ((dispatch busy waiting db).0 ≡ ok tt)
    × ((dispatch busy waiting db).1.tables.commands
        ≡ update_where
            (live_id (4 ∷ []))
            (λ r. record r {
              attempts = r.attempts + 1;
              dispatched_at = none;
              error_message = 6 ∷ [];
              status = CommandStatus.pending;
              updated_at = t;
            })
            db.tables.commands)
    × ((dispatch busy waiting db).1.tables.sent ≡ [])
unfolding text_eq type_eq
send_failure_undone_example =
    send_failure_undone busy waiting sent_to_agent.message db (λ n. refl) refl refl
      (λ e. ground arith) (6 ∷ []) (λ n. refl)

scan_misses_none_example :
    All (λ x. expired 100 x ≡ false) (timeout_expired env db).1.tables.commands
scan_misses_none_example = scan_misses_none env (λ n. refl) db

dispatch_within_limit_example :
    SentWithin (1 ∷ []) 5 db.tables (dispatch_for_agent env (1 ∷ []) (pos 5) is_pending db).1.tables
dispatch_within_limit_example = dispatch_within_limit env (1 ∷ []) (pos 5) is_pending db

-- An agent that can restore whole snapshots only.
abbrev plain_agent : Agent
plain_agent = record { id = 1 ∷ []; system_info = [] }

abbrev selecting : Env
selecting = record env {
  unseal = λ t. opened (record { id = t; type = MessageType.restore_req; payload = t });
  include_paths = λ t. some ((47 ∷ []) ∷ []);
}

abbrev restoring : AgentCommand
restoring = command (6 ∷ []) MessageType.restore_req CommandStatus.pending

abbrev restore_db : Db Tables
restore_db = record {
  tables = record {
    commands = restoring ∷ waiting ∷ [];
    tasks = [];
    agents = plain_agent ∷ [];
    sent = [];
  };
  tick = 0;
}

restore_needs_capability_example :
    (t : ℕ) × ((dispatch selecting restoring restore_db).0 ≡ ok tt)
    × ((dispatch selecting restoring restore_db).1.tables.commands
        ≡ update_where
            (λ r. text_eq r.id (6 ∷ []) && not (is_terminal r.status))
            (λ r. record r {
              status = CommandStatus.failed;
              error_message = codes "agent does not support selective restore";
              completed_at = some t;
              updated_at = t;
            })
            restore_db.tables.commands)
    × ((dispatch selecting restoring restore_db).1.tables.sent ≡ [])
unfolding text_eq text_elem
restore_needs_capability_example =
    restore_needs_capability selecting restoring
      (record { id = 7 ∷ []; type = MessageType.restore_req; payload = 7 ∷ [] }) plain_agent
      (47 ∷ []) [] [] restore_db (λ n. refl) refl refl refl refl refl refl refl refl

cancel_all_or_nothing_example : CancelledOrSame (4 ∷ []) db.tables (cancel_command env (4 ∷ []) db)
cancel_all_or_nothing_example = cancel_all_or_nothing env (4 ∷ []) db

timeout_all_or_nothing_example :
    let r = timeout_command_and_task env waiting 100 db in
    ((r.0 ≡ ok (count_where (active_id (4 ∷ [])) db.tables.commands))
      × (count_where (active_id (4 ∷ [])) r.1.tables.commands ≡ 0)
      × (count_where (active_task_of (4 ∷ [])) r.1.tables.tasks ≡ 0))
    ⊎ (r.1.tables ≡ db.tables)
timeout_all_or_nothing_example = timeout_all_or_nothing env waiting 100 db
