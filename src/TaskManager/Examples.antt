-- ===== src/TaskManager/Examples.antt =====
-- Runs of the task manager of internal/agent/task_manager.go.
use vault_fleet.Prelude.{
  ◌+◌, ◌≤◌, ◌≡◌, refl, ◌↔◌, inr, true, false, [], ◌∷◌, count_where, first_where,
}
use vault_fleet.TaskManager.{
  TaskType, TaskManager, start, take_slot, cancel_task, cancelled, delete_key,
}
use vault_fleet.TaskManager.System.{
  System, initial, started, task_of, starts, returns, Reach, here, next,
}
use vault_fleet.TaskManager.Slots.{
  is_backup, is_restore, is_verify, Admits, Returns, tasks_exclude, start_accepted_iff,
  slots_come_free,
}
use vault_fleet.TaskManager.Cancel.{has_message, FreshReach, cancel_reaches_running}

abbrev one_backup : TaskManager
one_backup = record {
  tasks = (7 ∷ [], record { message_id = 7 ∷ []; task_type = TaskType.backup; cancel = 0 }) ∷ [];
  backup_slot = true;
  restore_slot = false;
  verify_slot = false;
}

abbrev busy : System
busy = started initial (task_of initial (7 ∷ []) TaskType.backup) one_backup

first_start : start initial.manager (7 ∷ []) TaskType.backup 0 ≡ inr one_backup
unfolding start take_slot delete_key
first_start = refl

backing_up : Reach busy
backing_up = next here (starts initial (7 ∷ []) TaskType.backup one_backup first_start)

tasks_exclude_example :
    (count_where is_backup busy.held + count_where is_verify busy.held ≤ 1)
    × (count_where is_restore busy.held ≤ 1)
tasks_exclude_example = tasks_exclude busy backing_up

-- The backup's function has returned, and its deferred section has not run.
abbrev closing : System
closing = record busy { returned = 0 ∷ [] }

closing_up : Reach closing
closing_up =
    next backing_up (returns busy [] (task_of initial (7 ∷ []) TaskType.backup) [] refl refl)

start_accepted_iff_example :
    ((tm : TaskManager) × (start closing.manager (8 ∷ []) TaskType.verify 1 ≡ inr tm))
    ↔ Admits closing TaskType.verify
start_accepted_iff_example = start_accepted_iff closing (8 ∷ []) TaskType.verify closing_up

slots_come_free_example :
    (u : System) × Returns busy u
    × (u.held ≡ [])
    × (u.manager.backup_slot ≡ false)
    × (u.manager.restore_slot ≡ false)
    × (u.manager.verify_slot ≡ false)
slots_come_free_example = slots_come_free busy backing_up

backing_up_alone : FreshReach busy
backing_up_alone =
    FreshReach.next FreshReach.here (starts initial (7 ∷ []) TaskType.backup one_backup first_start)
      refl

cancel_reaches_running_example :
    cancel_task busy.manager (7 ∷ []) ≡ cancelled (first_where (has_message (7 ∷ [])) busy.held)
cancel_reaches_running_example = cancel_reaches_running busy (7 ∷ []) backing_up_alone
