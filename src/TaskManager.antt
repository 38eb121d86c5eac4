-- ===== src/TaskManager.antt =====
-- The agent's task manager, internal/agent/task_manager.go. The mutex makes each locked section one
-- step; a task's function runs between the section that starts it and the one that ends it.
pub mod System
pub mod Slots
pub mod Cancel
mod Examples
use vault_fleet.Prelude.{
  ◌⊎◌, inl, inr, ℕ, Bool, true, false, ◌||◌, not, Option, none, some, List, [], ◌∷◌, Text, text_eq,
  if◌then◌else◌,
}

-- The constants of a task's type; `other` is any text that is no constant of a slot.
pub data TaskType : Type 0 where
  backup restore verify : TaskType
  other : Text → TaskType

pub data StartError : Type 0 where
  backup_already_running restore_already_running verify_already_running : StartError

-- `cancel` names the context that the task's function was given.
pub record RunningTask : Type 0 where
  pub message_id : Text
  pub task_type : TaskType
  pub cancel : ℕ

pub record TaskManager : Type 0 where
  pub tasks : List (Text × RunningTask)
  pub backup_slot : Bool
  pub restore_slot : Bool
  pub verify_slot : Bool

abbrev pub new_task_manager : TaskManager
new_task_manager = record {
  tasks = [];
  backup_slot = false;
  restore_slot = false;
  verify_slot = false;
}

-- `delete(tm.tasks, messageID)`.
unfoldable pub delete_key : Text → List (Text × RunningTask) → List (Text × RunningTask)
delete_key k [] = []
delete_key k (e ∷ es) = if text_eq e.0 k then delete_key k es else e ∷ delete_key k es

unfoldable pub find_key : Text → List (Text × RunningTask) → Option RunningTask
find_key k [] = none
find_key k (e ∷ es) = if text_eq e.0 k then some e.1 else find_key k es

-- `tm.tasks[messageID] = …`.
abbrev pub set_key : Text → RunningTask → List (Text × RunningTask) → List (Text × RunningTask)
set_key k t es = (k, t) ∷ delete_key k es

-- The slot that `Start` takes, or its error.
unfoldable pub take_slot : TaskManager → TaskType → StartError ⊎ TaskManager
take_slot tm backup =
    if tm.backup_slot || tm.verify_slot
    then inl backup_already_running
    else inr (record tm { backup_slot = true })
take_slot tm restore =
    if tm.restore_slot then inl restore_already_running else inr (record tm { restore_slot = true })
take_slot tm verify =
    if tm.backup_slot || tm.verify_slot
    then inl verify_already_running
    else inr (record tm { verify_slot = true })
take_slot tm (other t) = inr tm

abbrev pub added : Text → TaskType → ℕ → StartError ⊎ TaskManager → StartError ⊎ TaskManager
added message_id task_type cancel (inl e) = inl e
added message_id task_type cancel (inr tm) = inr (record tm {
  tasks =
      set_key message_id
        (record { message_id = message_id; task_type = task_type; cancel = cancel }) tm.tasks;
})

-- The locked section of `Start`; `cancel` is the new context.
unfoldable pub start : TaskManager → Text → TaskType → ℕ → StartError ⊎ TaskManager
unfolding take_slot
start tm message_id task_type cancel = added message_id task_type cancel (take_slot tm task_type)

unfoldable pub free_slot : TaskManager → TaskType → TaskManager
free_slot tm backup = record tm { backup_slot = false }
free_slot tm restore = record tm { restore_slot = false }
free_slot tm verify = record tm { verify_slot = false }
free_slot tm (other t) = tm

-- The deferred section that runs when the task's function has returned.
unfoldable pub finish : TaskManager → Text → TaskType → TaskManager
unfolding free_slot
finish tm message_id task_type =
    free_slot (record tm { tasks = delete_key message_id tm.tasks }) task_type

abbrev pub cancelled : Option RunningTask → Option ℕ
cancelled none = none
cancelled (some t) = some t.cancel

-- `Cancel`: the context that is cancelled, if it returns true.
unfoldable pub cancel_task : TaskManager → Text → Option ℕ
cancel_task tm message_id = cancelled (find_key message_id tm.tasks)
