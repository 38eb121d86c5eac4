-- ===== src/TaskManager/System.antt =====
-- The tasks of an agent over time: which functions run, and which contexts are cancelled (internal/
-- agent/task_manager.go).
use vault_fleet.Prelude.{
  ℕ, suc, Bool, true, false, ◌||◌, ◌==◌, ◌≡◌, inl, inr, none, some, List, [], ◌∷◌, ◌++◌, Text,
}
use vault_fleet.TaskManager.{
  TaskType, StartError, RunningTask, TaskManager, new_task_manager, start, finish, cancel_task,
}

-- `held` has the tasks between their start and the locked section that `Start` defers, `returned` the
-- contexts of the functions that have returned; `contexts` counts the contexts made.
pub record System : Type 0 where
  pub manager : TaskManager
  pub held : List RunningTask
  pub returned : List ℕ
  pub cancelled : List ℕ
  pub contexts : ℕ

abbrev pub initial : System
initial = record {
  manager = new_task_manager;
  held = [];
  returned = [];
  cancelled = [];
  contexts = 0;
}

abbrev pub task_of : System → Text → TaskType → RunningTask
task_of s message_id task_type = record {
  message_id = message_id;
  task_type = task_type;
  cancel = s.contexts;
}

abbrev pub started : System → RunningTask → TaskManager → System
started s t tm = record s { manager = tm; held = t ∷ s.held; contexts = suc s.contexts }

abbrev pub ended : System → List RunningTask → RunningTask → List RunningTask → System
ended s before t after = record s {
  manager = finish s.manager t.message_id t.task_type;
  held = before ++ after;
}

abbrev pub is_among : ℕ → List ℕ → Bool
is_among n [] = false
is_among n (k ∷ ks) = k == n || is_among n ks

abbrev pub has_returned : System → RunningTask → Bool
has_returned s t = is_among t.cancel s.returned

-- Any caller starts or cancels a task; the function of any task returns, and some time later the
-- locked section runs that `Start` defers to the end of the function.
pub data Step : System → System → Type 0 where
  starts :
      (s : System) (message_id : Text) (task_type : TaskType) (tm : TaskManager)
      → start s.manager message_id task_type s.contexts ≡ inr tm
      → Step s (started s (task_of s message_id task_type) tm)
  refused :
      (s : System) (message_id : Text) (task_type : TaskType) (e : StartError)
      → start s.manager message_id task_type s.contexts ≡ inl e
      → Step s s
  returns :
      (s : System) (before : List RunningTask) (t : RunningTask) (after : List RunningTask)
      → s.held ≡ before ++ t ∷ after
      → has_returned s t ≡ false
      → Step s (record s { returned = t.cancel ∷ s.returned })
  ends :
      (s : System) (before : List RunningTask) (t : RunningTask) (after : List RunningTask)
      → s.held ≡ before ++ t ∷ after
      → has_returned s t ≡ true
      → Step s (ended s before t after)
  cancels :
      (s : System) (message_id : Text) (n : ℕ)
      → cancel_task s.manager message_id ≡ some n
      → Step s (record s { cancelled = n ∷ s.cancelled })
  misses : (s : System) (message_id : Text) → cancel_task s.manager message_id ≡ none → Step s s

pub data Reach : System → Type 0 where
  here : Reach initial
  next : {s t : System} → Reach s → Step s t → Reach t
