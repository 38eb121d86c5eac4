-- ===== src/TaskManager/Cancel.antt =====
-- Whom `Cancel` of internal/agent/task_manager.go reaches.
use mathlib.Core.Path.{subst}
use vault_fleet.Prelude.{
  count_where-middle, ℕ, ◌≤◌, ◌≡◌, refl, sym, ap, ◌∙◌, inl, inr, Bool, true, false, none, List, [],
  ◌∷◌, ◌++◌, arith, Text, text_eq, text_eq_iff, count_where, first_where, Bool-cases,
}
use vault_fleet.TaskManager.{
  TaskType, RunningTask, TaskManager, take_slot, start, free_slot, finish, cancel_task, cancelled,
  find_key, delete_key,
}
use vault_fleet.TaskManager.System.{
  System, initial, Step, starts, refused, returns, ends, cancels, misses,
}

abbrev pub has_message : Text → RunningTask → Bool
has_message i t = text_eq t.message_id i

-- The steps, where a started task has another message than the tasks that are held.
abbrev pub HasFreshId : {s t : System} → Step s t → Type 0
HasFreshId (starts s i type tm e) = count_where (has_message i) s.held ≡ 0
HasFreshId _ = Unit {0}

pub data FreshReach : System → Type 0 where
  here : FreshReach initial
  next : {s t : System} → FreshReach s → (st : Step s t) → HasFreshId st → FreshReach t

-- The map has exactly the held tasks, by their messages.
record Tracked (tasks : List (Text × RunningTask)) (running : List RunningTask) : Type 0 where
  once : (i : Text) → count_where (has_message i) running ≤ 1
  found : (i : Text) → find_key i tasks ≡ first_where (has_message i) running

find-delete_same : (k : Text) (es : List (Text × RunningTask)) → find_key k (delete_key k es) ≡ none
unfolding find_key delete_key
find-delete_same k [] = refl
find-delete_same k (e ∷ es) = elim (Bool-cases (text_eq e.0 k)) [
  | inl h ↦ rw h (find-delete_same k es)
  | inr h ↦ rw (h, h) (find-delete_same k es)
]

find-delete_other :
    (j k : Text) (es : List (Text × RunningTask))
    → text_eq k j ≡ false
    → find_key j (delete_key k es) ≡ find_key j es
unfolding find_key delete_key
find-delete_other j k [] n = refl
find-delete_other j k (e ∷ es) n =
    ground
      (arith, n, find-delete_other j k es n, text_eq_iff e.0 k, text_eq_iff e.0 j, text_eq_iff k j)

none_first :
    {A : Type 0} (p : A → Bool) (xs : List A) → count_where p xs ≡ 0 → first_where p xs ≡ none
none_first p [] h = refl
none_first p (x ∷ xs) h = ground (arith, h, none_first p xs)

first_where-middle :
    {A : Type 0} (p : A → Bool) (xs : List A) (x : A) (ys : List A)
    → p x ≡ false
    → first_where p (xs ++ x ∷ ys) ≡ first_where p (xs ++ ys)
first_where-middle p [] x ys h = rw h refl
first_where-middle p (z ∷ xs) x ys h = ground (arith, first_where-middle p xs x ys h)

count_where-drop :
    {A : Type 0} (p : A → Bool) (xs : List A) (x : A) (ys : List A)
    → count_where p (xs ++ ys) ≤ count_where p (xs ++ x ∷ ys)
count_where-drop p xs x ys = ground (arith, count_where-middle p xs x ys)

count_where-only :
    {A : Type 0} (p : A → Bool) (xs : List A) (x : A) (ys : List A)
    → p x ≡ true
    → count_where p (xs ++ x ∷ ys) ≤ 1
    → count_where p (xs ++ ys) ≡ 0
count_where-only p xs x ys h le = ground (arith, h, le, count_where-middle p xs x ys)

added_tasks :
    (i : Text) (type : TaskType) (n : ℕ) (tm tm' : TaskManager)
    → start tm i type n ≡ inr tm'
    → tm'.tasks
      ≡ (i, record { message_id = i; task_type = type; cancel = n }) ∷ delete_key i tm.tasks
unfolding start take_slot
added_tasks i TaskType.backup n tm tm' e = ground (arith, e)
added_tasks i TaskType.restore n tm tm' e = ground (arith, e)
added_tasks i TaskType.verify n tm tm' e = ground (arith, e)
added_tasks i (TaskType.other t) n tm tm' e = ground (arith, e)

finish_tasks :
    (tm : TaskManager) (i : Text) (type : TaskType)
    → (finish tm i type).tasks ≡ delete_key i tm.tasks
unfolding finish free_slot
finish_tasks tm i TaskType.backup = refl
finish_tasks tm i TaskType.restore = refl
finish_tasks tm i TaskType.verify = refl
finish_tasks tm i (TaskType.other t) = refl

start-Tracked :
    (tasks : List (Text × RunningTask)) (running : List RunningTask) (t : RunningTask)
    → count_where (has_message t.message_id) running ≡ 0
    → Tracked tasks running
    → Tracked ((t.message_id, t) ∷ delete_key t.message_id tasks) (t ∷ running)
unfolding find_key
start-Tracked tasks running t fresh w = record {
  once = λ i. elim (Bool-cases (text_eq t.message_id i)) [
    | inl e ↦
        let same : count_where (has_message i) running ≡ 0 =
          ap (λ j. count_where (has_message j) running) (sym ((text_eq_iff t.message_id i).0 e))
          ∙ fresh in
        rw e (omega (arith, same))
    | inr e ↦ rw e (w.once i)
  ];
  found = λ i. elim (Bool-cases (text_eq t.message_id i)) [
    | inl e ↦ rw e refl
    | inr e ↦ rw e (find-delete_other i t.message_id tasks e ∙ w.found i)
  ];
}

finish-Tracked :
    (tasks : List (Text × RunningTask)) (before : List RunningTask) (t : RunningTask)
    (after : List RunningTask)
    → Tracked tasks (before ++ t ∷ after)
    → Tracked (delete_key t.message_id tasks) (before ++ after)
finish-Tracked tasks before t after w = record {
  once = λ i. omega (arith, w.once i, count_where-drop (has_message i) before t after);
  found = λ i. elim (Bool-cases (text_eq t.message_id i)) [
    | inl e ↦
        ap (λ j. find_key i (delete_key j tasks)) ((text_eq_iff t.message_id i).0 e)
        ∙ find-delete_same i tasks
        ∙ sym (
            none_first (has_message i) (before ++ after)
              (count_where-only (has_message i) before t after e (w.once i)))
    | inr e ↦
        find-delete_other i t.message_id tasks e
        ∙ w.found i
        ∙ first_where-middle (has_message i) before t after e
  ];
}

Step-Tracked :
    {s t : System} (st : Step s t)
    → HasFreshId st
    → Tracked s.manager.tasks s.held
    → Tracked t.manager.tasks t.held
Step-Tracked (starts s i type tm e) h w =
    subst
      (λ z. Tracked z (record { message_id = i; task_type = type; cancel = s.contexts } ∷ s.held))
      (sym (added_tasks i type s.contexts s.manager tm e))
      (start-Tracked s.manager.tasks s.held _ h w)
Step-Tracked (refused s i type x e) h w = w
Step-Tracked (returns s before t after e x) h w = w
Step-Tracked (ends s before t after e x) h w =
    subst (λ z. Tracked z (before ++ after)) (sym (finish_tasks s.manager t.message_id t.task_type))
      (finish-Tracked s.manager.tasks before t after (subst (Tracked s.manager.tasks) e w))
Step-Tracked (cancels s i n e) h w = w
Step-Tracked (misses s i e) h w = w

FreshReach-Tracked : {s : System} → FreshReach s → Tracked s.manager.tasks s.held
unfolding find_key
FreshReach-Tracked here = record { once = λ i. omega arith; found = λ i. refl }
FreshReach-Tracked (next r st h) = Step-Tracked st h (FreshReach-Tracked r)

-- Where a task is only started with a message that no held task has: `Cancel` reaches the context of
-- the held task with the message, which is every task from its start until its deferred section has
-- run, and returns false exactly when no held task has it.
pub cancel_reaches_running :
    (s : System) (i : Text)
    → FreshReach s
    → cancel_task s.manager i ≡ cancelled (first_where (has_message i) s.held)
unfolding cancel_task
cancel_reaches_running s i r = ap cancelled ((FreshReach-Tracked r).found i)
