-- ===== src/TaskManager/Slots.antt =====
-- The slots of internal/agent/task_manager.go: which tasks run together.
use mathlib.Core.Path.{subst}
use vault_fleet.Prelude.{
  Bool-cases, inl, count_where-middle, ℕ, suc, ◌+◌, ◌≤◌, ◌≡◌, refl, ap, ◌↔◌, inr, Bool, true, false,
  ◌||◌, List, [], ◌∷◌, ◌++◌, arith, Text, count_where, if◌then◌else◌,
}
use vault_fleet.TaskManager.{
  added, TaskType, RunningTask, TaskManager, take_slot, start, free_slot, finish,
}
use vault_fleet.TaskManager.System.{
  System, Step, starts, refused, returns, ends, cancels, misses, Reach, here, next, ended, is_among,
  has_returned,
}

abbrev pub is_backup : RunningTask → Bool
is_backup t = elim t.task_type [ TaskType.backup ↦ true | _ ↦ false ]

abbrev pub is_restore : RunningTask → Bool
is_restore t = elim t.task_type [ TaskType.restore ↦ true | _ ↦ false ]

abbrev pub is_verify : RunningTask → Bool
is_verify t = elim t.task_type [ TaskType.verify ↦ true | _ ↦ false ]

abbrev bit : Bool → ℕ
bit true = 1
bit false = 0

-- Each slot is taken exactly while a task of its type is held, and backups and checks exclude each
-- other.
pub record Slots (tm : TaskManager) (running : List RunningTask) : Type 0 where
  pub backups : count_where is_backup running ≡ bit tm.backup_slot
  pub restores : count_where is_restore running ≡ bit tm.restore_slot
  pub verifies : count_where is_verify running ≡ bit tm.verify_slot
  pub apart : bit tm.backup_slot + bit tm.verify_slot ≤ 1

-- What a start does to the slots.
abbrev Taken : TaskType → TaskManager → TaskManager → Type 0
Taken type tm tm' =
    (tm'.backup_slot ≡ (tm.backup_slot || elim type [ TaskType.backup ↦ true | _ ↦ false ]))
    × (tm'.restore_slot ≡ (tm.restore_slot || elim type [ TaskType.restore ↦ true | _ ↦ false ]))
    × (tm'.verify_slot ≡ (tm.verify_slot || elim type [ TaskType.verify ↦ true | _ ↦ false ]))

start_slots :
    (tm tm' : TaskManager) (i : Text) (type : TaskType) (n : ℕ)
    → start tm i type n ≡ inr tm'
    → Taken type tm tm'
unfolding start take_slot
start_slots tm tm' i TaskType.backup n e = ground (arith, e)
start_slots tm tm' i TaskType.restore n e = ground (arith, e)
start_slots tm tm' i TaskType.verify n e = ground (arith, e)
start_slots tm tm' i (TaskType.other t) n e = ground (arith, e)

-- The slots that a start finds free.
abbrev Free : TaskType → TaskManager → Type 0
Free TaskType.backup tm = (tm.backup_slot ≡ false) × (tm.verify_slot ≡ false)
Free TaskType.restore tm = tm.restore_slot ≡ false
Free TaskType.verify tm = (tm.backup_slot ≡ false) × (tm.verify_slot ≡ false)
Free (TaskType.other t) tm = Unit {0}

start-Free :
    (tm tm' : TaskManager) (i : Text) (type : TaskType) (n : ℕ)
    → start tm i type n ≡ inr tm'
    → Free type tm
unfolding start take_slot
start-Free tm tm' i TaskType.backup n e = ground (arith, e)
start-Free tm tm' i TaskType.restore n e = ground (arith, e)
start-Free tm tm' i TaskType.verify n e = ground (arith, e)
start-Free tm tm' i (TaskType.other t) n e = tt

start-Slots :
    (tm tm' : TaskManager) (running : List RunningTask) (i : Text) (type : TaskType) (n : ℕ)
    → start tm i type n ≡ inr tm'
    → Slots tm running
    → Slots tm' (record { message_id = i; task_type = type; cancel = n } ∷ running)
start-Slots tm tm' running i TaskType.backup n e w =
    let s = start_slots tm tm' i TaskType.backup n e in
    let f = start-Free tm tm' i TaskType.backup n e in
    record {
      backups = ground (arith, s.0, f.0, w.backups);
      restores = ground (arith, s.1, w.restores);
      verifies = ground (arith, s.2, w.verifies);
      apart = ground (arith, s.0, s.2, f.1, f.0);
    }
start-Slots tm tm' running i TaskType.restore n e w =
    let s = start_slots tm tm' i TaskType.restore n e in
    let f = start-Free tm tm' i TaskType.restore n e in
    record {
      backups = ground (arith, s.0, w.backups);
      restores = ground (arith, s.1, f, w.restores);
      verifies = ground (arith, s.2, w.verifies);
      apart = ground (arith, s.0, s.2, w.apart);
    }
start-Slots tm tm' running i TaskType.verify n e w =
    let s = start_slots tm tm' i TaskType.verify n e in
    let f = start-Free tm tm' i TaskType.verify n e in
    record {
      backups = ground (arith, s.0, w.backups);
      restores = ground (arith, s.1, w.restores);
      verifies = ground (arith, s.2, f.1, w.verifies);
      apart = ground (arith, s.0, s.2, f.0, f.1);
    }
start-Slots tm tm' running i (TaskType.other t) n e w =
    let s = start_slots tm tm' i (TaskType.other t) n e in
    record {
      backups = ground (arith, s.0, w.backups);
      restores = ground (arith, s.1, w.restores);
      verifies = ground (arith, s.2, w.verifies);
      apart = ground (arith, s.0, s.2, w.apart);
    }

-- What one task adds to the tasks of each type.
middle_counts :
    (before after : List RunningTask) (t : RunningTask)
    → (count_where is_backup (before ++ t ∷ after) ≡ (
        if is_backup t
        then suc (count_where is_backup (before ++ after))
        else count_where is_backup (before ++ after)))
      × (count_where is_restore (before ++ t ∷ after) ≡ (
          if is_restore t
          then suc (count_where is_restore (before ++ after))
          else count_where is_restore (before ++ after)))
      × (count_where is_verify (before ++ t ∷ after) ≡ (
          if is_verify t
          then suc (count_where is_verify (before ++ after))
          else count_where is_verify (before ++ after)))
middle_counts before after t = (
  count_where-middle is_backup before t after,
  count_where-middle is_restore before t after,
  count_where-middle is_verify before t after,
)

-- The end of a task frees its slot: the task was the only one of its type.
finish-Slots :
    (tm : TaskManager) (before after : List RunningTask) (i : Text) (type : TaskType) (n : ℕ)
    → Slots tm (before ++ record { message_id = i; task_type = type; cancel = n } ∷ after)
    → Slots (finish tm i type) (before ++ after)
unfolding finish free_slot
finish-Slots tm before after i TaskType.backup n w =
    let m =
      middle_counts before after
        (record { message_id = i; task_type = TaskType.backup; cancel = n }) in
    record {
      backups = ground (arith, w.backups, m.0);
      restores = ground (arith, w.restores, m.1);
      verifies = ground (arith, w.verifies, m.2);
      apart = ground (arith, w.apart);
    }
finish-Slots tm before after i TaskType.restore n w =
    let m =
      middle_counts before after
        (record { message_id = i; task_type = TaskType.restore; cancel = n }) in
    record {
      backups = ground (arith, w.backups, m.0);
      restores = ground (arith, w.restores, m.1);
      verifies = ground (arith, w.verifies, m.2);
      apart = ground (arith, w.apart);
    }
finish-Slots tm before after i TaskType.verify n w =
    let m =
      middle_counts before after
        (record { message_id = i; task_type = TaskType.verify; cancel = n }) in
    record {
      backups = ground (arith, w.backups, m.0);
      restores = ground (arith, w.restores, m.1);
      verifies = ground (arith, w.verifies, m.2);
      apart = ground (arith, w.apart);
    }
finish-Slots tm before after i (TaskType.other t) n w =
    let m =
      middle_counts before after
        (record { message_id = i; task_type = TaskType.other t; cancel = n }) in
    record {
      backups = ground (arith, w.backups, m.0);
      restores = ground (arith, w.restores, m.1);
      verifies = ground (arith, w.verifies, m.2);
      apart = ground (arith, w.apart);
    }

Step-Slots : {s t : System} → Step s t → Slots s.manager s.held → Slots t.manager t.held
Step-Slots (starts s i type tm e) w = start-Slots s.manager tm s.held i type s.contexts e w
Step-Slots (refused s i type x e) w = w
Step-Slots (returns s before t after e h) w = w
Step-Slots (ends s before t after e h) w =
    finish-Slots s.manager before after t.message_id t.task_type t.cancel
      (subst (Slots s.manager) e w)
Step-Slots (cancels s i n e) w = w
Step-Slots (misses s i e) w = w

Reach-Slots : {s : System} → Reach s → Slots s.manager s.held
Reach-Slots here = record { backups = refl; restores = refl; verifies = refl; apart = omega arith }
Reach-Slots (next r st) = Step-Slots st (Reach-Slots r)

-- Whatever starts, returns, ends and cancels there have been, at most one backup or check of a backup
-- is held, and at most one restore: from the start of a task until its deferred section has run,
-- which is all the time that its function runs and after it.
pub tasks_exclude :
    (s : System)
    → Reach s
    → (count_where is_backup s.held + count_where is_verify s.held ≤ 1)
      × (count_where is_restore s.held ≤ 1)
tasks_exclude s r =
    let w = Reach-Slots r in
    (omega (arith, w.backups, w.verifies, w.apart), ground (arith, w.restores))

-- A task of this type may join the tasks that are held: no backup and no check beside a backup or a
-- check, and no restore beside a restore.
abbrev pub Admits : System → TaskType → Type 0
Admits s TaskType.backup = count_where is_backup s.held + count_where is_verify s.held ≡ 0
Admits s TaskType.restore = count_where is_restore s.held ≡ 0
Admits s TaskType.verify = count_where is_backup s.held + count_where is_verify s.held ≡ 0
Admits s (TaskType.other t) = Unit {0}

admits-Free :
    (s : System) (type : TaskType) → Slots s.manager s.held → Admits s type ↔ Free type s.manager
admits-Free s TaskType.backup w = (
  λ h. (ground (arith, h, w.backups), ground (arith, h, w.verifies)),
  λ f. ground (arith, f.0, f.1, w.backups, w.verifies),
)
admits-Free s TaskType.restore w =
    (λ h. ground (arith, h, w.restores), λ f. ground (arith, f, w.restores))
admits-Free s TaskType.verify w = (
  λ h. (ground (arith, h, w.backups), ground (arith, h, w.verifies)),
  λ f. ground (arith, f.0, f.1, w.backups, w.verifies),
)
admits-Free s (TaskType.other t) w = ((λ h. tt), λ f. tt)

take-Free :
    (tm : TaskManager) (type : TaskType)
    → Free type tm
    → (tm' : TaskManager) × (take_slot tm type ≡ inr tm')
unfolding take_slot
take-Free tm TaskType.backup f = (record tm { backup_slot = true }, rw (f.0, f.1) refl)
take-Free tm TaskType.restore f = (record tm { restore_slot = true }, rw f refl)
take-Free tm TaskType.verify f = (record tm { verify_slot = true }, rw (f.0, f.1) refl)
take-Free tm (TaskType.other t) f = (tm, refl)

-- In every reachable state, `Start` accepts a task exactly when it may join the tasks that are held,
-- those whose function has returned and whose deferred section has not run included.
pub start_accepted_iff :
    (s : System) (i : Text) (type : TaskType)
    → Reach s
    → ((tm : TaskManager) × (start s.manager i type s.contexts ≡ inr tm)) ↔ Admits s type
unfolding start
start_accepted_iff s i type r =
    let w = Reach-Slots r in
    (
      (λ p. (admits-Free s type w).1 (start-Free s.manager p.0 i type s.contexts p.1)),
      λ h.
          let t = take-Free s.manager type ((admits-Free s type w).0 h) in
          (_, ap (added i type s.contexts) t.1),
    )

-- A path on which functions of held tasks return, their deferred sections run, and nothing else
-- happens.
pub data Returns (s : System) : System → Type 0 where
  none_returned : Returns s s
  one_returned :
      {t : System} (before : List RunningTask) (x : RunningTask) (after : List RunningTask)
      → Returns s t
      → t.held ≡ before ++ x ∷ after
      → has_returned t x ≡ false
      → Returns s (record t { returned = x.cancel ∷ t.returned })
  one_ended :
      {t : System} (before : List RunningTask) (x : RunningTask) (after : List RunningTask)
      → Returns s t
      → t.held ≡ before ++ x ∷ after
      → has_returned t x ≡ true
      → Returns s (ended t before x after)

Returns-Reach : {s t : System} → Reach s → Returns s t → Reach t
Returns-Reach r none_returned = r
Returns-Reach r (one_returned {t} before x after p e h) =
    next (Returns-Reach r p) (returns t before x after e h)
Returns-Reach r (one_ended {t} before x after p e h) =
    next (Returns-Reach r p) (ends t before x after e h)

now_returned : (s : System) (x : RunningTask) → is_among x.cancel (x.cancel ∷ s.returned) ≡ true
now_returned s x = ground arith

return_rest :
    (s t : System) (xs : List RunningTask)
    → Returns s t
    → t.held ≡ xs
    → (u : System) × Returns s u × (u.held ≡ [])
return_rest s t [] p e = (t, p, e)
return_rest s t (x ∷ xs) p e = elim (Bool-cases (has_returned t x)) [
  | inl h ↦ return_rest s (ended t [] x xs) xs (one_ended [] x xs p e h) refl
  | inr h ↦
      return_rest s (ended (record t { returned = x.cancel ∷ t.returned }) [] x xs) xs
        (one_ended [] x xs (one_returned [] x xs p e h) e (now_returned t x)) refl
]

-- No slot is lost: from every reachable state, the returns of the functions and the sections deferred
-- to them lead to a state in which no task is held and every slot is free.
pub slots_come_free :
    (s : System)
    → Reach s
    → (u : System) × Returns s u
      × (u.held ≡ [])
      × (u.manager.backup_slot ≡ false)
      × (u.manager.restore_slot ≡ false)
      × (u.manager.verify_slot ≡ false)
slots_come_free s r =
    let (u, p, e) = return_rest s s s.held none_returned refl in
    let w = subst (Slots u.manager) e (Reach-Slots (Returns-Reach r p)) in
    (u, p, e, ground (arith, w.backups), ground (arith, w.restores), ground (arith, w.verifies))
