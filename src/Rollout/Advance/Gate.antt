-- ===== src/Rollout/Advance/Gate.antt =====
-- A rollout whose items are under way or have failed is not moved on (`AdvanceRollout` of internal/
-- master/agentrollout/service.go).
use vault_fleet.Prelude.{
  ℕ, zero, suc, ◌+◌, ◌≤◌, ◌≡◌, ◌≢◌, refl, ◌∙◌, Bool, true, false, ◌&&◌, ◌||◌, inl, inr, Option,
  none, some, List, [], ◌∷◌, arith, Text, count_where, update_where, Bool-cases, is_empty,
  if◌then◌else◌,
}
use vault_fleet.Engine.{Db, M, Result, ok, err, next, ◌>>=◌, now, statement}
use vault_fleet.Engine.Keeps.{
  Keeps, Keeps-pure, Keeps-fail, Keeps-bind, Keeps-if, Keeps-attempt, Keeps-now, Keeps-statement,
  Keeps-transaction, Keeps-for_each,
}
use vault_fleet.Rollout.Model.{
  AgentUpgradeRollout, AgentUpgradeRolloutItem, Tables, Env, of_rollout, is_item_running,
  is_item_failed, update_rollouts, update_items, count_items, find_items, first_rollout,
  record_audit, rollout_terminal,
}
use vault_fleet.Rollout.Advance.{
  running_of, failed_of, record_found, record_skipped_items, fail_rows, fail_rollout, fail_item,
  mark_rollout_running, expire_timed_out_items, advance_quiet, advance_unfailed, advance_found,
  advance_rollout,
}

-- An item of this rollout that is running or has failed.
abbrev pub held_by : Text → AgentUpgradeRolloutItem → Bool
held_by i x = of_rollout i x && (is_item_running x.status || is_item_failed x.status)

held_one :
    (o r f : Bool) (m n k : ℕ)
    → (r ≡ true → f ≡ false)
    → m ≡ n + k
    → (if o && (r || f) then suc m else m)
      ≡ (if o && r then suc n else n) + (if o && f then suc k else k)
held_one o r f m n k h e = ground arith

running_not_failed :
    (x : AgentUpgradeRolloutItem)
    → is_item_running x.status ≡ true
    → is_item_failed x.status ≡ false
running_not_failed x h = ground arith

held_counts :
    (i : Text) (xs : List AgentUpgradeRolloutItem)
    → count_where (held_by i) xs ≡ count_where (running_of i) xs + count_where (failed_of i) xs
held_counts i [] = refl
held_counts i (x ∷ xs) =
    held_one (of_rollout i x) (is_item_running x.status) (is_item_failed x.status) _ _ _
      (running_not_failed x) (held_counts i xs)

count-update_where-le :
    {A : Type 0} (q p : A → Bool) (f : A → A)
    → ((x : A) → p x ≡ true → q x ≡ true → q (f x) ≡ true)
    → (xs : List A) → count_where q xs ≤ count_where q (update_where p f xs)
count-update_where-le q p f h [] = omega arith
count-update_where-le q p f h (x ∷ xs) =
    let ih = count-update_where-le q p f h xs in
    elim (Bool-cases (p x)) [
      | inl e ↦ elim (Bool-cases (q x)) [
        | inl e' ↦ rw (e, e', h x e e') (omega (arith, ih))
        | inr e' ↦ rw (e, e') (ground (arith, ih))
      ]
      | inr e ↦ rw e (ground (arith, ih))
    ]

module _ (i : Text) where
  -- No agent is asked, and no item that holds the rollout back is let go.
  pub record Quiet (s t : Tables) : Type 0 where
    pub asked : t.asked ≡ s.asked
    pub held : count_where (held_by i) s.items ≤ count_where (held_by i) t.items

  Quiet-refl : (s : Tables) → Quiet s s
  Quiet-refl s = record { asked = refl; held = omega arith }

  Quiet-trans : (s t u : Tables) → Quiet s t → Quiet t u → Quiet s u
  Quiet-trans s t u p q = record { asked = q.asked ∙ p.asked; held = omega (arith, p.held, q.held) }

  bind :
      {A B : Type 0} (m : M Tables A) (f : A → M Tables B)
      → Keeps Quiet m
      → ((a : A) → Keeps Quiet (f a))
      → Keeps Quiet (m >>= f)
  bind = Keeps-bind Quiet Quiet-refl Quiet-trans

  module _ (env : Env) where
    read_only : {A : Type 0} (f : Tables → A) → Keeps Quiet (statement env.engine λ s. (f s, s))
    read_only f = Keeps-statement Quiet Quiet-refl Quiet-trans env.engine (λ s. (f s, s)) Quiet-refl

    clocked : Keeps Quiet (now env.engine)
    clocked = Keeps-now Quiet Quiet-refl Quiet-trans env.engine

    update_rollouts-Quiet :
        (p : AgentUpgradeRollout → Bool) (f : AgentUpgradeRollout → AgentUpgradeRollout)
        → Keeps Quiet (update_rollouts env.engine p f)
    unfolding update_rollouts
    update_rollouts-Quiet p f =
        Keeps-statement Quiet Quiet-refl Quiet-trans env.engine _
          λ s. record { asked = refl; held = (Quiet-refl s).held }

    update_items-Quiet :
        (p : AgentUpgradeRolloutItem → Bool) (f : AgentUpgradeRolloutItem → AgentUpgradeRolloutItem)
        → ((x : AgentUpgradeRolloutItem) → p x ≡ true → held_by i x ≡ true → held_by i (f x) ≡ true)
        → Keeps Quiet (update_items env.engine p f)
    unfolding update_items
    update_items-Quiet p f h =
        Keeps-statement Quiet Quiet-refl Quiet-trans env.engine _
          λ s. record { asked = refl; held = count-update_where-le (held_by i) p f h s.items }

    record_audit-Quiet : (a t r m : Text) → Keeps Quiet (record_audit env a t r m)
    unfolding record_audit
    record_audit-Quiet a t r m =
        Keeps-if Quiet Quiet-refl Quiet-trans _ _ _ (Keeps-pure Quiet Quiet-refl Quiet-trans _) (
          bind _ _
            (Keeps-attempt Quiet Quiet-refl Quiet-trans _ (
              Keeps-statement Quiet Quiet-refl Quiet-trans env.engine _
                λ s. record { asked = refl; held = (Quiet-refl s).held }))
            λ u. Keeps-pure Quiet Quiet-refl Quiet-trans _)

    record_found-Quiet :
        (text : Text) (r : Result (List AgentUpgradeRolloutItem))
        → Keeps Quiet (record_found env text r)
    unfolding record_found
    record_found-Quiet text (err e) = Keeps-pure Quiet Quiet-refl Quiet-trans _
    record_found-Quiet text (ok xs) =
        Keeps-for_each Quiet Quiet-refl Quiet-trans _ xs λ x. record_audit-Quiet _ _ _ _

    record_skipped_items-Quiet : (j text : Text) → Keeps Quiet (record_skipped_items env j text)
    unfolding record_skipped_items find_items
    record_skipped_items-Quiet j text =
        bind _ _ (Keeps-attempt Quiet Quiet-refl Quiet-trans _ (read_only _))
          λ r. record_found-Quiet text r

    fail_rows-Quiet : (j reason : Text) (t : ℕ) → Keeps Quiet (fail_rows env j reason t)
    unfolding fail_rows
    fail_rows-Quiet j reason t =
        bind _ _ (update_rollouts-Quiet _ _) λ u. update_items-Quiet _ _ λ x e h. ground arith

    fail_rollout-Quiet : (j text : Text) → Keeps Quiet (fail_rollout env j text)
    unfolding fail_rollout
    fail_rollout-Quiet j text = bind _ _ clocked λ t.
        bind _ _
          (Keeps-transaction Quiet Quiet-refl Quiet-trans env.engine _ (fail_rows-Quiet j _ t))
          λ u. bind _ _ (record_audit-Quiet _ _ _ _) λ v. record_skipped_items-Quiet j _

    fail_item-Quiet :
        (x : AgentUpgradeRolloutItem) (text : Text) → Keeps Quiet (fail_item env x text)
    unfolding fail_item
    fail_item-Quiet x text = bind _ _ clocked λ t.
        bind _ _ (update_items-Quiet _ _ λ y e h. ground arith)
          λ u. bind _ _ (record_audit-Quiet _ _ _ _) λ v. fail_rollout-Quiet _ _

    expire-Quiet : Keeps Quiet (expire_timed_out_items env i)
    unfolding expire_timed_out_items find_items
    expire-Quiet = bind _ _ clocked λ t.
        bind _ _ (read_only _)
          λ xs. Keeps-for_each Quiet Quiet-refl Quiet-trans _ xs λ x. fail_item-Quiet x _

    mark_running-Quiet : Keeps Quiet (mark_rollout_running env i)
    unfolding mark_rollout_running first_rollout
    mark_running-Quiet = bind _ _ clocked λ t.
        bind _ _ (Keeps-attempt Quiet Quiet-refl Quiet-trans _ (read_only _))
          λ r. update_rollouts-Quiet _ _

    -- A step that asks no agent while an item holds the rollout back.
    record Waits {A : Type 0} (m : M Tables A) : Type 0 where
      holds :
          (d : Db Tables)
          → count_where (held_by i) d.tables.items ≢ 0
          → (m d).1.tables.asked ≡ d.tables.asked

    Quiet-Waits : {A : Type 0} (m : M Tables A) → Keeps Quiet m → Waits m
    Quiet-Waits m p = record { holds = λ d h. (p.holds d).asked }

    Waits-after :
        {A B : Type 0} (m : M Tables A) (f : A → M Tables B)
        → Keeps Quiet m
        → ((a : A) → Waits (f a))
        → Waits (m >>= f)
    Waits-after {A} {B} m f p q = record { holds = λ d h. go d (m d) (p.holds d) h }
      where
        go :
            (d : Db Tables) (r : Result A × Db Tables)
            → Quiet d.tables r.1.tables
            → count_where (held_by i) d.tables.items ≢ 0
            → (next f r).1.tables.asked ≡ d.tables.asked
        go d (ok a, d') w h = (q a).holds d' (omega (arith, w.held, h)) ∙ w.asked
        go d (err e, d') w h = w.asked

    quiet_waiting :
        (r : AgentUpgradeRollout) (n : ℕ) (d : Db Tables)
        → n ≢ 0
        → (advance_quiet env i r n d).1.tables.asked ≡ d.tables.asked
    unfolding advance_quiet
    quiet_waiting r zero d h = absurd (h refl)
    quiet_waiting r (suc n) d h = (mark_running-Quiet.holds d).asked

    unfailed_waiting :
        (r : AgentUpgradeRollout) (n : ℕ) (d : Db Tables)
        → n ≡ count_where (failed_of i) d.tables.items
        → count_where (held_by i) d.tables.items ≢ 0
        → (advance_unfailed env i r n d).1.tables.asked ≡ d.tables.asked
    unfolding advance_unfailed count_items statement
    unfailed_waiting r (suc n) d e h = ((fail_rollout-Quiet i _).holds d).asked
    unfailed_waiting r zero d e h = elim (Bool-cases (env.engine.fails d.tick)) [
      | inl f ↦ rw f refl
      | inr f ↦ rw f (
          quiet_waiting r _ (record d { tick = suc d.tick })
            (omega (arith, held_counts i d.tables.items, e, h)))
    ]

    found-Waits : (o : Option AgentUpgradeRollout) → Waits (advance_found env i o)
    unfolding advance_found count_items statement
    found-Waits none = Quiet-Waits _ (Keeps-fail Quiet Quiet-refl Quiet-trans _)
    found-Waits (some r) = record {
      holds = λ d h. elim (Bool-cases (rollout_terminal r.status)) [
        | inl e ↦ rw e refl
        | inr e ↦ elim (Bool-cases (env.engine.fails d.tick)) [
          | inl f ↦ rw (e, f) refl
          | inr f ↦ rw (e, f) (unfailed_waiting r _ (record d { tick = suc d.tick }) refl h)
        ]
      ];
    }

    advance-Waits : Waits (advance_rollout env i)
    unfolding advance_rollout first_rollout
    advance-Waits = record {
      holds = λ d h. elim (Bool-cases (is_empty i)) [
        | inl e ↦ rw e refl
        | inr e ↦ rw e (
            (Waits-after _ _ expire-Quiet λ u. Waits-after _ _ (read_only _) found-Waits).holds d h)
      ];
    }

-- While an item of a rollout is running or has failed, `AdvanceRollout` asks no agent to update,
-- whatever statements fail.
pub advance_waits_for_items :
    (env : Env) (i : Text) (d : Db Tables)
    → count_where (held_by i) d.tables.items ≢ 0
    → (advance_rollout env i d).1.tables.asked ≡ d.tables.asked
advance_waits_for_items env i d h = (advance-Waits i env).holds d h
