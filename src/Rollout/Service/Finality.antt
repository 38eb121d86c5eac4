-- ===== src/Rollout/Service/Finality.antt =====
-- What no sequence of calls of the rollout service can undo (internal/master/agentrollout/
-- service.go).
use vault_fleet.Prelude.{
  ℕ, ◌≡◌, ◌∙◌, ap, Bool, true, false, Option, none, some, List, [], ◌∷◌, ◌++◌, arith, get_elem?,
  Text,
}
use vault_fleet.Engine.{Db, Result, ok, err, statement}
use vault_fleet.Engine.Keeps.{Keeps, Keeps-statement}
use vault_fleet.Engine.Rows.{Evolved-get, Evolved-append}
use vault_fleet.Rollout.Model.{
  AgentUpgradeRollout, AgentUpgradeRolloutItem, Agent, Tables, Env, rollout_terminal,
}
use vault_fleet.Rollout.Input.{NormalInput}
use vault_fleet.Rollout.Plan.{resolve_targets}
use vault_fleet.Rollout.Create.{
  first_active_conflict, create_items, create_rollout_rows, create_unless, create_for,
  create_normal, create_rollout,
}
use vault_fleet.Rollout.Heartbeat.{
  item_seen, handle_heartbeat, cancel_rows, cancel_rollout, advance_all,
}
use vault_fleet.Rollout.Evolution.{
  Kept, Kept-refl, Kept-trans, SamePlan, SamePlan-refl, SamePlan-trans, Evolves, Evolves-refl,
  Evolves-trans, update_items-Evolves, find_items-Evolves, read_only, clocked, named, committed,
  bind, tried, unchanged, refused, either, each,
}
use vault_fleet.Rollout.Evolution.Steps.{
  mark_rollout-Evolves, record_audit-Evolves, record_skipped_items-Evolves, advance_rollout-Evolves,
}
use vault_fleet.Rollout.Service.{
  Call, creates, advances, advances_all, heartbeats, cancels, step, run,
}

module _ (env : Env) where
  insert_item-Evolves :
      (x : AgentUpgradeRolloutItem)
      → Keeps Evolves (statement env.engine λ t. (tt {0}, record t { items = t.items ++ x ∷ [] }))
  insert_item-Evolves x = Keeps-statement Evolves Evolves-refl Evolves-trans env.engine _ λ s.
      record {
        rollouts = (Evolves-refl s).rollouts;
        items = Evolved-append SamePlan SamePlan-refl SamePlan-trans s.items (x ∷ []);
      }

  insert_rollout-Evolves :
      (r : AgentUpgradeRollout)
      → Keeps Evolves
          (statement env.engine λ t. (tt {0}, record t { rollouts = t.rollouts ++ r ∷ [] }))
  insert_rollout-Evolves r = Keeps-statement Evolves Evolves-refl Evolves-trans env.engine _ λ s.
      record {
        rollouts = Evolved-append Kept Kept-refl Kept-trans s.rollouts (r ∷ []);
        items = (Evolves-refl s).items;
      }

  create_items-Evolves :
      (i : Text) (xs : List AgentUpgradeRolloutItem) → Keeps Evolves (create_items env i xs)
  unfolding create_items
  create_items-Evolves i [] = unchanged _
  create_items-Evolves i (x ∷ xs) = bind _ _ (named env.engine) λ id.
      bind _ _ (clocked env.engine) λ t.
        bind _ _ (insert_item-Evolves _)
          λ u. bind _ _ (create_items-Evolves i xs) λ rows. unchanged _

  create_rows-Evolves :
      (input : NormalInput) (xs : List AgentUpgradeRolloutItem)
      → Keeps Evolves (create_rollout_rows env input xs)
  unfolding create_rollout_rows
  create_rows-Evolves input xs = bind _ _ (named env.engine) λ id.
      bind _ _ (clocked env.engine) λ t.
        bind _ _ (insert_rollout-Evolves _)
          λ u. bind _ _ (create_items-Evolves _ xs) λ rows. unchanged _

  conflict-Evolves : (agents : List Agent) → Keeps Evolves (first_active_conflict env agents)
  unfolding first_active_conflict
  conflict-Evolves [] = unchanged _
  conflict-Evolves (a ∷ rest) = bind _ _ (tried _ (read_only env.engine _)) λ r. unchanged _

  create_unless-Evolves :
      (input : NormalInput) (agents : List Agent) (o : Option Text)
      → Keeps Evolves (create_unless env input agents o)
  unfolding create_unless
  create_unless-Evolves input agents (some a) = refused _
  create_unless-Evolves input agents none =
      bind _ _ (clocked env.engine) λ t. committed env.engine _ (create_rows-Evolves input _)

  create_for-Evolves :
      (input : NormalInput) (agents : List Agent) → Keeps Evolves (create_for env input agents)
  unfolding create_for
  create_for-Evolves input [] = refused _
  create_for-Evolves input (a ∷ rest) =
      bind _ _ (conflict-Evolves (a ∷ rest)) λ o. create_unless-Evolves input (a ∷ rest) o

  create_normal-Evolves : (r : Result NormalInput) → Keeps Evolves (create_normal env r)
  unfolding create_normal resolve_targets
  create_normal-Evolves (err e) = refused _
  create_normal-Evolves (ok input) =
      bind _ _ (bind _ _ (read_only env.engine _) λ agents. unchanged _)
        λ agents. create_for-Evolves input agents

  item_seen-Evolves :
      (version : Text) (t : ℕ) (x : AgentUpgradeRolloutItem) (b : Bool)
      → Keeps Evolves (item_seen env version t x b)
  unfolding item_seen
  item_seen-Evolves version t x false = update_items-Evolves env.engine _ _ λ y. ground arith
  item_seen-Evolves version t x true =
      bind _ _ (update_items-Evolves env.engine _ _ λ y. ground arith)
        λ u. bind _ _ (record_audit-Evolves env _ _ _ _) λ v. advance_rollout-Evolves env _

  handle_heartbeat-Evolves :
      (agent version : Text) → Keeps Evolves (handle_heartbeat env agent version)
  unfolding handle_heartbeat
  handle_heartbeat-Evolves agent version = either _ _ _ (unchanged _) (
      bind _ _ (clocked env.engine) λ t.
        bind _ _ (find_items-Evolves env.engine _)
          λ xs. each _ xs λ x. item_seen-Evolves version t x _)

  cancel_rollout-Evolves : (i reason : Text) → Keeps Evolves (cancel_rollout env i reason)
  unfolding cancel_rollout cancel_rows
  cancel_rollout-Evolves i reason = either _ _ _ (unchanged _) (
      bind _ _ (clocked env.engine) λ t.
        bind _ _
          (committed env.engine _ (
            bind _ _ (mark_rollout-Evolves env i _ _ t)
              λ u. update_items-Evolves env.engine _ _ λ x. ground arith))
          λ v.
            bind _ _ (record_audit-Evolves env _ _ _ _) λ w. record_skipped_items-Evolves env i _)

  advance_all-Evolves : Keeps Evolves (advance_all env)
  unfolding advance_all
  advance_all-Evolves =
      bind _ _ (read_only env.engine _) λ rs. each _ rs λ r. advance_rollout-Evolves env r.id

  step-Evolves : (c : Call) (d : Db Tables) → Evolves d.tables (step env c d).tables
  unfolding step create_rollout
  step-Evolves (creates input) d = (create_normal-Evolves _).holds d
  step-Evolves (advances i) d = (advance_rollout-Evolves env i).holds d
  step-Evolves advances_all d = advance_all-Evolves.holds d
  step-Evolves (heartbeats agent version) d = (handle_heartbeat-Evolves agent version).holds d
  step-Evolves (cancels i reason) d = (cancel_rollout-Evolves i reason).holds d

  run-Evolves : (cs : List Call) (d : Db Tables) → Evolves d.tables (run env cs d).tables
  unfolding run
  run-Evolves [] d = Evolves-refl d.tables
  run-Evolves (c ∷ cs) d =
      Evolves-trans d.tables (step env c d).tables (run env cs (step env c d)).tables
        (step-Evolves c d) (run-Evolves cs (step env c d))

-- A rollout that has succeeded, failed or been cancelled is never written again: after any calls of
-- the service, in any order and with any statements failing, its row stands unchanged at its place.
pub terminal_rollouts_final :
    (env : Env) (cs : List Call) (d : Db Tables) (n : ℕ) (r : AgentUpgradeRollout)
    → get_elem? d.tables.rollouts n ≡ some r
    → rollout_terminal r.status ≡ true
    → get_elem? (run env cs d).tables.rollouts n ≡ some r
terminal_rollouts_final env cs d n r e h =
    let (r', e', k) =
      Evolved-get Kept Kept-refl Kept-trans d.tables.rollouts (run env cs d).tables.rollouts n r
        (run-Evolves env cs d).rollouts e in
    e' ∙ ap some (k.final h)

-- No calls of the service lose an item or move it to another rollout, agent, phase, batch or target
-- version.
pub items_keep_plan :
    (env : Env) (cs : List Call) (d : Db Tables) (n : ℕ) (x : AgentUpgradeRolloutItem)
    → get_elem? d.tables.items n ≡ some x
    → (x' : AgentUpgradeRolloutItem) × (get_elem? (run env cs d).tables.items n ≡ some x')
      × (x'.rollout_id ≡ x.rollout_id)
      × (x'.agent_id ≡ x.agent_id)
      × (x'.phase ≡ x.phase)
      × (x'.batch_index ≡ x.batch_index)
      × (x'.target_version ≡ x.target_version)
items_keep_plan env cs d n x e =
    let (x', e', k) =
      Evolved-get SamePlan SamePlan-refl SamePlan-trans d.tables.items (run env cs d).tables.items n
        x (run-Evolves env cs d).items e in
    (x', e', k.same_rollout, k.same_agent, k.same_phase, k.same_index, k.same_version)
