-- ===== src/Rollout/Evolution.antt =====
-- How the rollouts and their items may change, and the operations of internal/master/agentrollout/
-- service.go, each of which respects it whatever fails.
pub mod Steps
use vault_fleet.Prelude.{
  ℕ, suc, ◌≡◌, refl, ◌∙◌, ap, Bool, true, List, ◌++◌, ◌∷◌, [], if◌then◌else◌, Text, arith,
}
use vault_fleet.Engine.{
  Engine, Error, M, pure, fail, ◌>>=◌, attempt, now, new_id, transaction, for_each, statement,
}
use vault_fleet.Engine.Keeps.{
  Keeps, Keeps-statement, Keeps-bind, Keeps-pure, Keeps-fail, Keeps-if, Keeps-now, Keeps-new_id,
  Keeps-attempt, Keeps-transaction, Keeps-for_each,
}
use vault_fleet.Engine.Rows.{
  Evolved, Evolved-refl, Evolved-trans, Evolved-append, Evolved-update_where,
}
use vault_fleet.Rollout.Model.{
  AgentUpgradeRollout, AgentUpgradeRolloutItem, Tables, rollout_terminal, update_rollouts,
  update_items, count_items, find_items, first_rollout,
}

-- What stays of a rollout: what it is to do, and once it has ended, all of it.
pub record Kept (r r' : AgentUpgradeRollout) : Type 0 where
  pub same_id : r'.id ≡ r.id
  pub same_version : r'.target_version ≡ r.target_version
  pub same_canaries : r'.canary_count ≡ r.canary_count
  pub same_batch : r'.batch_size ≡ r.batch_size
  pub final : rollout_terminal r.status ≡ true → r' ≡ r

-- What stays of an item: the agent, the rollout and the place in it.
pub record SamePlan (x x' : AgentUpgradeRolloutItem) : Type 0 where
  pub same_id : x'.id ≡ x.id
  pub same_rollout : x'.rollout_id ≡ x.rollout_id
  pub same_agent : x'.agent_id ≡ x.agent_id
  pub same_phase : x'.phase ≡ x.phase
  pub same_index : x'.batch_index ≡ x.batch_index
  pub same_version : x'.target_version ≡ x.target_version

pub Kept-refl : (r : AgentUpgradeRollout) → Kept r r
Kept-refl r = ground arith

pub Kept-trans : (a b c : AgentUpgradeRollout) → Kept a b → Kept b c → Kept a c
Kept-trans a b c p q = record {
  same_id = q.same_id ∙ p.same_id;
  same_version = q.same_version ∙ p.same_version;
  same_canaries = q.same_canaries ∙ p.same_canaries;
  same_batch = q.same_batch ∙ p.same_batch;
  final = λ h. q.final (ap (λ x. rollout_terminal x.status) (p.final h) ∙ h) ∙ p.final h;
}

pub SamePlan-refl : (x : AgentUpgradeRolloutItem) → SamePlan x x
SamePlan-refl x = ground arith

pub SamePlan-trans : (a b c : AgentUpgradeRolloutItem) → SamePlan a b → SamePlan b c → SamePlan a c
SamePlan-trans a b c p q = record {
  same_id = q.same_id ∙ p.same_id;
  same_rollout = q.same_rollout ∙ p.same_rollout;
  same_agent = q.same_agent ∙ p.same_agent;
  same_phase = q.same_phase ∙ p.same_phase;
  same_index = q.same_index ∙ p.same_index;
  same_version = q.same_version ∙ p.same_version;
}

pub record Evolves (s t : Tables) : Type 0 where
  pub rollouts : Evolved Kept s.rollouts t.rollouts
  pub items : Evolved SamePlan s.items t.items

pub Evolves-refl : (s : Tables) → Evolves s s
Evolves-refl s = record {
  rollouts = Evolved-refl Kept Kept-refl Kept-trans s.rollouts;
  items = Evolved-refl SamePlan SamePlan-refl SamePlan-trans s.items;
}

pub Evolves-trans : (s t u : Tables) → Evolves s t → Evolves t u → Evolves s u
Evolves-trans s t u p q = record {
  rollouts =
      Evolved-trans Kept Kept-refl Kept-trans s.rollouts t.rollouts u.rollouts p.rollouts
        q.rollouts;
  items =
      Evolved-trans SamePlan SamePlan-refl SamePlan-trans s.items t.items u.items p.items q.items;
}

module _ (env : Engine) where
  pub update_rollouts-Evolves :
      (p : AgentUpgradeRollout → Bool) (f : AgentUpgradeRollout → AgentUpgradeRollout)
      → ((r : AgentUpgradeRollout) → p r ≡ true → Kept r (f r))
      → Keeps Evolves (update_rollouts env p f)
  unfolding update_rollouts
  update_rollouts-Evolves p f h = Keeps-statement Evolves Evolves-refl Evolves-trans env _ λ s.
      record {
        rollouts = Evolved-update_where Kept Kept-refl Kept-trans p f h s.rollouts;
        items = (Evolves-refl s).items;
      }

  pub update_items-Evolves :
      (p : AgentUpgradeRolloutItem → Bool) (f : AgentUpgradeRolloutItem → AgentUpgradeRolloutItem)
      → ((x : AgentUpgradeRolloutItem) → SamePlan x (f x))
      → Keeps Evolves (update_items env p f)
  unfolding update_items
  update_items-Evolves p f h = Keeps-statement Evolves Evolves-refl Evolves-trans env _ λ s.
      record {
        rollouts = (Evolves-refl s).rollouts;
        items = Evolved-update_where SamePlan SamePlan-refl SamePlan-trans p f (λ x e. h x) s.items;
      }

  pub read_only : {A : Type 0} (f : Tables → A) → Keeps Evolves (statement env λ s. (f s, s))
  read_only f = Keeps-statement Evolves Evolves-refl Evolves-trans env (λ s. (f s, s)) Evolves-refl

  pub count_items-Evolves : (p : AgentUpgradeRolloutItem → Bool) → Keeps Evolves (count_items env p)
  unfolding count_items
  count_items-Evolves p = read_only _

  pub find_items-Evolves : (p : AgentUpgradeRolloutItem → Bool) → Keeps Evolves (find_items env p)
  unfolding find_items
  find_items-Evolves p = read_only _

  pub first_rollout-Evolves : (p : AgentUpgradeRollout → Bool) → Keeps Evolves (first_rollout env p)
  unfolding first_rollout
  first_rollout-Evolves p = read_only _

  pub clocked : Keeps Evolves (now env)
  clocked = Keeps-now Evolves Evolves-refl Evolves-trans env

  pub named : Keeps Evolves (new_id env)
  named = Keeps-new_id Evolves Evolves-refl Evolves-trans env

  pub committed :
      {A : Type 0} (m : M Tables A) → Keeps Evolves m → Keeps Evolves (transaction env m)
  committed = Keeps-transaction Evolves Evolves-refl Evolves-trans env

pub bind :
    {A B : Type 0} (m : M Tables A) (f : A → M Tables B)
    → Keeps Evolves m
    → ((a : A) → Keeps Evolves (f a))
    → Keeps Evolves (m >>= f)
bind = Keeps-bind Evolves Evolves-refl Evolves-trans

module _ {A : Type 0} where
  pub tried : (m : M Tables A) → Keeps Evolves m → Keeps Evolves (attempt m)
  tried = Keeps-attempt Evolves Evolves-refl Evolves-trans

  pub unchanged : (a : A) → Keeps Evolves (pure a)
  unchanged = Keeps-pure Evolves Evolves-refl Evolves-trans

  pub refused : (e : Error) → Keeps Evolves (fail {A = A} e)
  refused = Keeps-fail Evolves Evolves-refl Evolves-trans

  pub either :
      (b : Bool) (m n : M Tables A)
      → Keeps Evolves m
      → Keeps Evolves n
      → Keeps Evolves (if b then m else n)
  either = Keeps-if Evolves Evolves-refl Evolves-trans

  pub each :
      (f : A → M Tables (Unit {0})) (xs : List A)
      → ((x : A) → Keeps Evolves (f x))
      → Keeps Evolves (for_each f xs)
  each = Keeps-for_each Evolves Evolves-refl Evolves-trans
