-- ===== src/Rollout/Plan/Bounds.antt =====
-- The stages of a planned rollout: how many agents a stage has (`planItems` of internal/master/
-- agentrollout/service.go).
use mathlib.Core.Path.{ap₂}
use native.Mathlib.Nat.{div-add-mod, mod-lt}
use vault_fleet.Prelude.{
  ℕ, zero, suc, ◌+◌, ◌-◌, ◌*◌, ◌/◌, ◌≤◌, ◌<◌, ◌≡◌, refl, ap, Bool, false, ◌&&◌, inl, inr, List, [],
  ◌∷◌, map, arith, ltb, ◌==◌, ==_iff, Text, count_where, if◌then◌else◌, Bool-cases,
}
use vault_fleet.Rollout.Model.{
  Phase, AgentUpgradeRolloutItem, Agent, Env, is_canary, is_batch, count_or_default,
  default_batch_size,
}
use vault_fleet.Rollout.Plan.{
  Fate, offline, version_unknown, arch_unknown, up_to_date, runnable, place, plan_item, plan_from,
  plan_items,
}

canaries_step :
    (f : Fate) (i c b t : ℕ) (v : Text) (x : AgentUpgradeRolloutItem) (n : ℕ)
    → x.phase ≡ Phase.unphased
    → n ≤ c - (plan_item f i c b t v x).1
    → (if is_canary (plan_item f i c b t v x).0.phase then suc n else n) ≤ c - i
unfolding plan_item
canaries_step offline i c b t v x n e h = ground arith
canaries_step version_unknown i c b t v x n e h = ground arith
canaries_step arch_unknown i c b t v x n e h = ground arith
canaries_step up_to_date i c b t v x n e h = ground arith
canaries_step runnable i c b t v x n e h = ground arith

canaries_from :
    (env : Env) (agents : List Agent) (i : ℕ) (version : Text) (c b t : ℕ)
    → count_where (λ x. is_canary x.phase) (plan_from env i agents version c b t) ≤ c - i
unfolding plan_from
canaries_from env [] i version c b t = omega arith
canaries_from env (a ∷ rest) i version c b t =
    canaries_step _ i c b t _ _ _ refl (canaries_from env rest _ version c b t)

-- A plan has at most as many canaries as the rollout's canary count.
pub canaries_bounded :
    (env : Env) (agents : List Agent) (version : Text) (c b t : ℕ)
    → count_where (λ x. is_canary x.phase) (plan_items env agents version c b t) ≤ c
unfolding plan_items
canaries_bounded env agents version c b t = omega (arith, canaries_from env agents 0 version c b t)

-- The items of the batch with an index.
abbrev pub in_batch : ℕ → AgentUpgradeRolloutItem → Bool
in_batch k x = is_batch x.phase && x.batch_index == k

div_bounds : (n s k : ℕ) → 0 < s → n / s ≡ k → (k * s ≤ n) × (n < k * s + s)
div_bounds n s k h e = omega (arith, div-add-mod n s, mod-lt n h, ap (λ (q : ℕ). q * s) e)

abbrev size : ℕ → ℕ
size b = count_or_default b default_batch_size

size_pos : (b : ℕ) → 0 < size b
size_pos b = ground arith

-- What a runnable agent at place `i` adds to batch `k + 1`.
placed_step :
    (i c b k : ℕ) (x : AgentUpgradeRolloutItem) (n : ℕ)
    → n ≤ size b
    → n ≤ c + (k * size b + size b) - suc i
    → ((if in_batch (suc k) (place i c b x) then suc n else n) ≤ size b)
      × ((if in_batch (suc k) (place i c b x) then suc n else n) ≤ c + (k * size b + size b) - i)
placed_step i c b k x n h g = elim (Bool-cases (ltb i c)) [
  | inl e ↦ rw e (h, omega arith)
  | inr e ↦ rw e (elim (Bool-cases ((i - c) / size b + 1 == suc k)) [
    | inl q ↦
        let bounds =
          div_bounds (i - c) (size b) k (size_pos b)
            (omega (arith, (==_iff ((i - c) / size b + 1) (suc k)).0 q)) in
        rw q (batch_room i c (k * size b) (size b) n (not_ltb i c e) bounds.0 bounds.1 g)
    | inr q ↦ rw q (h, omega arith)
  ])
]
  where
    not_ltb : (a d : ℕ) → ltb a d ≡ false → d ≤ a
    not_ltb a d r = ground arith

    batch_room :
        (j d m z l : ℕ)
        → d ≤ j
        → m ≤ j - d
        → j - d < m + z
        → l ≤ d + (m + z) - suc j
        → (suc l ≤ z) × (suc l ≤ d + (m + z) - j)
    batch_room j d m z l p q r u = (omega arith, omega arith)

batch_step :
    (f : Fate) (i c b t : ℕ) (v : Text) (x : AgentUpgradeRolloutItem) (k n : ℕ)
    → x.phase ≡ Phase.unphased
    → n ≤ size b
    → n ≤ c + (k * size b + size b) - (plan_item f i c b t v x).1
    → ((if in_batch (suc k) (plan_item f i c b t v x).0 then suc n else n) ≤ size b)
      × ((if in_batch (suc k) (plan_item f i c b t v x).0 then suc n else n)
          ≤ c + (k * size b + size b) - i)
unfolding plan_item
batch_step offline i c b t v x k n e h g = rw e (h, g)
batch_step version_unknown i c b t v x k n e h g = rw e (h, g)
batch_step arch_unknown i c b t v x k n e h g = rw e (h, g)
batch_step up_to_date i c b t v x k n e h g = rw e (h, g)
batch_step runnable i c b t v x k n e h g = placed_step i c b k x n h g

batch_from :
    (env : Env) (agents : List Agent) (i : ℕ) (version : Text) (c b t k : ℕ)
    → (count_where (in_batch (suc k)) (plan_from env i agents version c b t) ≤ size b)
      × (count_where (in_batch (suc k)) (plan_from env i agents version c b t)
          ≤ c + (k * size b + size b) - i)
unfolding plan_from
batch_from env [] i version c b t k = (omega arith, omega arith)
batch_from env (a ∷ rest) i version c b t k =
    let ih = batch_from env rest _ version c b t k in batch_step _ i c b t _ _ k _ refl ih.0 ih.1

place_positive :
    (i c b : ℕ) (x : AgentUpgradeRolloutItem)
    → x.phase ≡ Phase.unphased
    → in_batch 0 (place i c b x) ≡ false
place_positive i c b x e = ground arith

no_batch_zero :
    (f : Fate) (i c b t : ℕ) (v : Text) (x : AgentUpgradeRolloutItem)
    → x.phase ≡ Phase.unphased
    → in_batch 0 (plan_item f i c b t v x).0 ≡ false
unfolding plan_item
no_batch_zero offline i c b t v x e = rw e
no_batch_zero version_unknown i c b t v x e = rw e
no_batch_zero arch_unknown i c b t v x e = rw e
no_batch_zero up_to_date i c b t v x e = rw e
no_batch_zero runnable i c b t v x e = place_positive i c b x e

uncounted : (q : Bool) (n : ℕ) → q ≡ false → n ≡ 0 → (if q then suc n else n) ≡ 0
uncounted q n e h = ground arith

batch_zero_from :
    (env : Env) (agents : List Agent) (i : ℕ) (version : Text) (c b t : ℕ)
    → count_where (in_batch 0) (plan_from env i agents version c b t) ≡ 0
unfolding plan_from
batch_zero_from env [] i version c b t = refl
batch_zero_from env (a ∷ rest) i version c b t =
    uncounted _ _ (no_batch_zero _ i c b t _ _ refl) (batch_zero_from env rest _ version c b t)

-- No batch of a plan has more items than the batch size (the default, if the size is 0).
pub batches_bounded :
    (env : Env) (agents : List Agent) (version : Text) (c b t k : ℕ)
    → count_where (in_batch k) (plan_items env agents version c b t)
      ≤ count_or_default b default_batch_size
unfolding plan_items
batches_bounded env agents version c b t zero =
    rw (batch_zero_from env agents 0 version c b t) (omega arith)
batches_bounded env agents version c b t (suc k) = (batch_from env agents 0 version c b t k).0

plan_agent :
    (f : Fate) (i c b t : ℕ) (v : Text) (x : AgentUpgradeRolloutItem)
    → (plan_item f i c b t v x).0.agent_id ≡ x.agent_id
unfolding plan_item
plan_agent f i c b t v x = ground arith

plan_from-agents :
    (env : Env) (agents : List Agent) (i : ℕ) (version : Text) (c b t : ℕ)
    → map (λ x. x.agent_id) (plan_from env i agents version c b t) ≡ map (λ a. a.id) agents
unfolding plan_from
plan_from-agents env [] i version c b t = refl
plan_from-agents env (a ∷ rest) i version c b t =
    ap₂ ◌∷◌ (plan_agent _ i c b t _ _) (plan_from-agents env rest _ version c b t)

-- A plan has one item for each agent, in the agents' order.
pub plan_items-agents :
    (env : Env) (agents : List Agent) (version : Text) (c b t : ℕ)
    → map (λ x. x.agent_id) (plan_items env agents version c b t) ≡ map (λ a. a.id) agents
unfolding plan_items
plan_items-agents env agents version c b t = plan_from-agents env agents 0 version c b t
