-- ===== src/Rollout/Create/Conflict.antt =====
-- No agent is enrolled twice (`firstActiveConflict` and `CreateRollout` of internal/master/
-- agentrollout/service.go).
use vault_fleet.Prelude.{
  ◌≡◌, ◌≢◌, refl, Bool, true, false, inl, inr, Option, none, some, List, [], ◌∷◌, map, arith, Text,
  text_elem, is_empty, count_where, where_rows, insert_sorted, sort_by, All, Bool-cases,
}
use vault_fleet.Engine.{Db, Result, ok, err, next, attempt, statement}
use vault_fleet.Rollout.Model.{
  AgentUpgradeRollout, AgentUpgradeRolloutItem, Agent, Tables, Env, created_before,
}
use vault_fleet.Rollout.Input.{NormalInput}
use vault_fleet.Rollout.Create.{
  busy_among, conflict_agent, first_active_conflict, create_unless, create_for,
}

-- Items whose agent has an identifier.
abbrev Named : AgentUpgradeRolloutItem → Type 0
Named x = is_empty x.agent_id ≡ false

insert_sorted-Named :
    (p : AgentUpgradeRolloutItem → AgentUpgradeRolloutItem → Bool) (x : AgentUpgradeRolloutItem)
    (xs : List AgentUpgradeRolloutItem)
    → Named x
    → All Named xs
    → All Named (insert_sorted p x xs)
insert_sorted-Named p x [] h hs = (h, tt)
insert_sorted-Named p x (y ∷ ys) h hs = elim (Bool-cases (p x y)) [
  | inl e ↦ rw e (h, hs)
  | inr e ↦ rw e (hs.0, insert_sorted-Named p x ys h hs.1)
]

sort_by-Named :
    (p : AgentUpgradeRolloutItem → AgentUpgradeRolloutItem → Bool)
    (xs : List AgentUpgradeRolloutItem)
    → All Named xs
    → All Named (sort_by p xs)
sort_by-Named p [] h = tt
sort_by-Named p (x ∷ xs) h = insert_sorted-Named p x _ h.0 (sort_by-Named p xs h.1)

conflict_of_Named :
    (xs : List AgentUpgradeRolloutItem) → All Named xs → conflict_agent xs ≡ none → xs ≡ []
conflict_of_Named [] h e = refl
conflict_of_Named (x ∷ xs) h e = absurd (ground (arith, h.0, e))

insert_sorted-nonempty :
    {A : Type 0} (p : A → A → Bool) (x : A) (xs : List A) → insert_sorted p x xs ≢ []
insert_sorted-nonempty p x [] e = absurd (ground arith)
insert_sorted-nonempty p x (y ∷ ys) e = absurd (ground arith)

unsorted_empty : {A : Type 0} (p : A → A → Bool) (xs : List A) → sort_by p xs ≡ [] → xs ≡ []
unsorted_empty p [] e = refl
unsorted_empty p (x ∷ xs) e = absurd (insert_sorted-nonempty p x (sort_by p xs) e)

count-where_rows :
    {A : Type 0} (p : A → Bool) (xs : List A) → where_rows p xs ≡ [] → count_where p xs ≡ 0
count-where_rows p [] e = refl
count-where_rows p (x ∷ xs) e = ground (arith, count-where_rows p xs)

selected-Named :
    (ids : List Text) (t : Tables)
    → text_elem [] ids ≡ false
    → (xs : List AgentUpgradeRolloutItem) → All Named (where_rows (busy_among ids t) xs)
selected-Named ids t h [] = tt
selected-Named ids t h (x ∷ xs) = elim (Bool-cases (busy_among ids t x)) [
  | inl e ↦ rw e (elem-Named x.agent_id ids h (ground (arith, e)), selected-Named ids t h xs)
  | inr e ↦ rw e (selected-Named ids t h xs)
]
  where
    elem-Named :
        (a : Text) (ids : List Text)
        → text_elem [] ids ≡ false
        → text_elem a ids ≡ true
        → is_empty a ≡ false
    elem-Named [] ids h e = absurd (ground (arith, h, e))
    elem-Named (c ∷ a) ids h e = refl

module _ (env : Env) where
  no_conflict :
      (a : Agent) (rest : List Agent) (d : Db Tables)
      → env.engine.fails d.tick ≡ false
      → text_elem [] (map (λ b. b.id) (a ∷ rest)) ≡ false
      → (first_active_conflict env (a ∷ rest) d).0 ≡ ok none
      → count_where (busy_among (map (λ b. b.id) (a ∷ rest)) d.tables) d.tables.items ≡ 0
  unfolding first_active_conflict attempt statement
  no_conflict a rest d f named = rw f λ e.
      let ids = map (λ b. b.id) (a ∷ rest) in
      let rows = where_rows (busy_among ids d.tables) d.tables.items in
      let none_left =
        conflict_of_Named _
          (sort_by-Named created_before rows (selected-Named ids d.tables named d.tables.items))
          (ground (arith, e)) in
      count-where_rows (busy_among ids d.tables) d.tables.items
        (unsorted_empty created_before rows none_left)

  created_without_conflict :
      (input : NormalInput) (agents : List Agent)
      (p : AgentUpgradeRollout × List AgentUpgradeRolloutItem)
      (r : Result (Option Text) × Db Tables)
      → (next (create_unless env input agents) r).0 ≡ ok p
      → r.0 ≡ ok none
  unfolding create_unless
  created_without_conflict input agents p (ok none, d) e = refl
  created_without_conflict input agents p (ok (some a), d) e = absurd (ground (arith, e))
  created_without_conflict input agents p (err x, d) e = absurd (ground (arith, e))

  -- Where the query for a conflict succeeds and the matched agents have identifiers: when a rollout
  -- is created for them, none of them had a pending or running item in a pending or running rollout.
  pub agents_enrolled_once :
      (input : NormalInput) (agents : List Agent) (d : Db Tables)
      (p : AgentUpgradeRollout × List AgentUpgradeRolloutItem)
      → env.engine.fails d.tick ≡ false
      → text_elem [] (map (λ b. b.id) agents) ≡ false
      → (create_for env input agents d).0 ≡ ok p
      → count_where (busy_among (map (λ b. b.id) agents) d.tables) d.tables.items ≡ 0
  unfolding create_for
  agents_enrolled_once input [] d p f named e = absurd (ground (arith, e))
  agents_enrolled_once input (a ∷ rest) d p f named e =
      no_conflict a rest d f named
        (created_without_conflict input (a ∷ rest) p (first_active_conflict env (a ∷ rest) d) e)
