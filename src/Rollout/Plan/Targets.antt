-- ===== src/Rollout/Plan/Targets.antt =====
-- Whom a rollout is for (`resolveTargets` of internal/master/agentrollout/service.go).
use mathlib.Core.Path.{subst}
use mathlib.Core.List.{Memᴰ}
use vault_fleet.Prelude.{
  ◌≢◌, ◌⊎◌, ◌↔◌, sym, ◌∙◌, Distinct, ◌≡◌, refl, Bool, true, false, not, ◌&&◌, ◌||◌, inl, inr, List,
  [], ◌∷◌, map, arith, Text, text_eq, text_eq_iff, text_eq_refl, text_elem, Bool-cases,
}
use vault_fleet.Rollout.Model.{Agent, Env}
use vault_fleet.Rollout.Plan.{is_target, match_agents, agent_tags, all_present, has_all_tags}

abbrev pub ids_of : List Agent → List Text
ids_of = map (λ a. a.id)

either_true : (b : Bool) {c : Bool} → c ≡ true → (b || c) ≡ true
either_true b h = ground arith

and_first : (b c : Bool) → (b && c) ≡ true → b ≡ true
and_first b c h = ground arith

and_second : (b c : Bool) → (b && c) ≡ true → c ≡ true
and_second b c h = ground arith

all_present_iff :
    (tags required : List Text)
    → all_present tags required ≡ true
      ↔ ((r : Text) → text_elem r required ≡ true → text_elem r tags ≡ true)
unfolding all_present text_elem
all_present_iff tags [] = (λ h r e. ground (arith, e), λ h. refl)
all_present_iff tags (s ∷ ss) = (
  λ h r e. elim (Bool-cases (text_eq s r)) [
    | inl p ↦
        subst (λ x. text_elem x tags ≡ true) ((text_eq_iff s r).0 p)
          (and_first (text_elem s tags) (all_present tags ss) h)
    | inr p ↦
        (all_present_iff tags ss).0 (and_second (text_elem s tags) (all_present tags ss) h) r
          (rw p at e)
  ],
  λ h.
      rw
        (
          h s (rw (text_eq_refl s) refl),
          (all_present_iff tags ss).1 (λ r e. h r (either_true (text_eq s r) e)),
        )
        refl,
)

has_all_tags_iff :
    (tags required : List Text)
    → has_all_tags tags required ≡ true
      ↔ ((required ≢ []) × ((r : Text) → text_elem r required ≡ true → text_elem r tags ≡ true))
unfolding has_all_tags
has_all_tags_iff tags [] = (λ h. absurd (ground (arith, h)), λ h. absurd (h.0 refl))
has_all_tags_iff tags (s ∷ ss) = (
  λ h. ((λ e. ground (arith, e)), (all_present_iff tags (s ∷ ss)).0 h),
  λ h. (all_present_iff tags (s ∷ ss)).1 h.1,
)

module _ (env : Env) (ids tags : List Text) where
  -- What is matched has not been seen.
  matched_unseen :
      (agents : List Agent) (seen : List Text) (t : Text)
      → text_elem t seen ≡ true
      → text_elem t (ids_of (match_agents env ids tags seen agents)) ≡ false
  unfolding match_agents text_elem
  matched_unseen [] seen t h = refl
  matched_unseen (a ∷ rest) seen t h = ground (
    arith,
    text_eq_iff t a.id,
    text_eq_iff a.id t,
    matched_unseen rest (a.id ∷ seen) t,
    matched_unseen rest seen t,
  )

  matched-Distinct :
      (agents : List Agent) (seen : List Text)
      → Distinct (ids_of (match_agents env ids tags seen agents))
  unfolding match_agents text_elem
  matched-Distinct [] seen = tt
  matched-Distinct (a ∷ rest) seen =
      elim (Bool-cases (is_target env ids tags a && not (text_elem a.id seen))) [
        | inl e ↦ rw e (
          matched_unseen rest (a.id ∷ seen) a.id (rw (text_eq_refl a.id) refl),
          matched-Distinct rest (a.id ∷ seen),
        )
        | inr e ↦ rw e (matched-Distinct rest seen)
      ]

  -- The loop's test on each agent of the list.
  unfoldable selects : Text → List Agent → Bool
  selects t [] = false
  selects t (a ∷ rest) = (text_eq a.id t && is_target env ids tags a) || selects t rest

  matched_exact :
      (agents : List Agent) (seen : List Text) (t : Text)
      → text_elem t seen ≡ false
      → text_elem t (ids_of (match_agents env ids tags seen agents)) ≡ selects t agents
  unfolding match_agents selects text_elem
  matched_exact [] seen t h = refl
  matched_exact (a ∷ rest) seen t h = ground (
    arith,
    text_eq_iff a.id t,
    matched_exact rest (a.id ∷ seen) t,
    matched_exact rest seen t,
    matched_unseen rest (a.id ∷ seen) t,
  )

  -- Some tag is required, and the agent has every tag that is.
  abbrev pub HasRequired : Agent → Type 0
  HasRequired a =
      (tags ≢ []) × ((r : Text) → text_elem r tags ≡ true → text_elem r (agent_tags env a) ≡ true)

  -- An agent of the list has the id, and is named by the input or has the required tags.
  abbrev pub Selected : Text → List Agent → Type 0
  Selected t agents =
      (a : Agent) × Memᴰ a agents × (a.id ≡ t) × ((text_elem t ids ≡ true) ⊎ HasRequired a)

  is_target-HasRequired :
      (a : Agent) → is_target env ids tags a ≡ true ↔ ((text_elem a.id ids ≡ true) ⊎ HasRequired a)
  is_target-HasRequired a = (
    λ h. elim (Bool-cases (text_elem a.id ids)) [
      | inl e ↦ inl e
      | inr e ↦ inr ((has_all_tags_iff (agent_tags env a) tags).0 (rw e at h))
    ],
    λ s. elim s [
      | inl e ↦ rw e refl
      | inr q ↦ either_true (text_elem a.id ids) ((has_all_tags_iff (agent_tags env a) tags).1 q)
    ],
  )

  selects-Selected : (t : Text) (agents : List Agent) → selects t agents ≡ true → Selected t agents
  unfolding selects
  selects-Selected t [] h = absurd (ground (arith, h))
  selects-Selected t (a ∷ rest) h = elim (Bool-cases (text_eq a.id t && is_target env ids tags a)) [
    | inl e ↦
        let same = (text_eq_iff a.id t).0 (and_first (text_eq a.id t) _ e) in
        (
          a,
          Memᴰ.head refl,
          same,
          subst (λ i. (text_elem i ids ≡ true) ⊎ HasRequired a) same
              ((is_target-HasRequired a).0 (and_second (text_eq a.id t) _ e)),
        )
    | inr e ↦
        let (b, q, same, why) = selects-Selected t rest (rw e at h) in (b, Memᴰ.tail q, same, why)
  ]

  Selected-selects :
      (t : Text) (a : Agent) (agents : List Agent)
      → Memᴰ a agents
      → a.id ≡ t
      → (text_elem t ids ≡ true) ⊎ HasRequired a
      → selects t agents ≡ true
  unfolding selects
  Selected-selects t a [] q same why = elim q [ ]
  Selected-selects t a (b ∷ rest) (Memᴰ.head e) same why =
      let chosen =
        (is_target-HasRequired a).1
          (subst (λ i. (text_elem i ids ≡ true) ⊎ HasRequired a) (sym same) why) in
      rw
        (
          subst (λ x. text_eq x.id t ≡ true) e ((text_eq_iff a.id t).1 same),
          subst (λ x. is_target env ids tags x ≡ true) e chosen,
        )
        refl
  Selected-selects t a (b ∷ rest) (Memᴰ.tail q) same why =
      either_true (text_eq b.id t && is_target env ids tags b)
        (Selected-selects t a rest q same why)

  -- The agents that are matched have different ids, and an id is among them exactly when some agent
  -- of the table has it and is named by the input or, where some tag is required, has every required
  -- tag.
  pub targets_exact :
      (agents : List Agent)
      → Distinct (ids_of (match_agents env ids tags [] agents))
        × ((t : Text)
            → text_elem t (ids_of (match_agents env ids tags [] agents)) ≡ true ↔ Selected t agents)
  targets_exact agents = (
    matched-Distinct agents [],
    λ t.
        let same = matched_exact agents [] t (unfold text_elem in refl) in
        (
          λ h. selects-Selected t agents (sym same ∙ h),
          λ s. same ∙ Selected-selects t s.0 agents s.1 s.2 s.3,
        ),
  )
