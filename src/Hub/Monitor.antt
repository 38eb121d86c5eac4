-- ===== src/Hub/Monitor.antt =====
-- The monitor of internal/master/ws/monitor.go: one scan for agents that have been silent, where nothing
-- else changes the registry during the scan. The agents that it reports are the events that it
-- publishes.
use mathlib.Core.Path.{subst}
use vault_fleet.Prelude.{
  arith, ℕ, ◌-◌, ◌≡◌, refl, sym, ap, ◌∙◌, Bool, true, false, not, ◌&&◌, ◌||◌, inl, inr, Bool-cases,
  Option, none, some, List, [], ◌∷◌, ltb, leb, Text, text_eq, text_eq_iff, text_eq_refl, text_elem,
  if◌then◌else◌,
}
use vault_fleet.Hub.{AgentStatus, Agents, find_agent, set_agent, mark_offline_if_stale}
use vault_fleet.Hub.Registry.{find-set}

abbrev pub scan_marked : Text → Agents × Bool → (Agents → Agents × List Text) → Agents × List Text
scan_marked a (hub, true) rest = ((rest hub).0, a ∷ (rest hub).1)
scan_marked a (hub, false) rest = rest hub

-- The loop over the copy that `GetAllAgents` has made.
unfoldable pub scan_each : ℕ → ℕ → Agents → Agents → Agents × List Text
unfolding mark_offline_if_stale
scan_each now threshold [] hub = (hub, [])
scan_each now threshold (e ∷ es) hub =
    if not e.1.online || leb (now - e.1.last_seen_at) threshold
    then scan_each now threshold es hub
    else scan_marked e.0 (mark_offline_if_stale hub e.0 now threshold) (scan_each now threshold es)

unfoldable pub scan : ℕ → ℕ → Agents → Agents × List Text
unfolding scan_each
scan now threshold hub = scan_each now threshold hub hub

-- An agent that a scan has to find.
abbrev pub is_stale : ℕ → ℕ → AgentStatus → Bool
is_stale now threshold s = s.online && ltb threshold (now - s.last_seen_at)

abbrev pub scanned : ℕ → ℕ → AgentStatus → AgentStatus
scanned now threshold s = if is_stale now threshold s then record s { online = false } else s

-- Identifiers that occur once, as in a map.
abbrev pub DistinctAgents : Agents → Type 0
DistinctAgents [] = Unit {0}
DistinctAgents (e ∷ es) = (find_agent e.0 es ≡ none) × DistinctAgents es

abbrev pub scanned_of : ℕ → ℕ → Option AgentStatus → Option AgentStatus → Option AgentStatus
scanned_of now threshold none other = other
scanned_of now threshold (some s) other = some (scanned now threshold s)

abbrev pub stale_of : ℕ → ℕ → Option AgentStatus → Bool
stale_of now threshold none = false
stale_of now threshold (some s) = is_stale now threshold s

-- What a loop over `es` makes of one agent, where the registry still has what `es` has.
abbrev Scans : ℕ → ℕ → Agents → Agents → Text → Type 0
Scans now threshold es hub a =
    (find_agent a (scan_each now threshold es hub).0
      ≡ scanned_of now threshold (find_agent a es) (find_agent a hub))
    × (text_elem a (scan_each now threshold es hub).1 ≡ stale_of now threshold (find_agent a es))

marked_stale :
    (now threshold : ℕ) (a : Text) (s : AgentStatus) (hub : Agents)
    → is_stale now threshold s ≡ true
    → find_agent a hub ≡ some s
    → mark_offline_if_stale hub a now threshold
      ≡ (set_agent a (record s { online = false }) hub, true)
unfolding mark_offline_if_stale
marked_stale now threshold a s hub h f = rw (f, h) refl

-- An agent that stands behind another is not the other.
behind_differs :
    (e : Text × AgentStatus) (es : Agents) (b : Text) (s : AgentStatus)
    → find_agent e.0 es ≡ none
    → find_agent b es ≡ some s
    → text_eq e.0 b ≡ false
behind_differs e es b s n f = elim (Bool-cases (text_eq e.0 b)) [
  | inl x ↦
      let same : find_agent b es ≡ none =
        subst (λ c. find_agent c es ≡ none) ((text_eq_iff e.0 b).0 x) n in
      absurd (ground (arith, sym f ∙ same))
  | inr x ↦ x
]

find-cons :
    (e : Text × AgentStatus) (es : Agents) (b : Text)
    → find_agent b (e ∷ es) ≡ (if text_eq e.0 b then some e.1 else find_agent b es)
unfolding find_agent
find-cons e es b = refl

-- The registry still has what the rest of the copy has, as it is or with one other agent written.
rest_kept :
    (e : Text × AgentStatus) (es hub : Agents)
    → find_agent e.0 es ≡ none
    → ((b : Text) (s : AgentStatus) → find_agent b (e ∷ es) ≡ some s → find_agent b hub ≡ some s)
    → (b : Text) (s : AgentStatus) → find_agent b es ≡ some s
    → find_agent b hub ≡ some s
rest_kept e es hub n h b s f = h b s (find-cons e es b ∙ rw (behind_differs e es b s n f) f)

written_kept :
    (e : Text × AgentStatus) (u : AgentStatus) (es hub : Agents)
    → find_agent e.0 es ≡ none
    → ((b : Text) (s : AgentStatus) → find_agent b (e ∷ es) ≡ some s → find_agent b hub ≡ some s)
    → (b : Text) (s : AgentStatus) → find_agent b es ≡ some s
    → find_agent b (set_agent e.0 u hub) ≡ some s
written_kept e u es hub n h b s f =
    find-set e.0 b u hub ∙ rw (behind_differs e es b s n f) (rest_kept e es hub n h b s f)

stale_test :
    (now threshold : ℕ) (s : AgentStatus)
    → (not s.online || leb (now - s.last_seen_at) threshold) ≡ not (is_stale now threshold s)
stale_test now threshold s = ground arith

stale_step :
    (now threshold : ℕ) (e : Text × AgentStatus) (es hub : Agents)
    → is_stale now threshold e.1 ≡ true
    → find_agent e.0 hub ≡ some e.1
    → scan_each now threshold (e ∷ es) hub
      ≡ scan_marked e.0
          (set_agent e.0 (record e.1 { online = false }) hub, true)
          (scan_each now threshold es)
unfolding scan_each
stale_step now threshold e es hub x f =
    rw (stale_test now threshold e.1, x, marked_stale now threshold e.0 e.1 hub x f) refl

fresh_step :
    (now threshold : ℕ) (e : Text × AgentStatus) (es hub : Agents)
    → is_stale now threshold e.1 ≡ false
    → scan_each now threshold (e ∷ es) hub ≡ scan_each now threshold es hub
unfolding scan_each
fresh_step now threshold e es hub x = rw (stale_test now threshold e.1, x) refl

scan_each-Scans :
    (now threshold : ℕ) (es hub : Agents) (a : Text)
    → DistinctAgents es
    → ((b : Text) (s : AgentStatus) → find_agent b es ≡ some s → find_agent b hub ≡ some s)
    → Scans now threshold es hub a
unfolding scan_each find_agent text_elem
scan_each-Scans now threshold [] hub a d h = (refl, refl)
scan_each-Scans now threshold (e ∷ es) hub a d h =
    let held = h e.0 e.1 (find-cons e es e.0 ∙ rw (text_eq_refl e.0) refl) in
    elim (Bool-cases (is_stale now threshold e.1)) [
      | inl x ↦
          let u : AgentStatus = record e.1 { online = false } in
          let hub' = set_agent e.0 u hub in
          let r = scan_each-Scans now threshold es hub' a d.1 (written_kept e u es hub d.0 h) in
          subst
            (λ o.
              (find_agent a o.0
                ≡ scanned_of now threshold (find_agent a (e ∷ es)) (find_agent a hub))
              × (text_elem a o.1 ≡ stale_of now threshold (find_agent a (e ∷ es))))
            (sym (stale_step now threshold e es hub x held))
            (elim (Bool-cases (text_eq e.0 a)) [
              | inl y ↦
                  let gone : find_agent a es ≡ none =
                    subst (λ c. find_agent c es ≡ none) ((text_eq_iff e.0 a).0 y) d.0 in
                  rw (y, x)
                    (
                      r.0
                          ∙ ap (λ o. scanned_of now threshold o (find_agent a hub')) gone
                          ∙ find-set e.0 a u hub
                          ∙ rw y refl,
                      refl,
                    )
              | inr y ↦ rw y (
                r.0
                    ∙ ap (scanned_of now threshold (find_agent a es))
                        (find-set e.0 a u hub ∙ rw y refl),
                r.1,
              )
            ])
      | inr x ↦
          let r = scan_each-Scans now threshold es hub a d.1 (rest_kept e es hub d.0 h) in
          subst
            (λ o.
              (find_agent a o.0
                ≡ scanned_of now threshold (find_agent a (e ∷ es)) (find_agent a hub))
              × (text_elem a o.1 ≡ stale_of now threshold (find_agent a (e ∷ es))))
            (sym (fresh_step now threshold e es hub x))
            (elim (Bool-cases (text_eq e.0 a)) [
              | inl y ↦
                  let gone : find_agent a es ≡ none =
                    subst (λ c. find_agent c es ≡ none) ((text_eq_iff e.0 a).0 y) d.0 in
                  rw (y, x)
                    (
                      r.0
                          ∙ ap (λ o. scanned_of now threshold o (find_agent a hub)) gone
                          ∙ h a e.1 (find-cons e es a ∙ rw y refl),
                      r.1 ∙ ap (stale_of now threshold) gone,
                    )
              | inr y ↦ rw y r
            ])
    ]

-- Where each agent is in the registry once: a scan takes exactly the agents offline that are online and
-- have been silent for longer than the threshold, leaves their other fields and all other agents as
-- they were, and reports exactly these agents.
pub scan_finds_stale :
    (now threshold : ℕ) (hub : Agents) (a : Text)
    → DistinctAgents hub
    → (find_agent a (scan now threshold hub).0 ≡ scanned_of now threshold (find_agent a hub) none)
      × (text_elem a (scan now threshold hub).1 ≡ stale_of now threshold (find_agent a hub))
unfolding scan
scan_finds_stale now threshold hub a d =
    let r = scan_each-Scans now threshold hub hub a d (λ b s f. f) in
    (r.0 ∙ known (find_agent a hub), r.1)
  where
    known :
        (o : Option AgentStatus) → scanned_of now threshold o o ≡ scanned_of now threshold o none
    known none = refl
    known (some s) = refl
