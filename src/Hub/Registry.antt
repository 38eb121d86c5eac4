-- ===== src/Hub/Registry.antt =====
-- The registry of internal/master/ws/hub.go while an agent reconnects.
use mathlib.Core.Path.{subst}
use vault_fleet.Prelude.{
  ℕ, ◌≡◌, refl, inl, inr, Bool, true, false, not, ◌&&◌, Option, none, some, List, [], ◌∷◌, arith,
  Text, text_eq, text_eq_iff, ==_iff, Bool-cases, if◌then◌else◌, ltb, ◌-◌,
}
use vault_fleet.Hub.{
  AgentStatus, Agents, find_agent, delete_agent, set_agent, add, remove, remove_if_current,
  update_last_seen, mark_offline, mark_offline_if_stale, mark_online, same_conn, removed_if, seen,
  marked,
}

find-delete_other :
    (a b : Text) (es : Agents)
    → text_eq a b ≡ false
    → find_agent b (delete_agent a es) ≡ find_agent b es
unfolding find_agent delete_agent
find-delete_other a b [] n = refl
find-delete_other a b (x ∷ es) n =
    ground
      (arith, n, find-delete_other a b es, text_eq_iff x.0 a, text_eq_iff x.0 b, text_eq_iff a b)

pub find-set :
    (a b : Text) (s : AgentStatus) (es : Agents)
    → find_agent b (set_agent a s es) ≡ (if text_eq a b then some s else find_agent b es)
unfolding set_agent find_agent delete_agent
find-set a b s es = elim (Bool-cases (text_eq a b)) [
  | inl e ↦ rw e refl
  | inr e ↦ rw e (find-delete_other a b es e)
]

-- What other goroutines do to the registry between two events of one agent's connection.
pub data Event : Type 0 where
  adds : Text → Option ℕ → ℕ → Event
  removes : Text → Event
  removes_if_current : Text → Option ℕ → Event
  sees : Text → ℕ → Event
  marks_offline : Text → Event
  marks_stale : Text → ℕ → ℕ → Event
  marks_online : Text → Event

unfoldable pub after : Agents → Event → Agents
after es (adds a c t) = (add es a c t).0
after es (removes a) = (remove es a).0
after es (removes_if_current a c) = (remove_if_current es a c).0
after es (sees a t) = update_last_seen es a t
after es (marks_offline a) = (mark_offline es a).0
after es (marks_stale a now threshold) = (mark_offline_if_stale es a now threshold).0
after es (marks_online a) = (mark_online es a).0

unfoldable pub after_all : Agents → List Event → Agents
after_all es [] = es
after_all es (v ∷ vs) = after_all (after es v) vs

-- The events that leave an agent's connection in place: none of them is a new connection of the agent,
-- its removal, or the end of this connection.
unfoldable pub spares : Text → ℕ → Event → Bool
spares a c (adds b d t) = not (text_eq b a)
spares a c (removes b) = not (text_eq b a)
spares a c (removes_if_current b d) = not (text_eq b a && same_conn (some c) d)
spares a c _ = true

unfoldable pub all_spare : Text → ℕ → List Event → Bool
all_spare a c [] = true
all_spare a c (v ∷ vs) = spares a c v && all_spare a c vs

-- The agent is registered with this connection.
abbrev pub connected : Text → ℕ → Option AgentStatus → Bool
connected a c none = false
connected a c (some s) = same_conn s.conn (some c)

same_conn_trans :
    (x d : Option ℕ) (c : ℕ)
    → same_conn x (some c) ≡ true
    → same_conn x d ≡ true
    → same_conn (some c) d ≡ true
same_conn_trans none d c h k = absurd (ground (arith, h))
same_conn_trans (some n) none c h k = absurd (ground (arith, k))
same_conn_trans (some n) (some m) c h k = ground (arith, h, k, ==_iff n c, ==_iff n m, ==_iff c m)

-- A write that keeps the connection of the agent it is about.
set-connected :
    (a b : Text) (c : ℕ) (s u : AgentStatus) (es : Agents)
    → find_agent b es ≡ some s
    → u.conn ≡ s.conn
    → connected a c (find_agent a es) ≡ true
    → connected a c (find_agent a (set_agent b u es)) ≡ true
set-connected a b c s u es f k h = elim (Bool-cases (text_eq b a)) [
  | inl e ↦
      let same : connected a c (find_agent b es) ≡ true = rw ((text_eq_iff b a).0 e) h in
      rw (find-set b a u es, e, k) (subst (λ o. connected a c o ≡ true) f same)
  | inr e ↦ rw (find-set b a u es, e) h
]

removed-connected :
    (a b : Text) (c : ℕ) (d : Option ℕ) (o : Option AgentStatus) (es : Agents)
    → find_agent b es ≡ o
    → spares a c (removes_if_current b d) ≡ true
    → connected a c (find_agent a es) ≡ true
    → connected a c (find_agent a (removed_if es b d o).0) ≡ true
unfolding spares
removed-connected a b c d none es f p h = h
removed-connected a b c d (some s) es f p h = elim (Bool-cases (text_eq b a)) [
  | inl e ↦
      let same : connected a c (find_agent b es) ≡ true = rw ((text_eq_iff b a).0 e) h in
      let held : same_conn s.conn (some c) ≡ true = subst (λ o. connected a c o ≡ true) f same in
      elim (Bool-cases (same_conn s.conn d)) [
        | inl k ↦ absurd (ground (arith, p, e, same_conn_trans s.conn d c held k))
        | inr k ↦ rw k h
      ]
  | inr e ↦ ground (arith, h, find-delete_other b a es e)
]

marked-connected :
    (a b : Text) (c : ℕ) (online : Bool) (p : AgentStatus → Bool) (o : Option AgentStatus)
    (es : Agents)
    → find_agent b es ≡ o
    → connected a c (find_agent a es) ≡ true
    → connected a c (find_agent a (marked es b online p o).0) ≡ true
marked-connected a b c online p none es f h = h
marked-connected a b c online p (some s) es f h = elim (Bool-cases (p s)) [
  | inl e ↦ rw e (set-connected a b c s (record s { online = online }) es f refl h)
  | inr e ↦ rw e h
]

seen-connected :
    (a b : Text) (c t : ℕ) (o : Option AgentStatus) (es : Agents)
    → find_agent b es ≡ o
    → connected a c (find_agent a es) ≡ true
    → connected a c (find_agent a (seen es b t o)) ≡ true
seen-connected a b c t none es f h = h
seen-connected a b c t (some s) es f h =
    set-connected a b c s (record s { last_seen_at = t }) es f refl h

after-connected :
    (a : Text) (c : ℕ) (v : Event) (es : Agents)
    → spares a c v ≡ true
    → connected a c (find_agent a es) ≡ true
    → connected a c (find_agent a (after es v)) ≡ true
unfolding after spares add remove remove_if_current update_last_seen mark_offline
    mark_offline_if_stale mark_online
after-connected a c (adds b d t) es p h =
    let s : AgentStatus = record { conn = d; online = true; last_seen_at = t } in
    ground (arith, p, h, find-set b a s es)
after-connected a c (removes b) es p h = ground (arith, p, h, find-delete_other b a es)
after-connected a c (removes_if_current b d) es p h =
    removed-connected a b c d (find_agent b es) es refl p h
after-connected a c (sees b t) es p h = seen-connected a b c t (find_agent b es) es refl h
after-connected a c (marks_offline b) es p h =
    marked-connected a b c false (λ s. s.online) (find_agent b es) es refl h
after-connected a c (marks_stale b now threshold) es p h =
    marked-connected a b c false (λ s. s.online && ltb threshold (now - s.last_seen_at))
      (find_agent b es) es refl h
after-connected a c (marks_online b) es p h =
    marked-connected a b c true (λ s. not s.online) (find_agent b es) es refl h

-- An agent that is registered with a connection stays registered with it whatever else happens to the
-- registry, as long as nothing adds another connection of the agent, ends this one or removes the
-- agent: heartbeats, scans for stale agents, other agents' connections and removals, and the late end
-- of an older connection of the same agent all leave it.
pub connection_survives :
    (a : Text) (c : ℕ) (vs : List Event) (es : Agents)
    → connected a c (find_agent a es) ≡ true
    → all_spare a c vs ≡ true
    → connected a c (find_agent a (after_all es vs)) ≡ true
unfolding after_all all_spare
connection_survives a c [] es h p = h
connection_survives a c (v ∷ vs) es h p =
    connection_survives a c vs (after es v) (after-connected a c v es (ground (arith, p)) h)
      (ground (arith, p))
