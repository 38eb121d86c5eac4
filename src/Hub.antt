-- ===== src/Hub.antt =====
-- The web socket hub of the master, internal/master/ws/hub.go: the connected agents, and the requests
-- that wait for a response. A connection and a waiter are named by numbers. The map of maps of the
-- waiters is one list with both keys: an inner map without entries is never told from none.
pub mod System
mod Waiters
pub mod Once
pub mod Registry
pub mod Monitor
mod Examples
use vault_fleet.Prelude.{
  suc, ℕ, Bool, true, false, not, ◌&&◌, ◌||◌, Option, none, some, List, [], ◌∷◌, ltb, leb, ◌==◌,
  ◌-◌, Text, codes, text_eq, is_empty, if◌then◌else◌,
}

pub record AgentStatus : Type 0 where
  pub conn : Option ℕ
  pub online : Bool
  pub last_seen_at : ℕ

abbrev pub Agents : Type 0
Agents = List (Text × AgentStatus)

unfoldable pub find_agent : Text → Agents → Option AgentStatus
find_agent a [] = none
find_agent a (e ∷ es) = if text_eq e.0 a then some e.1 else find_agent a es

unfoldable pub delete_agent : Text → Agents → Agents
delete_agent a [] = []
delete_agent a (e ∷ es) = if text_eq e.0 a then delete_agent a es else e ∷ delete_agent a es

-- `h.agents[agentID] = status`, and a write through its pointer.
unfoldable pub set_agent : Text → AgentStatus → Agents → Agents
unfolding delete_agent
set_agent a status es = (a, status) ∷ delete_agent a es

abbrev pub same_conn : Option ℕ → Option ℕ → Bool
same_conn none none = true
same_conn none (some d) = false
same_conn (some c) none = false
same_conn (some c) (some d) = c == d

-- The connection that `Add` closes: the agent's previous one.
abbrev pub replaced_conn : Option AgentStatus → Option ℕ → Option ℕ
replaced_conn none conn = none
replaced_conn (some status) conn = if same_conn status.conn conn then none else status.conn

unfoldable pub add : Agents → Text → Option ℕ → ℕ → Agents × Option ℕ
unfolding set_agent find_agent
add agents a conn now = (
  set_agent a (record { conn = conn; online = true; last_seen_at = now }) agents,
  replaced_conn (find_agent a agents) conn,
)

abbrev pub conn_of : Option AgentStatus → Option ℕ
conn_of none = none
conn_of (some status) = status.conn

-- `Remove`, with the connection that it closes.
unfoldable pub remove : Agents → Text → Agents × Option ℕ
unfolding delete_agent find_agent
remove agents a = (delete_agent a agents, conn_of (find_agent a agents))

-- The connection that `Send` writes to; none is `ErrAgentNotConnected`.
abbrev pub conn_if_online : Option AgentStatus → Option ℕ
conn_if_online none = none
conn_if_online (some status) = if status.online then status.conn else none

unfoldable pub send_conn : Agents → Text → Option ℕ
unfolding find_agent
send_conn agents a = conn_if_online (find_agent a agents)

abbrev pub removed_if : Agents → Text → Option ℕ → Option AgentStatus → Agents × Bool × Bool
removed_if agents a conn none = (agents, false, false)
removed_if agents a conn (some status) =
    if same_conn status.conn conn
    then (delete_agent a agents, true, status.online)
    else (agents, false, false)

-- `RemoveIfCurrent`: was the connection current, and was the agent online?
unfoldable pub remove_if_current : Agents → Text → Option ℕ → Agents × Bool × Bool
unfolding delete_agent find_agent
remove_if_current agents a conn = removed_if agents a conn (find_agent a agents)

abbrev pub online_of : Option AgentStatus → Bool
online_of none = false
online_of (some status) = status.online

unfoldable pub is_online : Agents → Text → Bool
unfolding find_agent
is_online agents a = online_of (find_agent a agents)

abbrev pub seen : Agents → Text → ℕ → Option AgentStatus → Agents
seen agents a t none = agents
seen agents a t (some status) = set_agent a (record status { last_seen_at = t }) agents

unfoldable pub update_last_seen : Agents → Text → ℕ → Agents
unfolding set_agent find_agent
update_last_seen agents a t = seen agents a t (find_agent a agents)

-- An agent is marked where a condition holds of its status.
abbrev pub marked : Agents → Text → Bool → (AgentStatus → Bool) → Option AgentStatus → Agents × Bool
marked agents a online p none = (agents, false)
marked agents a online p (some status) =
    if p status
    then (set_agent a (record status { online = online }) agents, true)
    else (agents, false)

unfoldable pub mark_offline : Agents → Text → Agents × Bool
unfolding set_agent find_agent
mark_offline agents a = marked agents a false (λ s. s.online) (find_agent a agents)

-- `now.Sub(status.LastSeenAt) > threshold`, which is false of a time after `now`.
unfoldable pub mark_offline_if_stale : Agents → Text → ℕ → ℕ → Agents × Bool
unfolding set_agent find_agent
mark_offline_if_stale agents a now threshold =
    marked agents a false (λ s. s.online && ltb threshold (now - s.last_seen_at))
      (find_agent a agents)

unfoldable pub mark_online : Agents → Text → Agents × Bool
unfolding set_agent find_agent
mark_online agents a = marked agents a true (λ s. not s.online) (find_agent a agents)

unfoldable pub online_agent_count : Agents → ℕ
online_agent_count [] = 0
online_agent_count (e ∷ es) =
    if e.1.online then suc (online_agent_count es) else online_agent_count es

unfoldable pub expected_response_type : Text → Option Text
expected_response_type t =
    if text_eq t (codes "dir_browse_req")
    then some (codes "dir_browse_resp")
    else if text_eq t (codes "dir_size_req")
    then some (codes "dir_size_resp")
    else if text_eq t (codes "docker_discovery_req")
    then some (codes "docker_discovery_resp")
    else if text_eq t (codes "database_discovery_req")
    then some (codes "database_discovery_resp")
    else if text_eq t (codes "snapshot_list_req")
    then some (codes "snapshot_list_resp")
    else if text_eq t (codes "snapshot_browse_req")
    then some (codes "snapshot_browse_resp")
    else if text_eq t (codes "restore_preflight_req")
    then some (codes "restore_preflight_resp")
    else if text_eq t (codes "collect_logs_req")
    then some (codes "collect_logs_resp")
    else if text_eq t (codes "update_agent")
    then some (codes "update_agent_resp")
    else none

pub record Message : Type 0 where
  pub id : Text
  pub type : Text
  pub payload : Text

-- The checks at the start of `SendAndWait`, with the type of the response; none is an error.
unfoldable pub awaited_type : Message → Option Text
unfolding expected_response_type
awaited_type m = if is_empty m.id then none else expected_response_type m.type

-- An entry of the waiters' map; `waiter` names the waiter.
pub record Entry : Type 0 where
  pub agent_id : Text
  pub message_id : Text
  pub waiter : ℕ

abbrev pub has_key : Text → Text → Entry → Bool
has_key a i e = text_eq e.agent_id a && text_eq e.message_id i

unfoldable pub find_waiter : Text → Text → List Entry → Option ℕ
find_waiter a i [] = none
find_waiter a i (e ∷ es) = if has_key a i e then some e.waiter else find_waiter a i es

unfoldable pub delete_waiter : Text → Text → List Entry → List Entry
delete_waiter a i [] = []
delete_waiter a i (e ∷ es) =
    if has_key a i e then delete_waiter a i es else e ∷ delete_waiter a i es

-- The locked section of `SendAndWait`.
unfoldable pub register : Text → Text → ℕ → List Entry → List Entry
unfolding delete_waiter
register a i n es = record { agent_id = a; message_id = i; waiter = n } ∷ delete_waiter a i es

unfoldable pub has_waiter : Text → Text → List Entry → Bool
unfolding find_waiter
has_waiter a i es = elim (find_waiter a i es) [ none ↦ false | some n ↦ true ]

abbrev pub removed_waiter : Text → Text → ℕ → List Entry → Option ℕ → List Entry × Bool
removed_waiter a i n es none = (es, false)
removed_waiter a i n es (some m) = if m == n then (delete_waiter a i es, true) else (es, false)

-- `removeWaiter`: the entry goes only if it still is this waiter's.
unfoldable pub remove_waiter : Text → Text → ℕ → List Entry → List Entry × Bool
unfolding find_waiter delete_waiter
remove_waiter a i n es = removed_waiter a i n es (find_waiter a i es)

abbrev pub taken_waiter :
    Text → Message → (ℕ → Text) → List Entry → Option ℕ → List Entry × Option ℕ
taken_waiter a m expected es none = (es, none)
taken_waiter a m expected es (some n) =
    if not (is_empty (expected n)) && not (text_eq m.type (expected n))
    then (es, none)
    else (delete_waiter a m.id es, some n)

-- The locked section of `HandleResponse`, with the waiter that it takes, if it returns true.
unfoldable pub handle_response : Text → Message → (ℕ → Text) → List Entry → List Entry × Option ℕ
unfolding find_waiter delete_waiter
handle_response a m expected es = taken_waiter a m expected es (find_waiter a m.id es)
