-- ===== src/Hub/Examples.antt =====
-- Runs of the hub of internal/master/ws/hub.go.
use vault_fleet.Prelude.{
  none, text_elem, text_eq, codes, ℕ, ◌≤◌, ◌≡◌, refl, true, false, some, List, [], ◌∷◌, ◌++◌,
  length, Text,
}
use vault_fleet.Hub.{
  mark_offline_if_stale, awaited_type, expected_response_type, Message, Agents, find_agent,
  register,
}
use vault_fleet.Hub.System.{System, initial, waiting, put, registers, Reach, here, next}
use vault_fleet.Hub.Once.{channel_used_once}
use vault_fleet.Hub.Monitor.{
  DistinctAgents, scan, scan_each, scanned_of, stale_of, scan_finds_stale,
}
use vault_fleet.Hub.Registry.{
  Event, adds, removes_if_current, sees, after_all, spares, all_spare, connected,
  connection_survives,
}

abbrev agent_one : Text
agent_one = 1 ∷ []

abbrev one_request : System
one_request = record initial {
  entries = register agent_one (2 ∷ []) 0 [];
  waiters = put initial.waiters 0 (waiting (codes "dir_browse_resp"));
  made = 1;
  sending = record { agent_id = agent_one; message_id = 2 ∷ []; waiter = 0 } ∷ [];
}

abbrev browse : Message
browse = record { id = 2 ∷ []; type = codes "dir_browse_req"; payload = [] }

browse-awaited : awaited_type browse ≡ some (codes "dir_browse_resp")
unfolding awaited_type expected_response_type text_eq
browse-awaited = refl

requested : Reach one_request
requested = next here (registers initial agent_one browse (codes "dir_browse_resp") browse-awaited)

channel_used_once_example :
    ((before : List (ℕ × Message)) (n : ℕ) (m : Message) (after : List (ℕ × Message))
      → one_request.delivering ≡ before ++ (n, m) ∷ after
      → ((one_request.waiters n).closed ≡ false) × ((one_request.waiters n).buffer ≡ []))
    × ((before : List ℕ) (n : ℕ) (after : List ℕ)
        → one_request.expiring ≡ before ++ n ∷ after
        → (one_request.waiters n).closed ≡ false)
    × ((n : ℕ) → length (one_request.waiters n).buffer ≤ 1)
channel_used_once_example = channel_used_once one_request requested

-- Connection 5 of an agent has replaced connection 4, whose end comes late.
abbrev reconnected : Agents
reconnected = (agent_one, record { conn = some 5; online = true; last_seen_at = 9 }) ∷ []

abbrev late_events : List Event
late_events =
    removes_if_current agent_one (some 4) ∷ sees agent_one 12 ∷ adds (2 ∷ []) (some 6) 13 ∷ []

reconnected-connected : connected agent_one 5 (find_agent agent_one reconnected) ≡ true
unfolding find_agent text_eq
reconnected-connected = refl

late_events-spare : all_spare agent_one 5 late_events ≡ true
unfolding all_spare spares text_eq
late_events-spare = refl

connection_survives_example :
    connected agent_one 5 (find_agent agent_one (after_all reconnected late_events)) ≡ true
connection_survives_example =
    connection_survives agent_one 5 late_events reconnected reconnected-connected late_events-spare

-- Agent one is online, and silent since 3.
abbrev silent : Agents
silent =
    (agent_one, record { conn = some 5; online = true; last_seen_at = 3 })
    ∷ (2 ∷ [], record { conn = some 6; online = true; last_seen_at = 90 })
    ∷ []

silent-DistinctAgents : DistinctAgents silent
unfolding find_agent text_eq
silent-DistinctAgents = (refl, (refl, tt))

reported : (scan 100 60 silent).1 ≡ agent_one ∷ []
unfolding scan scan_each mark_offline_if_stale find_agent text_eq
reported = refl

scan_finds_stale_example :
    (find_agent agent_one (scan 100 60 silent).0
      ≡ scanned_of 100 60 (find_agent agent_one silent) none)
    × (text_elem agent_one (scan 100 60 silent).1 ≡ stale_of 100 60 (find_agent agent_one silent))
scan_finds_stale_example = scan_finds_stale 100 60 silent agent_one silent-DistinctAgents
