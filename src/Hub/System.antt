-- ===== src/Hub/System.antt =====
-- The requests that wait for a response over time: the sections of `SendAndWait`, `HandleResponse` and
-- `timeoutWaiter` of internal/master/ws/hub.go, and what each does to its waiter's channels.
use vault_fleet.Prelude.{
  ℕ, suc, ◌≡◌, Bool, true, false, some, List, [], ◌∷◌, ◌++◌, Text, ◌==◌, if◌then◌else◌,
}
use vault_fleet.Hub.{awaited_type, Message, Entry, register, remove_waiter, handle_response}

-- A waiter: its response channel, which holds one message, and its `done` channel.
pub record Waiter : Type 0 where
  pub expected_type : Text
  pub buffer : List Message
  pub closed : Bool
  pub done : Bool

abbrev pub waiting : Text → Waiter
waiting t = record { expected_type = t; buffer = []; closed = false; done = false }

-- A request under way, by its keys and its waiter.
pub record Request : Type 0 where
  pub agent_id : Text
  pub message_id : Text
  pub waiter : ℕ

-- `sending` are before their `Send`, `timing` have a timer; `delivering` and `expiring` have left the
-- map, and are about to write to and close their channel.
pub record System : Type 0 where
  pub entries : List Entry
  pub waiters : ℕ → Waiter
  pub made : ℕ
  pub sending : List Request
  pub timing : List Request
  pub delivering : List (ℕ × Message)
  pub expiring : List ℕ

abbrev pub initial : System
initial = record {
  entries = [];
  waiters = λ n. waiting [];
  made = 0;
  sending = [];
  timing = [];
  delivering = [];
  expiring = [];
}

abbrev pub put : (ℕ → Waiter) → ℕ → Waiter → ℕ → Waiter
put f n w m = if m == n then w else f m

abbrev pub finished : Waiter → Waiter
finished w = record w { done = true }

-- `finish`, the send on the channel, and its `close`.
abbrev pub delivered : Message → Waiter → Waiter
delivered m w = record w { done = true; buffer = w.buffer ++ m ∷ []; closed = true }

-- `close` and `finish`.
abbrev pub expired : Waiter → Waiter
expired w = record w { done = true; closed = true }

abbrev pub expected : System → ℕ → Text
expected s n = (s.waiters n).expected_type

pub data Step : System → System → Type 0 where
  registers :
      (s : System) (a : Text) (m : Message) (t : Text)
      → awaited_type m ≡ some t
      → Step s (record s {
        entries = register a m.id s.made s.entries;
        waiters = put s.waiters s.made (waiting t);
        made = suc s.made;
        sending = record { agent_id = a; message_id = m.id; waiter = s.made } ∷ s.sending;
      })
  sends :
      (s : System) (before : List Request) (r : Request) (after : List Request)
      → s.sending ≡ before ++ r ∷ after
      → Step s (record s { sending = before ++ after; timing = r ∷ s.timing })
  send_fails :
      (s : System) (before : List Request) (r : Request) (after : List Request)
      → s.sending ≡ before ++ r ∷ after
      → Step s (record s {
        sending = before ++ after;
        entries = (remove_waiter r.agent_id r.message_id r.waiter s.entries).0;
        waiters = put s.waiters r.waiter (finished (s.waiters r.waiter));
      })
  responds :
      (s : System) (a : Text) (m : Message) (n : ℕ)
      → (handle_response a m (expected s) s.entries).1 ≡ some n
      → Step s (record s {
        entries = (handle_response a m (expected s) s.entries).0;
        delivering = (n, m) ∷ s.delivering;
      })
  delivers :
      (s : System) (before : List (ℕ × Message)) (n : ℕ) (m : Message) (after : List (ℕ × Message))
      → s.delivering ≡ before ++ (n, m) ∷ after
      → Step s (record s {
        delivering = before ++ after;
        waiters = put s.waiters n (delivered m (s.waiters n));
      })
  times_out :
      (s : System) (before : List Request) (r : Request) (after : List Request)
      → s.timing ≡ before ++ r ∷ after
      → (remove_waiter r.agent_id r.message_id r.waiter s.entries).1 ≡ true
      → Step s (record s {
        timing = before ++ after;
        entries = (remove_waiter r.agent_id r.message_id r.waiter s.entries).0;
        expiring = r.waiter ∷ s.expiring;
      })
  stops_timing :
      (s : System) (before : List Request) (r : Request) (after : List Request)
      → s.timing ≡ before ++ r ∷ after
      → (s.waiters r.waiter).done ≡ true
      → Step s (record s { timing = before ++ after })
  expires :
      (s : System) (before : List ℕ) (n : ℕ) (after : List ℕ)
      → s.expiring ≡ before ++ n ∷ after
      → Step s (record s {
        expiring = before ++ after;
        waiters = put s.waiters n (expired (s.waiters n));
      })

pub data Reach : System → Type 0 where
  here : Reach initial
  next : {s t : System} → Reach s → Step s t → Reach t
