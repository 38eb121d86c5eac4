-- ===== src/Hub/Once.antt =====
-- The response channels of internal/master/ws/hub.go: each is closed once, and gets one message at most.
use vault_fleet.Prelude.{
  count_where-middle, ℕ, suc, ◌+◌, ◌≤◌, ◌≡◌, refl, sym, ap, ◌∙◌, inl, inr, Bool, true, false, some,
  List, [], ◌∷◌, ◌++◌, arith, Text, count_where, length, ◌==◌, ==_iff, Bool-cases, if◌then◌else◌,
}
use vault_fleet.Hub.{Message, Entry, find_waiter, delete_waiter, register}
use vault_fleet.Hub.System.{
  Waiter, waiting, System, put, finished, delivered, expired, expected, Step, registers, sends,
  send_fails, responds, delivers, times_out, stops_timing, expires, Reach, here, next,
}
use vault_fleet.Hub.Waiters.{
  bit, held_by, delivers_to, is, delete_waiter-le, found_waiter, removed_found, removed-le,
  taken_found, at_same, flip,
}

-- Who may still close a waiter's channel, and whether it is closed.
abbrev owners : System → ℕ → ℕ
owners s n =
    count_where (held_by n) s.entries
    + count_where (delivers_to n) s.delivering
    + count_where (is n) s.expiring
    + bit (s.waiters n).closed

record Sound (s : System) : Type 0 where
  once : (n : ℕ) → owners s n ≤ 1
  fresh : (n : ℕ) → s.made ≤ n → owners s n ≡ 0
  small : (n : ℕ) → length (s.waiters n).buffer ≤ bit (s.waiters n).closed

Sound-shrink :
    (s t : System)
    → t.made ≡ s.made
    → ((n : ℕ) → owners t n ≤ owners s n)
    → ((n : ℕ) → length (t.waiters n).buffer ≤ bit (t.waiters n).closed)
    → Sound s
    → Sound t
Sound-shrink s t same le small w = record {
  once = λ n. omega (arith, le n, w.once n);
  fresh = λ n h. omega (arith, le n, w.fresh n (omega (arith, h, same)));
  small = small;
}

registers-Sound :
    (s : System) (a i t : Text)
    → Sound s
    → Sound (record s {
      entries = register a i s.made s.entries;
      waiters = put s.waiters s.made (waiting t);
      made = suc s.made;
      sending = record { agent_id = a; message_id = i; waiter = s.made } ∷ s.sending;
    })
unfolding register
registers-Sound s a i t w = record {
  once = λ n. elim (Bool-cases (n == s.made)) [
    | inl e ↦
        rw (flip s.made n, e)
          (omega (arith, delete_waiter-le (held_by n) a i s.entries, w.fresh n (ground (arith, e))))
    | inr e ↦
        rw (flip s.made n, e) (omega (arith, delete_waiter-le (held_by n) a i s.entries, w.once n))
  ];
  fresh = λ n h.
      let e : (n == s.made) ≡ false = ground (arith, h) in
      rw (flip s.made n, e)
        (omega (arith, delete_waiter-le (held_by n) a i s.entries, w.fresh n (omega (arith, h))));
  small = λ n. elim (Bool-cases (n == s.made)) [
    | inl e ↦ rw e (omega arith)
    | inr e ↦ rw e (w.small n)
  ];
}

finished_closed :
    (f : ℕ → Waiter) (n m : ℕ)
    → ((put f n (finished (f n)) m).closed ≡ (f m).closed)
      × ((put f n (finished (f n)) m).buffer ≡ (f m).buffer)
finished_closed f n m = elim (Bool-cases (m == n)) [
  | inl e ↦ rw e (ap (λ w. w.closed) (at_same f n m e), ap (λ w. w.buffer) (at_same f n m e))
  | inr e ↦ rw e (refl, refl)
]

-- One less in the map makes up for one more that may close.
taken-le :
    (a i : Text) (n m : ℕ) (es : List Entry) (k : ℕ)
    → find_waiter a i es ≡ some n
    → count_where (held_by m) (delete_waiter a i es) + (if n == m then suc k else k)
      ≤ count_where (held_by m) es + k
taken-le a i n m es k h = elim (Bool-cases (n == m)) [
  | inl e ↦
      let same : n ≡ m = (==_iff n m).0 e in
      rw e (omega (arith, found_waiter a i m es (h ∙ ap some same)))
  | inr e ↦ rw e (omega (arith, delete_waiter-le (held_by m) a i es))
]

-- The last owner closes: what leaves the list of owners closes the channel.
closes-le :
    (e d x : ℕ) (b : Bool) (n m : ℕ)
    → e + (if n == m then suc d else d) + x + bit b ≤ 1
    → e + d + x + bit (if m == n then true else b) ≤ e + (if n == m then suc d else d) + x + bit b
closes-le e d x b n m h = elim (Bool-cases (m == n)) [
  | inl q ↦ rw (flip n m, q) (ground (arith, h, q, flip n m))
  | inr q ↦ rw (flip n m, q) (omega arith)
]

put_closed :
    (f : ℕ → Waiter) (n m : ℕ) (w : Waiter)
    → (put f n w m).closed ≡ (if m == n then w.closed else (f m).closed)
put_closed f n m w = elim (Bool-cases (m == n)) [ inl e ↦ rw e refl | inr e ↦ rw e refl ]

put_small :
    (f : ℕ → Waiter) (n : ℕ) (w : Waiter)
    → length w.buffer ≤ bit w.closed
    → ((m : ℕ) → length (f m).buffer ≤ bit (f m).closed)
    → (m : ℕ) → length (put f n w m).buffer ≤ bit (put f n w m).closed
put_small f n w h hs m = elim (Bool-cases (m == n)) [ inl e ↦ rw e h | inr e ↦ rw e (hs m) ]

-- A waiter that is about to be closed is open and has no message yet.
owned_open :
    (s : System) (n k : ℕ)
    → Sound s
    → suc k + bit (s.waiters n).closed ≤ owners s n
    → (s.waiters n).closed ≡ false
owned_open s n k w h = ground (arith, h, w.once n)

open_empty :
    (s : System) (n : ℕ) → Sound s → (s.waiters n).closed ≡ false → (s.waiters n).buffer ≡ []
open_empty s n w h = no_messages _ (omega (arith, w.small n, ap bit h))
  where
    no_messages : (ms : List Message) → length ms ≤ 0 → ms ≡ []
    no_messages [] le = refl
    no_messages (m ∷ ms) le = absurd (omega (arith, le))

delivering_count :
    (s : System) (before : List (ℕ × Message)) (n : ℕ) (msg : Message) (after : List (ℕ × Message))
    (m : ℕ)
    → s.delivering ≡ before ++ (n, msg) ∷ after
    → count_where (delivers_to m) s.delivering ≡ (
        if n == m
        then suc (count_where (delivers_to m) (before ++ after))
        else count_where (delivers_to m) (before ++ after))
delivering_count s before n msg after m e =
    ap (count_where (delivers_to m)) e ∙ count_where-middle (delivers_to m) before (n, msg) after

expiring_count :
    (s : System) (before : List ℕ) (n : ℕ) (after : List ℕ) (m : ℕ)
    → s.expiring ≡ before ++ n ∷ after
    → count_where (is m) s.expiring ≡ (
        if n == m
        then suc (count_where (is m) (before ++ after))
        else count_where (is m) (before ++ after))
expiring_count s before n after m e =
    ap (count_where (is m)) e ∙ count_where-middle (is m) before n after

delivering_open :
    (s : System) (before : List (ℕ × Message)) (n : ℕ) (msg : Message) (after : List (ℕ × Message))
    → Sound s
    → s.delivering ≡ before ++ (n, msg) ∷ after
    → (s.waiters n).closed ≡ false
delivering_open s before n msg after w e =
    let same : (n == n) ≡ true = (==_iff n n).1 refl in
    let c = delivering_count s before n msg after n e in
    owned_open s n 0 w (ground (arith, same, c))

expiring_open :
    (s : System) (before : List ℕ) (n : ℕ) (after : List ℕ)
    → Sound s
    → s.expiring ≡ before ++ n ∷ after
    → (s.waiters n).closed ≡ false
expiring_open s before n after w e =
    let same : (n == n) ≡ true = (==_iff n n).1 refl in
    let c = expiring_count s before n after n e in owned_open s n 0 w (ground (arith, same, c))

Step-Sound : {s t : System} → Step s t → Sound s → Sound t
Step-Sound (registers s a m t e) w = registers-Sound s a m.id t w
Step-Sound (sends s before r after e) w = Sound-shrink s _ refl (λ n. omega arith) w.small w
Step-Sound (stops_timing s before r after e d) w =
    Sound-shrink s _ refl (λ n. omega arith) w.small w
Step-Sound (send_fails s before r after e) w =
    Sound-shrink s _ refl
      (λ n.
        let c = finished_closed s.waiters r.waiter n in
        rw c.0 (omega (arith, removed-le (held_by n) r.agent_id r.message_id r.waiter s.entries)))
      (put_small s.waiters r.waiter _ (w.small r.waiter) w.small) w
Step-Sound (responds s a m n e) w =
    let f = taken_found a m (expected s) n s.entries e in
    Sound-shrink s _ refl
      (λ k. rw f.1 (
        omega
          (arith, taken-le a m.id n k s.entries (count_where (delivers_to k) s.delivering) f.0)))
      w.small w
Step-Sound (times_out s before r after e h) w =
    let f = removed_found r.agent_id r.message_id r.waiter s.entries h in
    Sound-shrink s _ refl
      (λ k. rw f.1 (
        omega (
          arith,
          taken-le r.agent_id r.message_id r.waiter k s.entries (count_where (is k) s.expiring) f.0,
        )))
      w.small w
Step-Sound (delivers s before n m after e) w =
    let free = delivering_open s before n m after w e in
    Sound-shrink s _ refl
      (λ k.
        let c = delivering_count s before n m after k e in
        rw (put_closed s.waiters n k (delivered m (s.waiters n)), c)
          (closes-le (count_where (held_by k) s.entries)
            (count_where (delivers_to k) (before ++ after)) (count_where (is k) s.expiring)
            (s.waiters k).closed n k (rw (sym c) (w.once k))))
      (put_small s.waiters n _
        (omega (arith, ap (λ b. length (b ++ m ∷ [])) (open_empty s n w free))) w.small)
      w
Step-Sound (expires s before n after e) w =
    let free = expiring_open s before n after w e in
    Sound-shrink s _ refl
      (λ k.
        let c = expiring_count s before n after k e in
        rw (put_closed s.waiters n k (expired (s.waiters n)), c)
          (omega (
            arith,
            closes-le (count_where (held_by k) s.entries + count_where (delivers_to k) s.delivering)
                (count_where (is k) (before ++ after)) 0 (s.waiters k).closed n k
                (omega (arith, c, w.once k)),
          )))
      (put_small s.waiters n _ (omega (arith, ap length (open_empty s n w free))) w.small) w

Reach-Sound : {s : System} → Reach s → Sound s
Reach-Sound here = record {
  once = λ n. omega arith;
  fresh = λ n h. omega arith;
  small = λ n. omega arith;
}
Reach-Sound (next r st) = Step-Sound st (Reach-Sound r)

-- Whatever requests, responses, failures and timeouts there have been, in any interleaving: the
-- channel that a response is about to be sent on is open and empty, one that is about to be closed
-- by a timeout is open, and no channel holds two messages.
pub channel_used_once :
    (s : System)
    → Reach s
    → ((before : List (ℕ × Message)) (n : ℕ) (m : Message) (after : List (ℕ × Message))
        → s.delivering ≡ before ++ (n, m) ∷ after
        → ((s.waiters n).closed ≡ false) × ((s.waiters n).buffer ≡ []))
      × ((before : List ℕ) (n : ℕ) (after : List ℕ)
          → s.expiring ≡ before ++ n ∷ after
          → (s.waiters n).closed ≡ false)
      × ((n : ℕ) → length (s.waiters n).buffer ≤ 1)
channel_used_once s r =
    let w = Reach-Sound r in
    (
      (λ before n m after e.
          let free = delivering_open s before n m after w e in (free, open_empty s n w free)),
      (λ before n after e. expiring_open s before n after w e),
      λ n. ground (arith, w.small n),
    )
