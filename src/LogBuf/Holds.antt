-- ===== src/LogBuf/Holds.antt =====
-- That a write of internal/master/logbuf/logbuf.go keeps the end of what has been written in the buffer.
use mathlib.Core.List.{append-nil, append_assoc}
use native.Mathlib.Nat.{mod-eq_of_lt, mod-eq-sub-mod, mod_self}
use vault_fleet.Prelude.{
  ℕ, ◌+◌, ◌-◌, ◌%◌, ◌≤◌, ◌<◌, ◌≡◌, refl, sym, ap, ◌∙◌, Bool, true, false, ◌||◌, inl, inr, List, [],
  ◌∷◌, ◌++◌, arith, leb, length, length-append, take, drop, Bool-cases, if◌then◌else◌,
}
use vault_fleet.LogBuf.Copies.{
  Cut, cut, overlay-cut, copy_at-cut, take-cut, drop-cut, length-zeros, overlay_whole,
}
use vault_fleet.LogBuf.{RingBuffer, zeros, overlay, copy_at, new, wrapped, write}

-- The abstract buffer: the last `n` bytes of a text.
-- The buffer holds the end of `s`: `head` was written last, and stands before `tail`.
pub record Holds (r : RingBuffer) (s : List ℕ) : Type 0 where
  pub head : List ℕ
  pub tail : List ℕ
  pub older : List ℕ
  pub parts : r.buf ≡ head ++ tail
  pub place : length head ≡ r.pos
  pub size : length head + length tail ≡ r.capacity
  pub short : r.full ≡ false → s ≡ head
  pub long : r.full ≡ true → s ≡ older ++ (tail ++ head)

pub Holds-new : (n : ℕ) → Holds (new n) []
unfolding new
Holds-new n = record {
  head = [];
  tail = zeros n;
  older = [];
  parts = refl;
  place = refl;
  size = omega (arith, length-zeros n);
  short = λ e. refl;
  long = λ e. absurd (ground (arith, e));
}

pub length-parts : (r : RingBuffer) (s : List ℕ) (w : Holds r s) → length r.buf ≡ r.capacity
length-parts r s w = ap length w.parts ∙ length-append w.head w.tail ∙ w.size

-- What a write makes of the buffer, by the three ways it copies.
pub Holds-long :
    (r : RingBuffer) (s p : List ℕ)
    → Holds r s
    → r.capacity ≤ length p
    → Holds
        (record r { buf = copy_at 0 (drop (length p - r.capacity) p) r.buf; pos = 0; full = true })
        (s ++ p)
Holds-long r s p w h =
    let k = length p - r.capacity in
    let c = cut k p (omega arith) in
    let rest : drop k p ≡ c.back = ap (drop k) c.same ∙ drop-cut c.front c.back k c.size in
    let fits : length c.back ≡ r.capacity =
      omega (arith, ap length c.same, length-append c.front c.back, c.size, h) in
    record {
      head = [];
      tail = c.back;
      older = s ++ c.front;
      parts =
          ap (λ q. overlay q r.buf) rest
          ∙ overlay_whole c.back r.buf (fits ∙ sym (length-parts r s w));
      place = refl;
      size = omega (arith, fits);
      short = λ e. absurd (ground (arith, e));
      long = λ e.
          ap (λ q. s ++ q) c.same
          ∙ sym (append_assoc s c.front c.back)
          ∙ ap (λ q. (s ++ c.front) ++ q) (sym (append-nil c.back));
    }

pub no_bytes : (xs : List ℕ) → length xs ≡ 0 → xs ≡ []
no_bytes [] h = refl
no_bytes (x ∷ xs) h = absurd (omega (arith, h))

module _ (r : RingBuffer) (s p : List ℕ) (w : Holds r s) (n : ℕ) (count : length p ≡ n)
    (small : n < r.capacity) where
  -- The copy in one piece.
  one_piece : (c : Cut n w.tail) → copy_at r.pos p r.buf ≡ w.head ++ (p ++ c.back)
  one_piece c =
      ap (copy_at r.pos p) (w.parts ∙ ap (λ t. w.head ++ t) c.same)
      ∙ copy_at-cut w.head p c.front c.back r.pos w.place (count ∙ sym c.size)

  Holds-within :
      (buf : List ℕ) (pos : ℕ) (c : Cut n w.tail)
      → buf ≡ w.head ++ (p ++ c.back)
      → pos ≡ r.pos + n
      → Holds (record r { buf = buf; pos = pos }) (s ++ p)
  Holds-within buf pos c e at = record {
    head = w.head ++ p;
    tail = c.back;
    older = w.older ++ c.front;
    parts = e ∙ sym (append_assoc w.head p c.back);
    place = omega (arith, length-append w.head p, w.place, count, at);
    size = omega (
      arith,
      length-append w.head p,
      length-append c.front c.back,
      ap length c.same,
      c.size,
      count,
      w.size,
    );
    short = λ f. ap (λ t. t ++ p) (w.short f);
    long = λ f.
        ap (λ t. t ++ p) (w.long f ∙ ap (λ t. w.older ++ (t ++ w.head)) c.same)
        ∙ simp append_assoc refl;
  }

  Holds-to_end :
      (buf : List ℕ) (c : Cut n w.tail)
      → buf ≡ w.head ++ (p ++ c.back)
      → c.back ≡ []
      → Holds (record r { buf = buf; pos = 0; full = true }) (s ++ p)
  Holds-to_end buf c e none_left = record {
    head = [];
    tail = w.head ++ p;
    older = if r.full then w.older ++ c.front else [];
    parts = e ∙ ap (λ t. w.head ++ (p ++ t)) none_left ∙ ap (λ t. w.head ++ t) (append-nil p);
    place = refl;
    size = omega (
      arith,
      length-append w.head p,
      length-append c.front c.back,
      ap length c.same,
      c.size,
      count,
      w.size,
      ap length none_left,
    );
    short = λ f. absurd (ground (arith, f));
    long = λ f. elim (Bool-cases r.full) [
      | inl t ↦ rw t (
          ap (λ z. z ++ p)
            (w.long t
              ∙ ap (λ z. w.older ++ (z ++ w.head)) (c.same ∙ ap (λ z. c.front ++ z) none_left))
          ∙ simp (append_assoc, append-nil) refl)
      | inr t ↦ rw t (ap (λ z. z ++ p) (w.short t) ∙ sym (append-nil (w.head ++ p)))
    ];
  }

  Holds-around :
      (buf : List ℕ) (pos space : ℕ) (c : Cut space p) (a : Cut (length c.back) w.head)
      → space ≡ length w.tail
      → buf ≡ c.back ++ (a.back ++ c.front)
      → pos ≡ length c.back
      → Holds (record r { buf = buf; pos = pos; full = true }) (s ++ p)
  Holds-around buf pos space c a room e at = record {
    head = c.back;
    tail = a.back ++ c.front;
    older = if r.full then w.older ++ (w.tail ++ a.front) else a.front;
    parts = e;
    place = sym at;
    size = omega (
      arith,
      length-append a.back c.front,
      length-append a.front a.back,
      ap length a.same,
      a.size,
      c.size,
      w.size,
      room,
    );
    short = λ f. absurd (ground (arith, f));
    long = λ f. elim (Bool-cases r.full) [
      | inl t ↦ rw t (
          ap (λ z. z ++ p) (w.long t ∙ ap (λ z. w.older ++ (w.tail ++ z)) a.same)
          ∙ ap (λ z. (w.older ++ (w.tail ++ (a.front ++ a.back))) ++ z) c.same
          ∙ simp append_assoc refl)
      | inr t ↦ rw t (
          ap (λ z. z ++ p) (w.short t ∙ a.same)
          ∙ ap (λ z. (a.front ++ a.back) ++ z) c.same
          ∙ simp append_assoc refl)
    ];
  }

pub wrap_once : (a n : ℕ) → n ≤ a → a < n + n → a % n ≡ a - n
wrap_once a n le lt = mod-eq-sub-mod le ∙ mod-eq_of_lt (omega arith)

pub or_true : (b : Bool) → (b || true) ≡ true
or_true b = ground arith

pub or_false : (b : Bool) → (b || false) ≡ b
or_false b = ground arith

module _ (r : RingBuffer) (s p : List ℕ) (w : Holds r s) (small : length p < r.capacity) where
  Holds-one_piece :
      length p ≤ r.capacity - r.pos
      → Holds
          (record r {
            buf = copy_at r.pos p r.buf;
            full = r.full || leb r.capacity (r.pos + length p);
            pos = (r.pos + length p) % r.capacity;
          })
          (s ++ p)
  Holds-one_piece fits =
      let n = length p in
      let c = cut n w.tail (omega (arith, fits, w.place, w.size)) in
      let e = one_piece r s p w n refl small c in
      elim (Bool-cases (leb r.capacity (r.pos + n))) [
        | inl end ↦
            let at : r.pos + n ≡ r.capacity = ground (arith, end, fits, w.place, w.size) in
            let back : (r.pos + n) % r.capacity ≡ 0 =
              ap (λ z. z % r.capacity) at ∙ mod_self r.capacity in
            let none_left : length c.back ≡ 0 = omega (
              arith,
              at,
              length-append c.front c.back,
              ap length c.same,
              c.size,
              w.size,
              w.place,
            ) in
            rw (end, back, or_true r.full)
              (Holds-to_end r s p w n refl small _ c e (no_bytes c.back none_left))
        | inr room ↦
            rw
              (
                room,
                mod-eq_of_lt {n = r.pos + n} {m = r.capacity} (ground (arith, room)),
                or_false r.full,
              )
              (Holds-within r s p w n refl small _ _ c e refl)
      ]

  Holds-two_pieces :
      r.capacity - r.pos < length p
      → Holds
          (record r {
            buf =
                copy_at 0
                  (drop (r.capacity - r.pos) p)
                  (copy_at r.pos (take (r.capacity - r.pos) p) r.buf);
            full = r.full || leb r.capacity (r.pos + length p);
            pos = (r.pos + length p) % r.capacity;
          })
          (s ++ p)
  Holds-two_pieces over =
      let n = length p in
      let space = r.capacity - r.pos in
      let c = cut space p (omega (arith, over)) in
      let total = ap length c.same ∙ length-append c.front c.back in
      let a = cut (length c.back) w.head (omega (arith, total, c.size, w.place, w.size, small)) in
      let end : leb r.capacity (r.pos + n) ≡ true = ground (arith, over) in
      let back : (r.pos + n) % r.capacity ≡ length c.back =
        wrap_once (r.pos + n) r.capacity (omega (arith, over))
          (omega (arith, small, w.place, w.size))
        ∙ omega (arith, total, c.size, over, w.place, w.size) in
      let first : copy_at r.pos (take space p) r.buf ≡ w.head ++ c.front =
        ap (λ q. copy_at r.pos q r.buf)
          (ap (take space) c.same ∙ take-cut c.front c.back space c.size)
        ∙ ap (copy_at r.pos c.front) (w.parts ∙ ap (λ t. w.head ++ t) (sym (append-nil w.tail)))
        ∙ copy_at-cut w.head c.front w.tail [] r.pos w.place
            (omega (arith, c.size, w.place, w.size))
        ∙ ap (λ t. w.head ++ t) (append-nil c.front) in
      let second : copy_at 0 (drop space p) (copy_at r.pos (take space p) r.buf)
          ≡ c.back ++ (a.back ++ c.front) =
        ap (λ t. overlay (drop space p) t)
          (first ∙ ap (λ t. t ++ c.front) a.same ∙ append_assoc a.front a.back c.front)
        ∙ ap (λ q. overlay q (a.front ++ (a.back ++ c.front)))
            (ap (drop space) c.same ∙ drop-cut c.front c.back space c.size)
        ∙ overlay-cut c.back a.front (a.back ++ c.front) (sym a.size) in
      rw (end, or_true r.full)
        (Holds-around r s p w n refl small _ _ space c a (omega (arith, w.place, w.size)) second
          back)

pub Holds-write : (r : RingBuffer) (s p : List ℕ) → Holds r s → Holds (write r p) (s ++ p)
unfolding write wrapped
Holds-write r s p w = elim (Bool-cases (leb r.capacity (length p))) [
  | inl big ↦ rw big (Holds-long r s p w (ground (arith, big)))
  | inr less ↦
      let small : length p < r.capacity = ground (arith, less) in
      elim (Bool-cases (leb (length p) (r.capacity - r.pos))) [
        | inl fits ↦ rw (less, fits) (Holds-one_piece r s p w small (ground (arith, fits)))
        | inr over ↦ rw (less, over) (Holds-two_pieces r s p w small (ground (arith, over)))
      ]
]
