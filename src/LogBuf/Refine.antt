-- ===== src/LogBuf/Refine.antt =====
-- What the ring buffer of internal/master/logbuf/logbuf.go promises: it keeps the last bytes of all
-- that has been written.
use mathlib.Core.List.{append-nil, append_assoc}
use vault_fleet.Prelude.{
  ℕ, ◌-◌, ◌≤◌, ◌≡◌, refl, sym, ap, ◌∙◌, inl, inr, List, [], ◌∷◌, ◌++◌, arith, length, length-append,
  take, drop, Bool-cases,
}
use vault_fleet.LogBuf.Copies.{
  cut, overlay-cut, copy_at-cut, take-cut, drop-cut, length-zeros, overlay_whole,
}
use vault_fleet.LogBuf.{RingBuffer, zeros, overlay, copy_at, new, write, bytes}
-- The abstract buffer: the last `n` bytes of a text.
use vault_fleet.LogBuf.Holds.{Holds, Holds-new, Holds-write}

abbrev pub last_bytes : ℕ → List ℕ → List ℕ
last_bytes n s = drop (length s - n) s

abbrev pub written : List (List ℕ) → List ℕ
written [] = []
written (p ∷ ps) = p ++ written ps

unfoldable pub write_all : RingBuffer → List (List ℕ) → RingBuffer
write_all r [] = r
write_all r (p ∷ ps) = write_all (write r p) ps

bytes-Holds : (r : RingBuffer) (s : List ℕ) → Holds r s → bytes r ≡ last_bytes r.capacity s
unfolding bytes
bytes-Holds r s w = elim (Bool-cases r.full) [
  | inl full ↦
      let z =
        cut (length w.tail) (zeros r.capacity) (omega (arith, length-zeros r.capacity, w.size)) in
      let total = ap length z.same ∙ length-append z.front z.back in
      let back : drop r.pos r.buf ≡ w.tail =
        ap (drop r.pos) w.parts ∙ drop-cut w.head w.tail r.pos w.place in
      let front : take r.pos r.buf ≡ w.head =
        ap (take r.pos) w.parts ∙ take-cut w.head w.tail r.pos w.place in
      rw (full, back, front)
        (ap (copy_at (r.capacity - r.pos) w.head) (
            ap (overlay w.tail) z.same
            ∙ overlay-cut w.tail z.front z.back (sym z.size)
            ∙ ap (λ t. w.tail ++ t) (sym (append-nil z.back)))
          ∙ copy_at-cut w.tail w.head z.back [] (r.capacity - r.pos)
              (omega (arith, w.place, w.size))
              (omega (arith, total, z.size, length-zeros r.capacity, w.size))
          ∙ ap (λ t. w.tail ++ t) (append-nil w.head)
          ∙ sym (
              ap (last_bytes r.capacity) (w.long full)
              ∙ drop-cut w.older (w.tail ++ w.head) _ (
                  omega (
                    arith,
                    length-append w.older (w.tail ++ w.head),
                    length-append w.tail w.head,
                    w.size,
                  ))))
  | inr partial ↦
      let front : take r.pos r.buf ≡ w.head =
        ap (take r.pos) w.parts ∙ take-cut w.head w.tail r.pos w.place in
      rw (partial, front)
        (overlay_whole w.head (zeros r.pos) (omega (arith, length-zeros r.pos, w.place))
          ∙ sym (
              ap (last_bytes r.capacity) (w.short partial)
              ∙ drop_none w.head r.capacity (omega (arith, w.size))))
]
  where
    drop_none : (xs : List ℕ) (n : ℕ) → length xs ≤ n → drop (length xs - n) xs ≡ xs
    drop_none xs n h = let e : length xs - n ≡ 0 = omega arith in rw e refl

Holds-write_all :
    (ps : List (List ℕ)) (r : RingBuffer) (s : List ℕ)
    → Holds r s
    → Holds (write_all r ps) (s ++ written ps)
unfolding write_all
Holds-write_all [] r s w = rw (append-nil s) w
Holds-write_all (p ∷ ps) r s w =
    rw (sym (append_assoc s p (written ps)))
      (Holds-write_all ps (write r p) (s ++ p) (Holds-write r s p w))

capacity-write_all : (ps : List (List ℕ)) (r : RingBuffer) → (write_all r ps).capacity ≡ r.capacity
unfolding write_all write
capacity-write_all [] r = refl
capacity-write_all (p ∷ ps) r = capacity-write_all ps (write r p) ∙ ground arith

-- After any writes to a new buffer, it reads as the last bytes, as many as its capacity, of all that
-- has been written.
pub bytes-write_all :
    (n : ℕ) (ps : List (List ℕ)) → bytes (write_all (new n) ps) ≡ last_bytes n (written ps)
bytes-write_all n ps =
    bytes-Holds (write_all (new n) ps) (written ps) (Holds-write_all ps (new n) [] (Holds-new n))
    ∙ ap (λ k. last_bytes k (written ps)) (capacity-write_all ps (new n) ∙ (unfold new in refl))
