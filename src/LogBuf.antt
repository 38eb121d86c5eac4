-- ===== src/LogBuf.antt =====
-- The ring buffer of the master's log, internal/master/logbuf/logbuf.go. A capacity is not negative
-- (`make` panics on a negative one); the mutex makes each method one step.
mod Copies
mod Holds
pub mod Refine
mod Examples
use vault_fleet.Prelude.{
  ℕ, zero, suc, ◌+◌, ◌-◌, ◌%◌, Bool, true, false, ◌||◌, List, [], ◌∷◌, leb, length, take, drop,
  if◌then◌else◌,
}

pub record RingBuffer : Type 0 where
  pub buf : List ℕ
  pub pos : ℕ
  pub full : Bool
  pub capacity : ℕ

-- `make([]byte, n)`.
abbrev pub zeros : ℕ → List ℕ
zeros zero = []
zeros (suc n) = 0 ∷ zeros n

-- `copy(dst, src)`: as many bytes as both have.
abbrev pub overlay : List ℕ → List ℕ → List ℕ
overlay [] dst = dst
overlay (x ∷ xs) [] = []
overlay (x ∷ xs) (y ∷ ys) = x ∷ overlay xs ys

-- `copy(dst[n:], src)`.
abbrev pub copy_at : ℕ → List ℕ → List ℕ → List ℕ
copy_at zero src dst = overlay src dst
copy_at (suc n) src [] = []
copy_at (suc n) src (y ∷ ys) = y ∷ copy_at n src ys

unfoldable pub new : ℕ → RingBuffer
new capacity = record { buf = zeros capacity; pos = 0; full = false; capacity = capacity }

-- The copies of a write that is shorter than the buffer: in one piece, or around its end.
unfoldable pub wrapped : RingBuffer → List ℕ → List ℕ
wrapped r p =
    let space_to_end = r.capacity - r.pos in
    if leb (length p) space_to_end
    then copy_at r.pos p r.buf
    else copy_at 0 (drop space_to_end p) (copy_at r.pos (take space_to_end p) r.buf)

unfoldable pub write : RingBuffer → List ℕ → RingBuffer
unfolding wrapped
write r p =
    let n = length p in
    if leb r.capacity n
    then record r { buf = copy_at 0 (drop (n - r.capacity) p) r.buf; pos = 0; full = true }
    else record r {
      buf = wrapped r p;
      full = r.full || leb r.capacity (r.pos + n);
      pos = (r.pos + n) % r.capacity;
    }

unfoldable pub bytes : RingBuffer → List ℕ
bytes r =
    if r.full
    then copy_at (r.capacity - r.pos) (take r.pos r.buf)
        (copy_at 0 (drop r.pos r.buf) (zeros r.capacity))
    else copy_at 0 (take r.pos r.buf) (zeros r.pos)
