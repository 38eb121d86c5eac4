-- ===== src/Prelude/Int.antt =====
-- Go's `int` where a sign is tested. `negsuc n` is -(n + 1).
use Prim.Native.Nat.{ℕ, zero, suc}
use mathlib.Core.Path.{◌≡◌, refl}
use mathlib.Core.Bool.{Bool, true, false}
use native.Mathlib.Omega.{arith}
use mathlib.Core.Option.{Option, none, some}
use vault_fleet.Prelude.Tests.{ltb}

pub data ℤ : Type 0 where
  pos : ℕ → ℤ
  negsuc : ℕ → ℤ

-- The value, if it is positive.
abbrev pub positive : ℤ → Option ℕ
positive (pos zero) = none
positive (pos (suc n)) = some (suc n)
positive (negsuc n) = none

-- A value that is not positive is replaced.
abbrev pub positive_or_default : ℤ → ℕ → ℕ
positive_or_default (pos zero) d = d
positive_or_default (pos (suc n)) d = suc n
positive_or_default (negsuc n) d = d

-- `<` on integers.
abbrev pub ltb_int : ℤ → ℤ → Bool
ltb_int (pos m) (pos n) = ltb m n
ltb_int (pos m) (negsuc n) = false
ltb_int (negsuc m) (pos n) = true
ltb_int (negsuc m) (negsuc n) = ltb n m

pub ltb_int_irrefl : (a : ℤ) → ltb_int a a ≡ false
ltb_int_irrefl (pos m) = ground arith
ltb_int_irrefl (negsuc m) = ground arith

pub ltb_int_trans : (a b c : ℤ) → ltb_int a b ≡ true → ltb_int b c ≡ true → ltb_int a c ≡ true
ltb_int_trans (pos l) (pos m) (pos n) h k = ground (arith, h, k)
ltb_int_trans (pos l) (pos m) (negsuc n) h k = k
ltb_int_trans (pos l) (negsuc m) c h k = absurd (ground (arith, h))
ltb_int_trans (negsuc l) b (pos n) h k = refl
ltb_int_trans (negsuc l) (pos m) (negsuc n) h k = absurd (ground (arith, k))
ltb_int_trans (negsuc l) (negsuc m) (negsuc n) h k = ground (arith, h, k)

pub ltb_int_asym : (a b : ℤ) → ltb_int a b ≡ true → ltb_int b a ≡ false
ltb_int_asym (pos m) (pos n) h = ground (arith, h)
ltb_int_asym (pos m) (negsuc n) h = absurd (ground (arith, h))
ltb_int_asym (negsuc m) (pos n) h = refl
ltb_int_asym (negsuc m) (negsuc n) h = ground (arith, h)

-- What is not below `b`, and `b` not below `a`, is not below `a`.
pub ltb_int-false_trans :
    (a b c : ℤ) → ltb_int b a ≡ false → ltb_int c b ≡ false → ltb_int c a ≡ false
ltb_int-false_trans (pos l) (pos m) (pos n) h k = ground (arith, h, k)
ltb_int-false_trans (pos l) (pos m) (negsuc n) h k = absurd (ground (arith, k))
ltb_int-false_trans (pos l) (negsuc m) c h k = absurd (ground (arith, h))
ltb_int-false_trans (negsuc l) b (pos n) h k = refl
ltb_int-false_trans (negsuc l) (pos m) (negsuc n) h k = absurd (ground (arith, k))
ltb_int-false_trans (negsuc l) (negsuc m) (negsuc n) h k = ground (arith, h, k)

pub ltb_int-false-true : (a b c : ℤ) → ltb_int b a ≡ false → ltb_int b c ≡ true → ltb_int a c ≡ true
ltb_int-false-true (pos l) (pos m) (pos n) h k = ground (arith, h, k)
ltb_int-false-true a (pos m) (negsuc n) h k = absurd (ground (arith, k))
ltb_int-false-true (pos l) (negsuc m) c h k = absurd (ground (arith, h))
ltb_int-false-true (negsuc l) b (pos n) h k = refl
ltb_int-false-true (negsuc l) (negsuc m) (negsuc n) h k = ground (arith, h, k)
