-- ===== src/Hub/Waiters.antt =====
-- The entries and the waiters of internal/master/ws/hub.go, counted by waiter.
use vault_fleet.Prelude.{
  ℕ, suc, ◌≤◌, ◌≡◌, refl, sym, ap, inl, inr, Bool, true, false, some, List, [], ◌∷◌, arith, Text,
  count_where, ◌==◌, ==_iff, Bool-cases,
}
use vault_fleet.Hub.{
  Message, Entry, has_key, find_waiter, delete_waiter, remove_waiter, handle_response,
}
use vault_fleet.Hub.System.{Waiter, put}

abbrev pub bit : Bool → ℕ
bit true = 1
bit false = 0

abbrev pub held_by : ℕ → Entry → Bool
held_by n e = e.waiter == n

abbrev pub delivers_to : ℕ → ℕ × Message → Bool
delivers_to n p = p.0 == n

abbrev pub is : ℕ → ℕ → Bool
is n m = m == n

pub delete_waiter-le :
    (p : Entry → Bool) (a i : Text) (es : List Entry)
    → count_where p (delete_waiter a i es) ≤ count_where p es
unfolding delete_waiter
delete_waiter-le p a i [] = omega arith
delete_waiter-le p a i (e ∷ es) = ground (arith, delete_waiter-le p a i es)

pub found_waiter :
    (a i : Text) (n : ℕ) (es : List Entry)
    → find_waiter a i es ≡ some n
    → suc (count_where (held_by n) (delete_waiter a i es)) ≤ count_where (held_by n) es
unfolding find_waiter delete_waiter
found_waiter a i n [] h = absurd (ground (arith, h))
found_waiter a i n (e ∷ es) h = elim (Bool-cases (has_key a i e)) [
  | inl k ↦ rw k (ground (arith, h, k, delete_waiter-le (held_by n) a i es))
  | inr k ↦ rw k (ground (arith, h, k, found_waiter a i n es))
]

pub removed_found :
    (a i : Text) (n : ℕ) (es : List Entry)
    → (remove_waiter a i n es).1 ≡ true
    → (find_waiter a i es ≡ some n) × ((remove_waiter a i n es).0 ≡ delete_waiter a i es)
unfolding remove_waiter
removed_found a i n es h = ground (arith, h)

pub removed-le :
    (p : Entry → Bool) (a i : Text) (n : ℕ) (es : List Entry)
    → count_where p (remove_waiter a i n es).0 ≤ count_where p es
unfolding remove_waiter
removed-le p a i n es = ground (arith, delete_waiter-le p a i es)

pub taken_found :
    (a : Text) (m : Message) (f : ℕ → Text) (n : ℕ) (es : List Entry)
    → (handle_response a m f es).1 ≡ some n
    → (find_waiter a m.id es ≡ some n) × ((handle_response a m f es).0 ≡ delete_waiter a m.id es)
unfolding handle_response
taken_found a m f n es h = ground (arith, h)

pub put_same : (f : ℕ → Waiter) (n m : ℕ) (w : Waiter) → (m == n) ≡ true → put f n w m ≡ w
put_same f n m w e = rw e refl

pub put_other : (f : ℕ → Waiter) (n m : ℕ) (w : Waiter) → (m == n) ≡ false → put f n w m ≡ f m
put_other f n m w e = rw e refl

pub at_same : (f : ℕ → Waiter) (n m : ℕ) → (m == n) ≡ true → f n ≡ f m
at_same f n m e = ap f (sym ((==_iff m n).0 e))

pub flip : (n m : ℕ) → (n == m) ≡ (m == n)
flip n m = ground arith
