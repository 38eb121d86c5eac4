-- ===== src/LogBuf/Copies.antt =====
-- What copies do to the buffer of internal/master/logbuf/logbuf.go, by the parts that it is cut into.
use vault_fleet.Prelude.{
  ℕ, zero, suc, ◌≤◌, ◌≡◌, refl, ap, List, [], ◌∷◌, ◌++◌, arith, length, take, drop,
}
use vault_fleet.LogBuf.{zeros, overlay, copy_at}

pub record Cut (n : ℕ) (xs : List ℕ) : Type 0 where
  pub front : List ℕ
  pub back : List ℕ
  pub same : xs ≡ front ++ back
  pub size : length front ≡ n

pub cut : (n : ℕ) (xs : List ℕ) → n ≤ length xs → Cut n xs
cut zero xs h = record { front = []; back = xs; same = refl; size = refl }
cut (suc n) [] h = absurd (omega (arith, h))
cut (suc n) (x ∷ xs) h =
    let c = cut n xs (omega (arith, h)) in
    record {
      front = x ∷ c.front;
      back = c.back;
      same = ap (λ ys. x ∷ ys) c.same;
      size = omega (arith, c.size);
    }

pub overlay-cut : (p m c : List ℕ) → length p ≡ length m → overlay p (m ++ c) ≡ p ++ c
overlay-cut [] [] c h = refl
overlay-cut [] (y ∷ m) c h = absurd (omega (arith, h))
overlay-cut (x ∷ p) [] c h = absurd (omega (arith, h))
overlay-cut (x ∷ p) (y ∷ m) c h = ap (λ ys. x ∷ ys) (overlay-cut p m c (omega (arith, h)))

pub copy_at-cut :
    (a p m c : List ℕ) (n : ℕ)
    → length a ≡ n
    → length p ≡ length m
    → copy_at n p (a ++ (m ++ c)) ≡ a ++ (p ++ c)
copy_at-cut [] p m c zero h e = overlay-cut p m c e
copy_at-cut [] p m c (suc n) h e = absurd (omega (arith, h))
copy_at-cut (x ∷ a) p m c zero h e = absurd (omega (arith, h))
copy_at-cut (x ∷ a) p m c (suc n) h e =
    ap (λ ys. x ∷ ys) (copy_at-cut a p m c n (omega (arith, h)) e)

pub take-cut : (a b : List ℕ) (n : ℕ) → length a ≡ n → take n (a ++ b) ≡ a
take-cut [] b zero h = refl
take-cut [] b (suc n) h = absurd (omega (arith, h))
take-cut (x ∷ a) b zero h = absurd (omega (arith, h))
take-cut (x ∷ a) b (suc n) h = ap (λ ys. x ∷ ys) (take-cut a b n (omega (arith, h)))

pub drop-cut : (a b : List ℕ) (n : ℕ) → length a ≡ n → drop n (a ++ b) ≡ b
drop-cut [] b zero h = refl
drop-cut [] b (suc n) h = absurd (omega (arith, h))
drop-cut (x ∷ a) b zero h = absurd (omega (arith, h))
drop-cut (x ∷ a) b (suc n) h = drop-cut a b n (omega (arith, h))

pub length-zeros : (n : ℕ) → length (zeros n) ≡ n
length-zeros zero = refl
length-zeros (suc n) = omega (arith, length-zeros n)

pub overlay_whole : (q buf : List ℕ) → length q ≡ length buf → overlay q buf ≡ q
overlay_whole [] [] h = refl
overlay_whole [] (y ∷ ys) h = absurd (omega (arith, h))
overlay_whole (x ∷ q) [] h = absurd (omega (arith, h))
overlay_whole (x ∷ q) (y ∷ ys) h = ap (λ zs. x ∷ zs) (overlay_whole q ys (omega (arith, h)))
