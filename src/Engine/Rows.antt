-- ===== src/Engine/Rows.antt =====
-- A table before and after: rows stay in their places, each related to what it was, and new rows
-- come behind them.
use mathlib.Core.Path.{subst}
use mathlib.Core.Option.{some-injective}
use vault_fleet.Prelude.{
  ℕ, zero, suc, ◌≡◌, refl, Bool, true, inl, inr, some, List, [], ◌∷◌, ◌++◌, update_row,
  update_where, get_elem?, Bool-cases,
}

abbrev pub Evolved : {A : Type 0} → (A → A → Type 0) → List A → List A → Type 0
Evolved K [] ys = Unit {0}
Evolved K (x ∷ xs) [] = ⊥
Evolved K (x ∷ xs) (y ∷ ys) = K x y × Evolved K xs ys

module _ {A : Type 0} (K : A → A → Type 0) (K-refl : (x : A) → K x x)
    (K-trans : (x y z : A) → K x y → K y z → K x z) where
  pub Evolved-refl : (xs : List A) → Evolved K xs xs
  Evolved-refl [] = tt
  Evolved-refl (x ∷ xs) = (K-refl x, Evolved-refl xs)

  pub Evolved-trans : (xs ys zs : List A) → Evolved K xs ys → Evolved K ys zs → Evolved K xs zs
  Evolved-trans [] ys zs p q = tt
  Evolved-trans (x ∷ xs) [] zs p q = absurd p
  Evolved-trans (x ∷ xs) (y ∷ ys) [] p q = absurd q
  Evolved-trans (x ∷ xs) (y ∷ ys) (z ∷ zs) p q =
      (K-trans x y z p.0 q.0, Evolved-trans xs ys zs p.1 q.1)

  pub Evolved-append : (xs ys : List A) → Evolved K xs (xs ++ ys)
  Evolved-append [] ys = tt
  Evolved-append (x ∷ xs) ys = (K-refl x, Evolved-append xs ys)

  update_row-K :
      (p : A → Bool) (f : A → A) (x : A) → (p x ≡ true → K x (f x)) → K x (update_row p f x)
  update_row-K p f x h = elim (Bool-cases (p x)) [ inl e ↦ rw e (h e) | inr e ↦ rw e (K-refl x) ]

  pub Evolved-update_where :
      (p : A → Bool) (f : A → A)
      → ((x : A) → p x ≡ true → K x (f x))
      → (xs : List A) → Evolved K xs (update_where p f xs)
  Evolved-update_where p f h [] = tt
  Evolved-update_where p f h (x ∷ xs) = (update_row-K p f x (h x), Evolved-update_where p f h xs)

  -- The row that evolved from the row at a place.
  pub Evolved-get :
      (xs ys : List A) (n : ℕ) (x : A)
      → Evolved K xs ys
      → get_elem? xs n ≡ some x
      → (y : A) × (get_elem? ys n ≡ some y) × K x y
  Evolved-get [] ys n x h e = cc
  Evolved-get (v ∷ xs) [] n x h e = absurd h
  Evolved-get (v ∷ xs) (y ∷ ys) zero x h e =
      (y, refl, subst (λ u. K u y) (some-injective _ _ e) h.0)
  Evolved-get (v ∷ xs) (y ∷ ys) (suc n) x h e = Evolved-get xs ys n x h.1 e
