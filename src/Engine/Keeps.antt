-- ===== src/Engine/Keeps.antt =====
-- A relation between the tables before and after: it is kept by every way of putting
-- operations together, whatever the engine lets fail.
use vault_fleet.Prelude.{
  Bool, true, false, if◌then◌else◌, Bool-cases, inl, inr, ◌≡◌, List, [], ◌∷◌, arith,
}
use vault_fleet.Engine.{
  Engine, Db, M, Result, ok, err, Error, pure, fail, next, ◌>>=◌, attempt, now, new_id, statement,
  commit, transaction, for_each,
}

pub record Keeps {S A : Type 0} (R : S → S → Type 0) (m : M S A) : Type 0 where
  pub holds : (d : Db S) → R d.tables (m d).1.tables

module _ {S : Type 0} (R : S → S → Type 0) (R-refl : (s : S) → R s s)
    (R-trans : (s t u : S) → R s t → R t u → R s u) where
  pub Keeps-pure : {A : Type 0} (a : A) → Keeps R (pure a)
  Keeps-pure a = record { holds = λ d. R-refl d.tables }

  pub Keeps-fail : {A : Type 0} (e : Error) → Keeps R (fail {A = A} e)
  Keeps-fail e = record { holds = λ d. R-refl d.tables }

  Keeps-next :
      {A B : Type 0} (f : A → M S B) (s : S) (r : Result A × Db S)
      → ((a : A) → Keeps R (f a))
      → R s r.1.tables
      → R s (next f r).1.tables
  Keeps-next f s (ok a, d) h p = R-trans s d.tables (f a d).1.tables p ((h a).holds d)
  Keeps-next f s (err e, d) h p = p

  pub Keeps-bind :
      {A B : Type 0} (m : M S A) (f : A → M S B)
      → Keeps R m
      → ((a : A) → Keeps R (f a))
      → Keeps R (m >>= f)
  Keeps-bind m f p h = record { holds = λ d. Keeps-next f d.tables (m d) h (p.holds d) }

  pub Keeps-if :
      {A : Type 0} (b : Bool) (m n : M S A) → Keeps R m → Keeps R n → Keeps R (if b then m else n)
  Keeps-if true m n p q = p
  Keeps-if false m n p q = q

  pub Keeps-attempt : {A : Type 0} (m : M S A) → Keeps R m → Keeps R (attempt m)
  unfolding attempt
  Keeps-attempt m p = record { holds = p.holds }

  pub Keeps-now : (env : Engine) → Keeps R (now env)
  unfolding now
  Keeps-now env = record { holds = λ d. R-refl d.tables }

  pub Keeps-new_id : (env : Engine) → Keeps R (new_id env)
  unfolding new_id
  Keeps-new_id env = record { holds = λ d. R-refl d.tables }

  pub Keeps-statement :
      {A : Type 0} (env : Engine) (f : S → A × S)
      → ((s : S) → R s (f s).1)
      → Keeps R (statement env f)
  unfolding statement
  Keeps-statement env f h = record {
    holds = λ d. elim (Bool-cases (env.fails d.tick)) [
      | inl e ↦ rw e (R-refl d.tables)
      | inr e ↦ rw e (h d.tables)
    ];
  }

  Keeps-commit :
      {A : Type 0} (env : Engine) (d : Db S) (r : Result A × Db S)
      → R d.tables r.1.tables
      → R d.tables (commit env d r).1.tables
  unfolding commit
  Keeps-commit env d (ok a, d') h = elim (Bool-cases (env.fails d'.tick)) [
    | inl e ↦ rw e (R-refl d.tables)
    | inr e ↦ rw e h
  ]
  Keeps-commit env d (err e, d') h = R-refl d.tables

  pub Keeps-transaction :
      {A : Type 0} (env : Engine) (m : M S A) → Keeps R m → Keeps R (transaction env m)
  unfolding transaction
  Keeps-transaction env m p = record { holds = λ d. Keeps-commit env d (m d) (p.holds d) }

  pub Keeps-for_each :
      {A : Type 0} (f : A → M S (Unit {0})) (xs : List A)
      → ((x : A) → Keeps R (f x))
      → Keeps R (for_each f xs)
  unfolding for_each
  Keeps-for_each f [] h = Keeps-pure tt
  Keeps-for_each f (x ∷ xs) h =
      Keeps-bind (f x) (λ _. for_each f xs) (h x) (λ _. Keeps-for_each f xs h)

-- A transaction that fails leaves the tables as they were.
pub transaction-err :
    {S A : Type 0} (env : Engine) (m : M S A) (d : Db S) (e : Error)
    → (transaction env m d).0 ≡ err e
    → (transaction env m d).1.tables ≡ d.tables
unfolding transaction commit
transaction-err {S} {A} env m d e h = go (m d) h
  where
    go : (r : Result A × Db S) → (commit env d r).0 ≡ err e → (commit env d r).1.tables ≡ d.tables
    go (ok a, d') h = ground arith
    go (err e', d') h = ground arith
