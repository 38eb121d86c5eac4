-- ===== src/Engine/Assures.antt =====
-- An invariant of the tables, with what the result of an operation is known to be: both are kept by
-- the ways of putting operations together, whatever the engine lets fail.
use vault_fleet.Prelude.{Bool, true, false, if◌then◌else◌, Bool-cases, inl, inr}
use vault_fleet.Engine.{
  Engine, Db, M, Result, ok, err, pure, next, ◌>>=◌, attempt, now, new_id, statement, commit,
  transaction,
}

-- A property of a value that an operation may return.
abbrev pub Given : {A : Type 0} → (A → Type 0) → Result A → Type 0
Given Q (ok a) = Q a
Given Q (err e) = Unit {0}

pub record Assures {S A : Type 0} (P : S → Type 0) (Q : A → Type 0) (m : M S A) : Type 0 where
  pub holds : (d : Db S) → P d.tables → P (m d).1.tables × Given Q (m d).0

module _ {S : Type 0} (P : S → Type 0) where
  pub Assures-pure : {A : Type 0} (Q : A → Type 0) (a : A) → Q a → Assures P Q (pure a)
  Assures-pure Q a q = record { holds = λ d p. (p, q) }

  Assures-next :
      {A B : Type 0} (Q : A → Type 0) (R : B → Type 0) (f : A → M S B) (r : Result A × Db S)
      → ((a : A) → Q a → Assures P R (f a))
      → P r.1.tables
      → Given Q r.0
      → P (next f r).1.tables × Given R (next f r).0
  Assures-next Q R f (ok a, d) h p q = (h a q).holds d p
  Assures-next Q R f (err e, d) h p q = (p, tt)

  pub Assures-bind :
      {A B : Type 0} (Q : A → Type 0) (R : B → Type 0) (m : M S A) (f : A → M S B)
      → Assures P Q m
      → ((a : A) → Q a → Assures P R (f a))
      → Assures P R (m >>= f)
  Assures-bind Q R m f h k = record {
    holds = λ d p. Assures-next Q R f (m d) k ((h.holds d p).0) ((h.holds d p).1);
  }

  pub Assures-if :
      {A : Type 0} (Q : A → Type 0) (b : Bool) (m n : M S A)
      → Assures P Q m
      → Assures P Q n
      → Assures P Q (if b then m else n)
  Assures-if Q true m n h k = h
  Assures-if Q false m n h k = k

  pub Assures-attempt :
      {A : Type 0} (Q : A → Type 0) (m : M S A) → Assures P Q m → Assures P (Given Q) (attempt m)
  unfolding attempt
  Assures-attempt Q m h = record { holds = h.holds }

  pub Assures-now : (env : Engine) → Assures P (λ _. Unit {0}) (now env)
  unfolding now
  Assures-now env = record { holds = λ d p. (p, tt) }

  pub Assures-new_id : (env : Engine) → Assures P (λ _. Unit {0}) (new_id env)
  unfolding new_id
  Assures-new_id env = record { holds = λ d p. (p, tt) }

  pub Assures-statement :
      {A : Type 0} (Q : A → Type 0) (env : Engine) (f : S → A × S)
      → ((s : S) → P s → P (f s).1 × Q (f s).0)
      → Assures P Q (statement env f)
  unfolding statement
  Assures-statement Q env f h = record {
    holds = λ d p. elim (Bool-cases (env.fails d.tick)) [
      | inl e ↦ rw e (p, tt)
      | inr e ↦ rw e (h d.tables p)
    ];
  }

  Assures-commit :
      {A : Type 0} (Q : A → Type 0) (env : Engine) (d : Db S) (r : Result A × Db S)
      → P d.tables
      → P r.1.tables × Given Q r.0
      → P (commit env d r).1.tables × Given Q (commit env d r).0
  unfolding commit
  Assures-commit Q env d (ok a, d') p h = elim (Bool-cases (env.fails d'.tick)) [
    | inl e ↦ rw e (p, tt)
    | inr e ↦ rw e h
  ]
  Assures-commit Q env d (err e, d') p h = (p, tt)

  pub Assures-transaction :
      {A : Type 0} (Q : A → Type 0) (env : Engine) (m : M S A)
      → Assures P Q m
      → Assures P Q (transaction env m)
  unfolding transaction
  Assures-transaction Q env m h = record {
    holds = λ d p. Assures-commit Q env d (m d) p (h.holds d p);
  }
