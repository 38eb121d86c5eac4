-- ===== src/Engine.antt =====
-- The database sessions that the master's services run on (gorm over SQLite, which is not part of
-- the repository). A state `S` holds the tables as lists of rows. Whether a statement fails, what
-- the clock shows and which identifiers are generated is decided by an `Engine`, which every
-- definition takes as a parameter; statements are counted by `tick`.
pub mod Keeps
pub mod Rows
pub mod Assures
use vault_fleet.Prelude.{ℕ, suc, Bool, List, [], ◌∷◌, if◌then◌else◌, Text}

-- The sentinel errors of the services, and errors that carry a text.
pub data Error : Type 0 where
  db_error : Error  -- a statement or a commit failed
  not_found : Error  -- gorm.ErrRecordNotFound
  not_configured : Error  -- "database not configured"
  command_not_active : Error  -- errCommandNotActive
  invalid_payload : Text → Error  -- errInvalidCommandPayload, with the full text
  selective_restore_unsupported : Error  -- errSelectiveRestoreUnsupported
  capabilities_unknown : Error  -- errAgentCapabilitiesUnknown
  no_targets : Error  -- ErrNoTargets
  no_matched_targets : Error  -- ErrNoMatchedTargets
  duplicate_active_target : Text → Error  -- ErrDuplicateActiveTarget, with the agent
  context_done : Error  -- ctx.Err()
  message : Text → Error  -- errors.New, fmt.Errorf

pub data Result (A : Type 0) : Type 0 where
  ok : A → Result A
  err : Error → Result A

pub record Engine : Type 0 where
  pub fails : ℕ → Bool
  pub clock : ℕ → ℕ
  pub uuid : ℕ → Text

pub record Db (S : Type 0) : Type 0 where
  pub tables : S
  pub tick : ℕ

abbrev pub M : Type 0 → Type 0 → Type 0
M S A = Db S → Result A × Db S

module _ {S : Type 0} where
  abbrev pub pure : {A : Type 0} → A → M S A
  pure a d = (ok a, d)

  abbrev pub fail : {A : Type 0} → Error → M S A
  fail e d = (err e, d)

  abbrev pub next : {A B : Type 0} → (A → M S B) → Result A × Db S → Result B × Db S
  next f (ok a, d) = f a d
  next f (err e, d) = (err e, d)

  infixl 5 ◌>>=◌ ◌>>◌
  abbrev pub ◌>>=◌ : {A B : Type 0} → M S A → (A → M S B) → M S B
  ◌>>=◌ m f d = next f (m d)

  abbrev pub ◌>>◌ : {B : Type 0} → M S (Unit {0}) → M S B → M S B
  m >> k = m >>= λ _. k

  -- What a `switch` on `err` sees: the error becomes a value.
  unfoldable pub attempt : {A : Type 0} → M S A → M S (Result A)
  attempt m d = let r = m d in (ok r.0, r.1)

  unfoldable pub statement : {A : Type 0} → Engine → (S → A × S) → M S A
  statement env f d =
      if env.fails d.tick
      then (err db_error, record d { tick = suc d.tick })
      else (ok (f d.tables).0, record { tables = (f d.tables).1; tick = suc d.tick })

  -- `s.now()`.
  unfoldable pub now : Engine → M S ℕ
  now env d = (ok (env.clock d.tick), d)

  -- A row's identifier, made by its `BeforeCreate` hook.
  unfoldable pub new_id : Engine → M S Text
  new_id env d = (ok (env.uuid d.tick), record d { tick = suc d.tick })

  -- A failed body or a failed commit restores the tables of the start.
  unfoldable pub commit : {A : Type 0} → Engine → Db S → Result A × Db S → Result A × Db S
  commit env d (ok a, d') =
      if env.fails d'.tick
      then (err db_error, record d { tick = suc d'.tick })
      else (ok a, record d' { tick = suc d'.tick })
  commit env d (err e, d') = (err e, record d { tick = suc d'.tick })

  unfoldable pub transaction : {A : Type 0} → Engine → M S A → M S A
  unfolding commit
  transaction env m d = commit env d (m d)

  -- `for _, x := range xs { if err := f(x); err != nil { return err } }`
  unfoldable pub for_each : {A : Type 0} → (A → M S (Unit {0})) → List A → M S (Unit {0})
  for_each f [] = pure tt
  for_each f (x ∷ xs) = let rest = for_each f xs in f x >> rest
