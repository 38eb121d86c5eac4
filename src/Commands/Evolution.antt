-- ===== src/Commands/Evolution.antt =====
-- How the command table may change: a relation between the rows before and after, and the
-- statements of internal/master/commands/service.go that respect it.
pub mod Dispatching
pub mod Ending
use vault_fleet.Prelude.{
  if◌then◌else◌, ap, update_row, ℕ, ◌≤◌, ◌≡◌, refl, ◌∙◌, Bool, true, false, not, ◌&&◌, List, [],
  ◌∷◌, ◌++◌, arith, update_where, Text, Bool-cases, inl, inr,
}
use vault_fleet.Engine.{
  Engine, Error, Db, M, pure, fail, ◌>>=◌, attempt, now, new_id, transaction, for_each, statement,
}
use vault_fleet.Engine.Keeps.{
  Keeps, Keeps-statement, Keeps-bind, Keeps-pure, Keeps-fail, Keeps-if, Keeps-now, Keeps-new_id,
  Keeps-attempt, Keeps-transaction, Keeps-for_each,
}
use vault_fleet.Engine.Rows.{
  Evolved, Evolved-refl, Evolved-trans, Evolved-append, Evolved-update_where,
}
use vault_fleet.Commands.Model.{
  AgentCommand, TaskHistory, Tables, is_terminal, update_commands, update_tasks, find_commands,
  first_command,
}

-- What stays of a command: who it is for and what it answers to, and once it has ended, all of it.
pub record Kept (c c' : AgentCommand) : Type 0 where
  pub same_id : c'.id ≡ c.id
  pub same_agent : c'.agent_id ≡ c.agent_id
  pub same_message : c'.message_id ≡ c.message_id
  pub same_deadline : c'.deadline_at ≡ c.deadline_at
  pub more_attempts : c.attempts ≤ c'.attempts
  pub final : is_terminal c.status ≡ true → c' ≡ c

abbrev pub Evolves : Tables → Tables → Type 0
Evolves s t = Evolved Kept s.commands t.commands

pub Kept-refl : (c : AgentCommand) → Kept c c
Kept-refl c = ground arith

pub Kept-trans : (a b c : AgentCommand) → Kept a b → Kept b c → Kept a c
Kept-trans a b c p q = record {
  same_id = q.same_id ∙ p.same_id;
  same_agent = q.same_agent ∙ p.same_agent;
  same_message = q.same_message ∙ p.same_message;
  same_deadline = q.same_deadline ∙ p.same_deadline;
  more_attempts = omega (arith, p.more_attempts, q.more_attempts);
  final = λ h. q.final (ap (λ x. is_terminal x.status) (p.final h) ∙ h) ∙ p.final h;
}

pub Evolves-refl : (s : Tables) → Evolves s s
Evolves-refl s = Evolved-refl Kept Kept-refl Kept-trans s.commands

pub Evolves-trans : (s t u : Tables) → Evolves s t → Evolves t u → Evolves s u
Evolves-trans s t u p q =
    Evolved-trans Kept Kept-refl Kept-trans s.commands t.commands u.commands p q

pub Evolves-append : (xs ys : List AgentCommand) → Evolved Kept xs (xs ++ ys)
Evolves-append = Evolved-append Kept Kept-refl Kept-trans

module _ (env : Engine) where
  pub update_commands-Evolves :
      (p : AgentCommand → Bool) (f : AgentCommand → AgentCommand)
      → ((c : AgentCommand) → p c ≡ true → Kept c (f c))
      → Keeps Evolves (update_commands env p f)
  unfolding update_commands
  update_commands-Evolves p f h =
      Keeps-statement Evolves Evolves-refl Evolves-trans env _
        (λ s. Evolved-update_where Kept Kept-refl Kept-trans p f h s.commands)

  pub update_tasks-Evolves :
      (p : TaskHistory → Bool) (f : TaskHistory → TaskHistory)
      → Keeps Evolves (update_tasks env p f)
  unfolding update_tasks
  update_tasks-Evolves p f = Keeps-statement Evolves Evolves-refl Evolves-trans env _ Evolves-refl

  pub find_commands-Evolves : (p : AgentCommand → Bool) → Keeps Evolves (find_commands env p)
  unfolding find_commands
  find_commands-Evolves p = Keeps-statement Evolves Evolves-refl Evolves-trans env _ Evolves-refl

  pub first_command-Evolves : (p : AgentCommand → Bool) → Keeps Evolves (first_command env p)
  unfolding first_command
  first_command-Evolves p = Keeps-statement Evolves Evolves-refl Evolves-trans env _ Evolves-refl

module _ {A B : Type 0} where
  pub bind :
      (m : M Tables A) (f : A → M Tables B)
      → Keeps Evolves m
      → ((a : A) → Keeps Evolves (f a))
      → Keeps Evolves (m >>= f)
  bind = Keeps-bind Evolves Evolves-refl Evolves-trans

pub clocked : (env : Engine) → Keeps Evolves (now env)
clocked = Keeps-now Evolves Evolves-refl Evolves-trans

pub named : (env : Engine) → Keeps Evolves (new_id env)
named = Keeps-new_id Evolves Evolves-refl Evolves-trans

module _ {A : Type 0} where
  pub tried : (m : M Tables A) → Keeps Evolves m → Keeps Evolves (attempt m)
  tried = Keeps-attempt Evolves Evolves-refl Evolves-trans

  pub unchanged : (a : A) → Keeps Evolves (pure a)
  unchanged = Keeps-pure Evolves Evolves-refl Evolves-trans

  pub refused : (e : Error) → Keeps Evolves (fail {A = A} e)
  refused = Keeps-fail Evolves Evolves-refl Evolves-trans

  pub either :
      (b : Bool) (m n : M Tables A)
      → Keeps Evolves m
      → Keeps Evolves n
      → Keeps Evolves (if b then m else n)
  either = Keeps-if Evolves Evolves-refl Evolves-trans

  pub committed :
      (env : Engine) (m : M Tables A) → Keeps Evolves m → Keeps Evolves (transaction env m)
  committed = Keeps-transaction Evolves Evolves-refl Evolves-trans

  pub each :
      (f : A → M Tables (Unit {0})) (xs : List A)
      → ((x : A) → Keeps Evolves (f x))
      → Keeps Evolves (for_each f xs)
  each = Keeps-for_each Evolves Evolves-refl Evolves-trans

  pub read_only : (env : Engine) (f : Tables → A) → Keeps Evolves (statement env λ s. (f s, s))
  read_only env f =
      Keeps-statement Evolves Evolves-refl Evolves-trans env (λ s. (f s, s)) Evolves-refl
