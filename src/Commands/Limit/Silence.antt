-- ===== src/Commands/Limit/Silence.antt =====
-- What a dispatch does before and after it sends (`dispatch` of internal/master/commands/service.go)
-- sends nothing.
use vault_fleet.Prelude.{
  ◌≡◌, refl, ◌∙◌, Bool, true, false, Option, none, some, List, [], ◌∷◌, Text, if◌then◌else◌,
}
use vault_fleet.Engine.{
  M, Result, ok, err, Error, pure, fail, ◌>>=◌, attempt, now, statement, transaction,
}
use vault_fleet.Engine.Keeps.{
  Keeps, Keeps-pure, Keeps-fail, Keeps-bind, Keeps-if, Keeps-attempt, Keeps-now, Keeps-statement,
  Keeps-transaction,
}
use vault_fleet.Commands.Model.{
  AgentCommand, TaskHistory, MessageType, Message, Agent, Tables, Env, update_commands,
  update_tasks,
}
use vault_fleet.Commands.Dispatch.{
  has_name, read_capabilities, agent_has_capability, persist_sealed, persist_prepared_message,
  select_restore, prepare_restore, prepare_message, prepare_message_for_dispatch,
  record_dispatch_success_for_command, record_dispatch_failure_for, rollback_dispatch_failure,
  fail_command_and_task,
}

-- Nothing is sent.
pub record Unsent (s t : Tables) : Type 0 where
  pub same : t.sent ≡ s.sent

Unsent-refl : (s : Tables) → Unsent s s
Unsent-refl s = record { same = refl }

Unsent-trans : (s t u : Tables) → Unsent s t → Unsent t u → Unsent s u
Unsent-trans s t u p q = record { same = q.same ∙ p.same }

bind :
    {A B : Type 0} (m : M Tables A) (f : A → M Tables B)
    → Keeps Unsent m
    → ((a : A) → Keeps Unsent (f a))
    → Keeps Unsent (m >>= f)
bind = Keeps-bind Unsent Unsent-refl Unsent-trans

silent : {A : Type 0} (a : A) → Keeps Unsent (pure a)
silent = Keeps-pure Unsent Unsent-refl Unsent-trans

refused : {A : Type 0} (e : Error) → Keeps Unsent (fail {A = A} e)
refused = Keeps-fail Unsent Unsent-refl Unsent-trans

either :
    {A : Type 0} (b : Bool) (m n : M Tables A)
    → Keeps Unsent m
    → Keeps Unsent n
    → Keeps Unsent (if b then m else n)
either = Keeps-if Unsent Unsent-refl Unsent-trans

module _ (env : Env) where
  writes :
      {A : Type 0} (f : Tables → A × Tables)
      → ((s : Tables) → (f s).1.sent ≡ s.sent)
      → Keeps Unsent (statement env.engine f)
  writes f h =
      Keeps-statement Unsent Unsent-refl Unsent-trans env.engine f λ s. record { same = h s }

  clocked : Keeps Unsent (now env.engine)
  clocked = Keeps-now Unsent Unsent-refl Unsent-trans env.engine

  committed :
      {A : Type 0} (m : M Tables A) → Keeps Unsent m → Keeps Unsent (transaction env.engine m)
  committed = Keeps-transaction Unsent Unsent-refl Unsent-trans env.engine

  update_commands-Unsent :
      (p : AgentCommand → Bool) (f : AgentCommand → AgentCommand)
      → Keeps Unsent (update_commands env.engine p f)
  unfolding update_commands
  update_commands-Unsent p f = writes _ λ s. refl

  update_tasks-Unsent :
      (p : TaskHistory → Bool) (f : TaskHistory → TaskHistory)
      → Keeps Unsent (update_tasks env.engine p f)
  unfolding update_tasks
  update_tasks-Unsent p f = writes _ λ s. refl

  has_name-Unsent : (n : Text) (o : Option (List Text)) → Keeps Unsent (has_name n o)
  unfolding has_name
  has_name-Unsent n none = refused _
  has_name-Unsent n (some ns) = silent _

  read_capabilities-Unsent :
      (n : Text) (o : Option Agent) → Keeps Unsent (read_capabilities env n o)
  unfolding read_capabilities
  read_capabilities-Unsent n none = refused _
  read_capabilities-Unsent n (some a) = has_name-Unsent n _

  capability-Unsent : (a n : Text) → Keeps Unsent (agent_has_capability env a n)
  unfolding agent_has_capability
  capability-Unsent a n =
      either _ _ _ (refused _) (bind _ _ (writes _ λ s. refl) λ o. read_capabilities-Unsent n o)

  persist-Unsent :
      (c : AgentCommand) (t : MessageType) (o : Option Text)
      → Keeps Unsent (persist_sealed env c t o)
  unfolding persist_sealed
  persist-Unsent c t none = refused _
  persist-Unsent c t (some e) =
      bind _ _ clocked λ n. bind _ _ (update_commands-Unsent _ _) λ rows. silent _

  select_restore-Unsent :
      (c : AgentCommand) (m : Message) (b : Bool) → Keeps Unsent (select_restore env c m b)
  unfolding select_restore persist_prepared_message
  select_restore-Unsent c m false = refused _
  select_restore-Unsent c m true = bind _ _ (persist-Unsent c _ _) λ u. silent _

  prepare_restore-Unsent :
      (c : AgentCommand) (m : Message) (o : Option (List Text))
      → Keeps Unsent (prepare_restore env c m o)
  unfolding prepare_restore
  prepare_restore-Unsent c m none = refused _
  prepare_restore-Unsent c m (some []) = silent _
  prepare_restore-Unsent c m (some (p ∷ ps)) =
      bind _ _ (capability-Unsent _ _) λ b. select_restore-Unsent c m b

  prepare_message-Unsent :
      (c : AgentCommand) (r : Result Message) → Keeps Unsent (prepare_message env c r)
  unfolding prepare_message
  prepare_message-Unsent c (err e) = refused _
  prepare_message-Unsent c (ok m) = either _ _ _ (prepare_restore-Unsent c m _) (silent _)

  pub prepare-Unsent :
      (c : AgentCommand) → Keeps Unsent (attempt (prepare_message_for_dispatch env c))
  unfolding prepare_message_for_dispatch
  prepare-Unsent c = Keeps-attempt Unsent Unsent-refl Unsent-trans _ (prepare_message-Unsent c _)

  pub record_success-Unsent :
      (c : AgentCommand) → Keeps Unsent (record_dispatch_success_for_command env c)
  unfolding record_dispatch_success_for_command
  record_success-Unsent c = bind _ _ clocked λ t.
      bind _ _
        (committed _ (
          bind _ _ (update_commands-Unsent _ _)
            λ rows. either _ _ _ (silent _) (bind _ _ (update_tasks-Unsent _ _) λ n. silent _)))
        λ rows. silent _

  pub rollback-Unsent :
      (c : AgentCommand) (text : Text) → Keeps Unsent (rollback_dispatch_failure env c text)
  unfolding rollback_dispatch_failure record_dispatch_failure_for
  rollback-Unsent c text = bind _ _ clocked λ t. committed _ (
      bind _ _ (update_commands-Unsent _ _)
        λ rows. either _ _ _ (silent _) (update_tasks-Unsent _ _))

  pub fail_command-Unsent :
      (c : AgentCommand) (text : Text) → Keeps Unsent (fail_command_and_task env c text)
  unfolding fail_command_and_task
  fail_command-Unsent c text = bind _ _ clocked λ t. committed _ (
      bind _ _ (update_commands-Unsent _ _)
        λ rows. either _ _ _ (silent _) (update_tasks-Unsent _ _))
