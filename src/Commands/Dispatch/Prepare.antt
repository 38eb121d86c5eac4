-- ===== src/Commands/Dispatch/Prepare.antt =====
-- `prepareMessageForDispatch` of internal/master/commands/service.go and what it calls.
use vault_fleet.Prelude.{
  ℕ, Bool, true, false, not, ◌&&◌, ◌||◌, Option, none, some, List, [], ◌∷◌, Text, codes, text_eq,
  text_elem, is_empty, if◌then◌else◌,
}
use vault_fleet.Engine.{
  invalid_payload, selective_restore_unsupported, capabilities_unknown, message, Result, ok, err, M,
  pure, fail, ◌>>=◌, ◌>>◌, now, statement,
}
use vault_fleet.Commands.Model.{
  MessageType, Message, AgentCommand, Agent, Tables, opened, broken, Env, type_eq, is_terminal,
  update_commands, has_id,
}

-- `id = ? AND status NOT IN terminalStatuses()`.
abbrev pub live_id : Text → AgentCommand → Bool
live_id i c = has_id i c && not (is_terminal c.status)

unfoldable pub message_from_command : Env → AgentCommand → Result Message
message_from_command env c = elim (env.unseal c.payload) [
  | opened m ↦ ok m
  | broken text ↦ err (invalid_payload text)
]

abbrev pub first_agent : Text → List Agent → Option Agent
first_agent i [] = none
first_agent i (a ∷ as') = if text_eq a.id i then some a else first_agent i as'

unfoldable pub has_name : Text → Option (List Text) → M Tables Bool
has_name capability none = fail capabilities_unknown
has_name capability (some names) = pure (text_elem capability names)

unfoldable pub read_capabilities : Env → Text → Option Agent → M Tables Bool
unfolding has_name
read_capabilities env capability none = fail capabilities_unknown
read_capabilities env capability (some a) = has_name capability (env.capabilities a.system_info)

unfoldable pub agent_has_capability : Env → Text → Text → M Tables Bool
unfolding read_capabilities
agent_has_capability env agent_id capability =
    if is_empty agent_id || is_empty capability then fail capabilities_unknown else do
      agent ← statement env.engine λ t. (first_agent agent_id t.agents, t)
      read_capabilities env capability agent

abbrev pub mark_prepared : MessageType → Text → ℕ → AgentCommand → AgentCommand
mark_prepared type encrypted t r = record r { type = type; payload = encrypted; updated_at = t }

unfoldable pub persist_sealed : Env → AgentCommand → MessageType → Option Text → M Tables (Unit {0})
persist_sealed env c type none = fail (message (codes "encrypt prepared command payload"))
persist_sealed env c type (some encrypted) = do
  t ← now env.engine
  rows ← update_commands env.engine (live_id c.id) (mark_prepared type encrypted t)
  pure tt

unfoldable pub persist_prepared_message :
    Env → AgentCommand → Message → MessageType → M Tables (Unit {0})
unfolding persist_sealed
persist_prepared_message env c m type = persist_sealed env c type (env.seal m)

unfoldable pub capability_restore_include_paths : Text
capability_restore_include_paths = codes "restore_include_paths"

unfoldable pub select_restore : Env → AgentCommand → Message → Bool → M Tables Message
unfolding persist_prepared_message
select_restore env c m false = fail selective_restore_unsupported
select_restore env c m true = do
  let selective = record m { type = MessageType.selective_restore_req }
  persist_prepared_message env c selective MessageType.selective_restore_req
  pure selective

unfoldable pub prepare_restore :
    Env → AgentCommand → Message → Option (List Text) → M Tables Message
unfolding select_restore agent_has_capability
prepare_restore env c m none = fail (invalid_payload (codes "parse restore command payload"))
prepare_restore env c m (some []) = pure m
prepare_restore env c m (some (p ∷ ps)) = do
  supported ← agent_has_capability env c.agent_id capability_restore_include_paths
  select_restore env c m supported

unfoldable pub prepare_message : Env → AgentCommand → Result Message → M Tables Message
unfolding prepare_restore
prepare_message env c (err e) = fail e
prepare_message env c (ok m) =
    if type_eq c.type MessageType.restore_req && type_eq m.type MessageType.restore_req
    then prepare_restore env c m (env.include_paths m.payload)
    else pure m

unfoldable pub prepare_message_for_dispatch : Env → AgentCommand → M Tables Message
unfolding prepare_message message_from_command
prepare_message_for_dispatch env c = prepare_message env c (message_from_command env c)
