-- ===== src/Control/Shared.antt =====
-- What the operations share: ownership, the registry, events, audit records and JSON.
use dsh_base_agent.Prelude.{
  String, ◌||◌, Bool, true, false, Option, none, some, List, [], ◌∷◌, ◌==◌, ◌!=◌, string_eq, nat_eq,
  if◌then◌else◌,
}
use dsh_base_agent.Models.{
  Json, Fields, ConversationRecord, RunRecord, RunStatus, RequiredActionType, EventSource,
}
use dsh_base_agent.Store.Operation.{Operation}
use dsh_base_agent.Store.Runs.{get_run}
use dsh_base_agent.Store.Conversations.{get_conversation}
use dsh_base_agent.Control.Failures.{Failure, Principal, Agent}
use dsh_base_agent.Control.Calls.{
  Plane, ◌>>=◌, ◌>>◌, pure, await, call, ask, new_id, utc_now, raise_if, or_raise,
}

-- `{key: text, ...}`
abbrev pub object : List (String × Json) → Fields
object [] = Fields.end
object ((key, value) ∷ rest) = Fields.field key value (object rest)

abbrev pub dict : List (String × Json) → Json
dict fields = Json.obj (object fields)

abbrev pub type_value : RequiredActionType → Json
type_value RequiredActionType.user_input = Json.str "user_input"
type_value RequiredActionType.plan_approval = Json.str "plan_approval"

-- `TERMINAL_RUN_STATUSES`
abbrev pub is_terminal : RunStatus → Bool
is_terminal RunStatus.succeeded = true
is_terminal RunStatus.failed = true
is_terminal RunStatus.cancelled = true
is_terminal _ = false

unfoldable pub owned_run : Principal → String → Plane RunRecord
owned_run principal run_id = do
  run ← await (get_run run_id)
  raise_if (run.tenant_id != principal.tenant_id || run.principal_id != principal.principal_id)
      Failure.run_access_denied
  pure run

unfoldable pub owned_conversation : Principal → String → Plane ConversationRecord
owned_conversation principal conversation_id = do
  conversation ← await (get_conversation conversation_id)
  raise_if
      (conversation.tenant_id != principal.tenant_id
        || conversation.principal_id != principal.principal_id)
      Failure.conversation_access_denied
  pure conversation

unfoldable pub agent_of : String → Plane Agent
agent_of agent_id = do
  agents ← ask (λ env. env.agents)
  or_raise (agents agent_id) Failure.agent_not_found

-- `self._agents` after `register`, or `ValueError` for another definition of the name
unfoldable pub register : Agent → (String → Option Agent) → Option (String → Option Agent)
register agent agents = set (agents agent.name)
  where
    added : String → Option Agent
    added name = if name == agent.name then some agent else agents name

    set : Option Agent → Option (String → Option Agent)
    set none = some added
    set (some existing) = if existing.fingerprint != agent.fingerprint then none else some added

-- `self.store.append_event`, with the identifier and the time that the record draws
unfoldable pub append_event :
    String → Option String → EventSource → String → Json → Plane (Unit {0})
append_event run_id attempt_id source kind details = do
  event_id ← new_id
  now ← utc_now
  call (Operation.append_event run_id attempt_id source kind details event_id now)

unfoldable pub append_audit :
    Principal
    → String
    → String
    → Option String
    → Option String
    → Option String
    → Json
    → Plane (Unit {0})
append_audit principal action outcome run_id attempt_id agent_id details = do
  audit_id ← new_id
  now ← utc_now
  call (
      Operation.append_audit (record {
        audit_id = audit_id;
        tenant_id = principal.tenant_id;
        principal_id = principal.principal_id;
        action = action;
        outcome = outcome;
        run_id = run_id;
        attempt_id = attempt_id;
        agent_id = agent_id;
        tool_name = none;
        details = details;
        created_at = now;
      }))

unfoldable pub audit_run :
    Principal → RunRecord → String → String → Option String → Json → Plane (Unit {0})
audit_run principal run action outcome attempt_id details =
    append_audit principal action outcome (some run.run_id) attempt_id (some run.agent_id) details
