-- ===== src/Control/Submit.antt =====
-- `create_conversation`, `submit_to_conversation` and `submit`.
use dsh_base_agent.Prelude.{
  ℕ, String, Bool, false, not, Option, none, some, [], ◌∷◌, ◌!=◌, string_eq, if◌then◌else◌,
}
use dsh_base_agent.Prelude.Text.{is_empty, strip}
use dsh_base_agent.Models.{
  Json, RunRecord, RunStatus, RunPhase, ConversationRecord, ConversationStatus,
  conversation_status_eq, EventSource,
}
use dsh_base_agent.Store.Operation.{Operation}
use dsh_base_agent.Store.Runs.{create_run}
use dsh_base_agent.Store.Conversations.{create_conversation_run}
use dsh_base_agent.Control.Failures.{Failure, Principal, Agent, is_store_error}
use dsh_base_agent.Control.Calls.{
  Plane, ◌>>=◌, ◌>>◌, pure, raise, await, catching, call, ask, new_id, utc_now, raise_if,
}
use dsh_base_agent.Control.Shared.{dict, owned_conversation, agent_of, append_event, append_audit}
use dsh_base_agent.Control.Cancel.{is_some}

-- `authorize_run`; what it raises is audited and raised again
unfoldable pub audit_denial :
    Principal → Agent → String → (String → Json) → Option String → Plane (Unit {0})
audit_denial principal agent action details none = pure tt
audit_denial principal agent action details (some error_type) = do
  append_audit principal action "denied" none none (some agent.name) (details error_type)
  raise (Failure.other error_type)

unfoldable pub authorize : Principal → Agent → String → (String → Json) → Plane (Unit {0})
authorize principal agent action details = do
  denial ← ask (λ env. env.authorize_run principal agent)
  audit_denial principal agent action details denial

-- `metadata or {}`
abbrev pub or_empty : Option Json → Json
or_empty none = dict []
or_empty (some metadata) = metadata

unfoldable pub create_conversation : Principal → String → Option Json → Plane ConversationRecord
create_conversation principal agent_id metadata = do
  agent ← agent_of agent_id
  authorize principal agent "conversation.create"
      (λ error_type. dict (("error_type", Json.str error_type) ∷ []))
  nonce ← new_id
  home_key ← ask (λ env. env.digest (
      dict (
        ("tenant_id", Json.str principal.tenant_id)
        ∷ ("principal_id", Json.str principal.principal_id)
        ∷ ("agent_fingerprint", Json.str agent.fingerprint)
        ∷ ("nonce", Json.str nonce)
        ∷ [])))
  session_id ← new_id
  conversation_id ← new_id
  now ← utc_now
  let conversation : ConversationRecord = record {
    conversation_id = conversation_id;
    tenant_id = principal.tenant_id;
    principal_id = principal.principal_id;
    agent_id = agent.name;
    agent_version = agent.version;
    agent_fingerprint = agent.fingerprint;
    dsh_home_key = home_key;
    dsh_session_id = session_id;
    status = ConversationStatus.active;
    next_sequence = 1;
    revision = 1;
    blocked_reason = none;
    metadata = or_empty metadata;
    created_at = now;
    updated_at = now;
  }
  call (Operation.create_conversation conversation)
  append_audit principal "conversation.create" "success" none none (some agent.name)
      (dict (("conversation_id", Json.str conversation_id) ∷ []))
  pure conversation

abbrev pub new_run :
    String → Option String → Principal → Agent → String → Option Json → RunPhase → ℕ → RunRecord
new_run run_id conversation_id principal agent input metadata phase now = record {
  run_id = run_id;
  conversation_id = conversation_id;
  sequence = none;
  tenant_id = principal.tenant_id;
  principal_id = principal.principal_id;
  agent_id = agent.name;
  agent_version = agent.version;
  agent_fingerprint = agent.fingerprint;
  input = input;
  metadata = or_empty metadata;
  phase = phase;
  plan_id = none;
  status = RunStatus.queued;
  revision = 1;
  attempt_count = 0;
  active_attempt_id = none;
  required_action_id = none;
  output = none;
  error = none;
  cancel_requested = false;
  created_at = now;
  updated_at = now;
}

abbrev pub sequence_json : Option ℕ → Json
sequence_json none = Json.null
sequence_json (some n) = Json.num n

-- Scheduling is left out.
unfoldable pub report_submission :
    Principal → Agent → String → String → RunRecord → Bool → Plane (Unit {0})
report_submission principal agent conversation_id input persisted created =
    if not created then pure tt else do
      append_event persisted.run_id none EventSource.control "run.queued" (
          dict (
            ("agent_id", Json.str agent.name)
            ∷ ("agent_version", Json.str agent.version)
            ∷ ("conversation_id", Json.str conversation_id)
            ∷ ("sequence", sequence_json persisted.sequence)
            ∷ []))
      input_sha256 ← ask (λ env. env.sha256 input)
      append_audit principal "conversation.run.submit" "accepted" (some persisted.run_id) none
          (some agent.name)
          (dict (
            ("conversation_id", Json.str conversation_id)
            ∷ ("sequence", sequence_json persisted.sequence)
            ∷ ("input_sha256", Json.str input_sha256)
            ∷ []))

unfoldable pub submit_to_conversation :
    Principal → String → String → Option String → Option Json → Plane RunRecord
submit_to_conversation principal conversation_id input idempotency_key metadata = do
  conversation ← owned_conversation principal conversation_id
  raise_if (conversation.status != ConversationStatus.active) Failure.run_transition
  raise_if (is_empty (strip input)) Failure.invalid
  agent ← agent_of conversation.agent_id
  raise_if (is_some agent.plan_react) Failure.run_transition
  raise_if (agent.fingerprint != conversation.agent_fingerprint) Failure.run_transition
  authorize principal agent "conversation.run.submit" (λ error_type.
      dict
        (("conversation_id", Json.str conversation_id) ∷ ("error_type", Json.str error_type) ∷ []))
  run_id ← new_id
  now ← utc_now
  digest ← ask (λ env. env.digest (
      dict (
        ("agent_fingerprint", Json.str agent.fingerprint)
        ∷ ("conversation_id", Json.str conversation_id)
        ∷ ("input", Json.str input)
        ∷ ("metadata", or_empty metadata)
        ∷ ("principal_id", Json.str principal.principal_id)
        ∷ [])))
  let run = new_run run_id (some conversation_id) principal agent input metadata RunPhase.direct now
  persisted ←
      catching is_store_error Failure.run_transition
        (await (create_conversation_run conversation_id run idempotency_key digest))
  report_submission principal agent conversation_id input persisted.0 persisted.1
  pure persisted.0

unfoldable pub report_run : Principal → Agent → String → RunRecord → Bool → Plane (Unit {0})
report_run principal agent input persisted created = if not created then pure tt else do
  append_event persisted.run_id none EventSource.control "run.queued"
      (dict (("agent_id", Json.str agent.name) ∷ ("agent_version", Json.str agent.version) ∷ []))
  input_sha256 ← ask (λ env. env.sha256 input)
  append_audit principal "run.submit" "accepted" (some persisted.run_id) none (some agent.name)
      (dict (("input_sha256", Json.str input_sha256) ∷ []))

unfoldable pub submit : Principal → String → String → Option String → Option Json → Plane RunRecord
submit principal agent_id input idempotency_key metadata = do
  agent ← agent_of agent_id
  raise_if agent.allow_user_input Failure.run_transition
  raise_if (is_empty (strip input)) Failure.invalid
  authorize principal agent "run.submit"
      (λ error_type. dict (("error_type", Json.str error_type) ∷ []))
  run_id ← new_id
  now ← utc_now
  digest ← ask (λ env. env.digest (
      dict (
        ("agent_fingerprint", Json.str agent.fingerprint)
        ∷ ("input", Json.str input)
        ∷ ("metadata", or_empty metadata)
        ∷ ("principal_id", Json.str principal.principal_id)
        ∷ [])))
  let run =
      new_run run_id none principal agent input metadata
        (if is_some agent.plan_react then RunPhase.planning else RunPhase.direct) now
  persisted ← await (create_run run idempotency_key digest)
  report_run principal agent input persisted.0 persisted.1
  pure persisted.0
