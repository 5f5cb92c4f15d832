-- ===== src/Control/Resume.antt =====
-- `view` and `resume`: an answer to the required action of a waiting Run.
use dsh_base_agent.Prelude.{
  ℕ, ◌+◌, String, Bool, false, not, ◌||◌, Option, none, some, List, [], ◌∷◌, ok, err, ◌==◌, ◌!=◌,
  string_eq, nat_eq, option_eq, leb, if◌then◌else◌,
}
use dsh_base_agent.Models.{
  Json, RunRecord, RunStatus, run_status_eq, RunAttempt, AttemptStatus, DispatchState,
  RequiredActionRecord, RequiredActionStatus, action_status_eq, is_plan_approval, EventSource,
}
use dsh_base_agent.Store.Operation.{Operation}
use dsh_base_agent.Store.Attempts.{get_attempt, list_attempts}
use dsh_base_agent.Store.Actions.{get_required_action}
use dsh_base_agent.Control.Failures.{Failure, Principal, is_store_error, is_action_not_found}
use dsh_base_agent.Control.UserInput.{validate_user_input_response}
use dsh_base_agent.Control.Calls.{
  Plane, Env, ◌>>=◌, ◌>>◌, pure, raise, await, catching, call, ask, utc_now, raise_if, or_raise,
}
use dsh_base_agent.Control.Shared.{dict, type_value, owned_run, append_event, audit_run}
use dsh_base_agent.Control.Cancel.{is_some}
use dsh_base_agent.Control.Decide.{get_of, resolve_plan_action}

pub record RunView : Type 0 where
  pub run : RunRecord
  pub attempts : List RunAttempt
  pub required_action : Option RequiredActionRecord

-- the Action that is shown, while it is pending
unfoldable pub action_in_view : Option String → Plane (Option RequiredActionRecord)
action_in_view none = pure none
action_in_view (some id) = do
  candidate ← await (get_required_action id)
  pure (if candidate.status == RequiredActionStatus.pending then some candidate else none)

unfoldable pub view : Principal → String → Plane RunView
view principal run_id = do
  run ← owned_run principal run_id
  action ← action_in_view run.required_action_id
  attempts ← await (list_attempts run_id)
  pure (record { run = run; attempts = attempts; required_action = action })

unfoldable pub check_snapshot : RunRecord → String → ℕ → Plane (Unit {0})
check_snapshot run action_id expected_revision = do
  raise_if (run.required_action_id != some action_id) Failure.run_transition
  raise_if (run.revision != expected_revision) Failure.run_transition

unfoldable pub check_ownership :
    Principal → String → RunRecord → RequiredActionRecord → Plane (Unit {0})
check_ownership principal run_id run action = do
  raise_if (action.run_id != run_id || action.conversation_id != run.conversation_id)
      Failure.run_transition
  raise_if
      (action.tenant_id != principal.tenant_id || action.principal_id != principal.principal_id)
      Failure.run_access_denied
  raise_if (action.status != RequiredActionStatus.pending) Failure.run_transition

-- the records of an expiry and of an answer at the time `now`
abbrev pub expired_action : RequiredActionRecord → ℕ → RequiredActionRecord
expired_action action now = record action {
  status = RequiredActionStatus.expired;
  revision = action.revision + 1;
  updated_at = now;
}

abbrev pub expired_attempt : RunAttempt → ℕ → RunAttempt
expired_attempt attempt now = record attempt {
  status = AttemptStatus.cancelled;
  dispatch_state = DispatchState.settled;
  revision = attempt.revision + 1;
  error = some "RequiredAction expired";
  finished_at = some now;
  updated_at = now;
}

abbrev pub expired_run : RunRecord → ℕ → RunRecord
expired_run run now = record run {
  status = RunStatus.cancelled;
  revision = run.revision + 1;
  active_attempt_id = none;
  required_action_id = none;
  error = some "RequiredAction expired";
  updated_at = now;
}

abbrev pub answered_action : RequiredActionRecord → Principal → Json → ℕ → RequiredActionRecord
answered_action action principal response now = record action {
  status = RequiredActionStatus.answered;
  response = some response;
  revision = action.revision + 1;
  answered_by = some principal.principal_id;
  answered_at = some now;
  updated_at = now;
}

abbrev pub answered_run : RunRecord → ℕ → RunRecord
answered_run run now = record run {
  status = RunStatus.queued;
  revision = run.revision + 1;
  active_attempt_id = none;
  error = none;
  updated_at = now;
}

abbrev pub action_details : RequiredActionRecord → Json
action_details action =
    dict (("action_id", Json.str action.action_id) ∷ ("type", type_value action.type) ∷ [])

abbrev pub is_expired : Option ℕ → ℕ → Bool
is_expired none now = false
is_expired (some expires_at) now = leb expires_at now

-- An expired Action cancels its Run, and the answer is refused.
unfoldable pub expire : Principal → String → RunRecord → RequiredActionRecord → Plane (Unit {0})
expire principal run_id run action = do
  raise_if (run.active_attempt_id != some action.attempt_id) Failure.run_transition
  attempt ← await (get_attempt action.attempt_id)
  now ← utc_now
  catching is_store_error Failure.run_transition (
      call (
        Operation.settle_attempt (expired_run run now) (expired_attempt attempt now) run.revision
          attempt.revision none (some (expired_action action now)) (some action.revision)))
  append_event run_id (some attempt.attempt_id) EventSource.control "run.action_expired"
      (action_details action)
  audit_run principal (expired_run run now) "run.required_action.expire" "expired"
      (some attempt.attempt_id) (action_details action)
  raise Failure.run_transition

-- `validate_user_input_response`, with the parsing by pydantic; the dump of what it accepts
abbrev pub validated : Env → Json → Option Json → Option Json
validated env response questions = elim (env.parse_questions questions) [
  | none ↦ none
  | some qs ↦ elim (env.parse_answers response) [
    | none ↦ none
    | some answers ↦ elim (validate_user_input_response qs answers) [
      | ok _ ↦ some (env.answers_json answers)
      | err _ ↦ none
    ]
  ]
]

unfoldable pub answer :
    Principal → String → RunRecord → RequiredActionRecord → Json → Plane (Unit {0})
answer principal run_id run action response = do
  raise_if (is_plan_approval action.type) Failure.run_transition
  valid ← ask (λ env. validated env response (get_of "questions" action.payload))
  dump ← or_raise valid Failure.run_transition
  now ← utc_now
  catching is_store_error Failure.run_transition (
      call (
        Operation.answer_required_action (answered_run run now)
          (answered_action action principal dump now) run.revision action.revision))
  append_event run_id (some action.attempt_id) EventSource.control "run.action_submitted" (
      dict (
        ("action_id", Json.str action.action_id)
        ∷ ("type", type_value action.type)
        ∷ ("submitted_by", Json.str principal.principal_id)
        ∷ []))
  audit_run principal (answered_run run now) "run.required_action.answer" "accepted"
      (some action.attempt_id) (action_details action)

unfoldable pub resume_current :
    Principal → String → String → ℕ → Json → RunRecord → Plane (Unit {0})
resume_current principal run_id action_id expected_revision response run = do
  raise_if (run.status != RunStatus.waiting) Failure.run_transition
  check_snapshot run action_id expected_revision
  raise_if (not (is_some run.conversation_id)) Failure.run_transition
  action ←
      catching is_action_not_found Failure.run_transition (await (get_required_action action_id))
  check_ownership principal run_id run action
  asked_at ← utc_now
  (if is_expired action.expires_at asked_at
      then expire principal run_id run action
      else answer principal run_id run action response)

unfoldable pub resume_plan : Principal → String → String → ℕ → Json → Plane (Unit {0})
resume_plan principal run_id action_id expected_revision response = do
  parsed ← ask (λ env. env.parse_plan_response response)
  plan_response ← or_raise parsed Failure.run_transition
  decided ←
      resolve_plan_action principal run_id plan_response (some action_id) (some expected_revision)
  pure tt

unfoldable pub resume_input : Principal → String → String → ℕ → Json → Plane (Unit {0})
resume_input principal run_id action_id expected_revision response = do
  run ← owned_run principal run_id
  resume_current principal run_id action_id expected_revision response run

unfoldable pub resume : Principal → String → String → ℕ → Json → Plane RunView
resume principal run_id action_id expected_revision response = do
  snapshot ← owned_run principal run_id
  raise_if (snapshot.status != RunStatus.waiting) Failure.run_transition
  check_snapshot snapshot action_id expected_revision
  pending_action ←
      catching is_action_not_found Failure.run_transition (await (get_required_action action_id))
  (if is_plan_approval pending_action.type
      then resume_plan principal run_id action_id expected_revision response
      else resume_input principal run_id action_id expected_revision response)
  view principal run_id
