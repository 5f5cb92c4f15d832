-- ===== src/Control/Cancel.antt =====
-- `cancel` and `_block_conversation`. The live runtime and the task of the Run are not state of
-- the store: closing and cancelling them is left out.
use dsh_base_agent.Prelude.{
  ℕ, ◌+◌, String, Bool, true, false, ◌||◌, not, ◌&&◌, Option, none, some, [], ◌∷◌, ◌==◌, ◌!=◌,
  if◌then◌else◌,
}
use dsh_base_agent.Models.{
  Json, RunRecord, RunStatus, RunPhase, run_phase_eq, RunAttempt, AttemptStatus, DispatchState,
  PlanRecord, PlanStatus, RequiredActionRecord, RequiredActionStatus, action_status_eq,
  ConversationRecord, ConversationStatus, conversation_status_eq, EventSource,
}
use dsh_base_agent.Store.Operation.{Operation}
use dsh_base_agent.Store.Attempts.{get_attempt}
use dsh_base_agent.Store.Actions.{get_required_action}
use dsh_base_agent.Store.Plans.{get_plan}
use dsh_base_agent.Store.Conversations.{get_conversation}
use dsh_base_agent.Control.Failures.{Failure, Principal}
use dsh_base_agent.Control.Calls.{Plane, ◌>>=◌, ◌>>◌, pure, raise, await, call, utc_now, raise_if}
use dsh_base_agent.Control.Shared.{
  dict, type_value, is_terminal, owned_run, append_event, append_audit, audit_run,
}

-- the records that `cancel` writes at the time `now`
abbrev pub cancelled_action : RequiredActionRecord → ℕ → RequiredActionRecord
cancelled_action action now = record action {
  status = RequiredActionStatus.cancelled;
  revision = action.revision + 1;
  updated_at = now;
}

abbrev pub is_some : {A : Type 0} → Option A → Bool
is_some none = false
is_some (some _) = true

abbrev pub cancelled_run : RunRecord → Bool → ℕ → RunRecord
cancelled_run current was_waiting_for_action now = record current {
  status = RunStatus.cancelled;
  active_attempt_id =
      if current.phase == RunPhase.waiting_approval || was_waiting_for_action
      then none
      else current.active_attempt_id;
  required_action_id = none;
  cancel_requested = true;
  revision = current.revision + 1;
  error = some "Run cancellation requested";
  updated_at = now;
}

abbrev pub cancelled_plan : PlanRecord → Principal → ℕ → PlanRecord
cancelled_plan plan principal now = record plan {
  status = PlanStatus.rejected;
  revision = plan.revision + 1;
  decided_by = some principal.principal_id;
  decision_comment = some "Run cancellation requested";
  decided_at = some now;
  updated_at = now;
}

abbrev pub cancelled_attempt : RunAttempt → ℕ → RunAttempt
cancelled_attempt attempt now = record attempt {
  status = AttemptStatus.cancelled;
  dispatch_state = DispatchState.settled;
  revision = attempt.revision + 1;
  error = some "Run cancellation requested";
  finished_at = some now;
  updated_at = now;
}

-- SUCCEEDED, FAILED, CANCELLED or INTERRUPTED
abbrev pub is_settled : AttemptStatus → Bool
is_settled AttemptStatus.succeeded = true
is_settled AttemptStatus.failed = true
is_settled AttemptStatus.cancelled = true
is_settled AttemptStatus.interrupted = true
is_settled _ = false

unfoldable pub pending_action_of : Option String → Plane (Option RequiredActionRecord)
pending_action_of none = pure none
pending_action_of (some id) = do
  action ← await (get_required_action id)
  raise_if (action.status != RequiredActionStatus.pending) Failure.run_transition
  pure (some action)

-- The transaction of a Run that waits for the approval of its plan.
unfoldable pub cancel_plan :
    Principal → String → RunRecord → ℕ → Option RequiredActionRecord → Plane (Option PlanRecord)
cancel_plan principal run_id current now none = raise Failure.run_transition
cancel_plan principal run_id current now (some action) = do
  plan ← await (get_plan run_id)
  call (
      Operation.decide_plan (cancelled_run current true now) (cancelled_plan plan principal now)
        (cancelled_action action now) current.revision plan.revision action.revision)
  pure (some (cancelled_plan plan principal now))

-- The new Action, or nothing, with the revision that it must have in the store.
abbrev pub action_to_cancel :
    Option RequiredActionRecord → ℕ → Option RequiredActionRecord × Option ℕ
action_to_cancel none now = (none, none)
action_to_cancel (some action) now = (some (cancelled_action action now), some action.revision)

unfoldable pub cancel_attempt :
    RunRecord → ℕ → Option RequiredActionRecord → Option String → Plane (Option PlanRecord)
cancel_attempt current now action none = do
  call (Operation.replace_run (cancelled_run current (is_some action) now) current.revision)
  pure none
cancel_attempt current now action (some attempt_id) = do
  attempt ← await (get_attempt attempt_id)
  call (
      if is_settled attempt.status
      then Operation.replace_run (cancelled_run current (is_some action) now) current.revision
      else Operation.settle_attempt (cancelled_run current (is_some action) now)
          (cancelled_attempt attempt now) current.revision attempt.revision none
          (action_to_cancel action now).0 (action_to_cancel action now).1)
  pure none

unfoldable pub block_active : String → String → ConversationRecord → Plane (Unit {0})
block_active conversation_id reason conversation =
    if conversation.status != ConversationStatus.active then pure tt else do
      now ← utc_now
      call (
          Operation.replace_conversation
            (record conversation {
              status = ConversationStatus.blocked;
              blocked_reason = some reason;
              revision = conversation.revision + 1;
              updated_at = now;
            })
            conversation.revision)
      append_audit (record { tenant_id = conversation.tenant_id; principal_id = "system" })
          "conversation.block" "blocked" none none (some conversation.agent_id)
          (dict (("conversation_id", Json.str conversation_id) ∷ ("reason", Json.str reason) ∷ []))

unfoldable pub block_conversation : String → String → Plane (Unit {0})
block_conversation conversation_id reason = do
  conversation ← await (get_conversation conversation_id)
  block_active conversation_id reason conversation

-- The Session of a Conversation whose active Run is cancelled is not trusted any more.
unfoldable pub block_session : Option String → Bool → Plane (Unit {0})
block_session (some conversation_id) true =
    block_conversation conversation_id
      "active conversation Run was cancelled; Session reconciliation is required"
block_session (some conversation_id) false = pure tt
block_session none unsettled = pure tt

unfoldable pub block_after_cancel : RunRecord → Bool → Plane (Unit {0})
block_after_cancel current was_waiting_for_action =
    block_session current.conversation_id
      (is_some current.active_attempt_id && not was_waiting_for_action)

unfoldable pub report_plan : Principal → String → RunRecord → Option PlanRecord → Plane (Unit {0})
report_plan principal run_id current none = pure tt
report_plan principal run_id current (some plan) =
    append_event run_id current.active_attempt_id EventSource.control "plan.rejected" (
      dict (
        ("plan_id", Json.str plan.plan_id)
        ∷ ("plan_revision", Json.num plan.revision)
        ∷ ("plan_sha256", Json.str plan.plan_sha256)
        ∷ ("actor", Json.str principal.principal_id)
        ∷ ("reason", Json.str "run_cancelled")
        ∷ []))

unfoldable pub report_action :
    Principal → String → RunRecord → Option RequiredActionRecord → Plane (Unit {0})
report_action principal run_id current none = pure tt
report_action principal run_id current (some action) =
    append_event run_id current.active_attempt_id EventSource.control "run.action_cancelled" (
      dict (
        ("action_id", Json.str action.action_id)
        ∷ ("type", type_value action.type)
        ∷ ("actor", Json.str principal.principal_id)
        ∷ []))

-- what follows the reading of the Run
unfoldable pub cancel_current : Principal → String → RunRecord → Plane RunRecord
cancel_current principal run_id current = if is_terminal current.status then pure current else do
  now ← utc_now
  action ← pending_action_of current.required_action_id
  let cancelled = cancelled_run current (is_some action) now
  plan ←
      if current.phase == RunPhase.waiting_approval
      then cancel_plan principal run_id current now action
      else cancel_attempt current now action current.active_attempt_id
  block_after_cancel current (is_some action)
  append_event run_id cancelled.active_attempt_id EventSource.control "run.cancelled"
      (dict (("actor", Json.str principal.principal_id) ∷ []))
  report_plan principal run_id current plan
  report_action principal run_id current action
  audit_run principal cancelled "run.cancel" "success" none (dict [])
  pure cancelled

unfoldable pub cancel : Principal → String → Plane RunRecord
cancel principal run_id = do
  current ← owned_run principal run_id
  cancel_current principal run_id current
