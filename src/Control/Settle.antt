-- ===== src/Control/Settle.antt =====
-- `_settle_planning`, `_settle_success`, `_settle_failure` and `_set_dispatch_state`.
mod Records
pub use Records.*
use dsh_base_agent.Prelude.{
  ℕ, ◌+◌, String, ◌||◌, Option, none, some, [], ◌∷◌, ◌==◌, if◌then◌else◌, nat_eq,
}
use dsh_base_agent.Prelude.Lists.{length}
use dsh_base_agent.Models.{
  Json, RunRecord, RunStatus, run_status_eq, RunPhase, RunAttempt, AttemptStatus, attempt_status_eq,
  DispatchState, PlanRecord, RequiredActionRecord, RequiredActionType, RequiredActionSource,
  RequiredActionStatus, EventSource, WorkLease,
}
use dsh_base_agent.Plan.Compile.{items, texts, step_json}
use dsh_base_agent.Store.Operation.{Operation}
use dsh_base_agent.Store.Runs.{get_run}
use dsh_base_agent.Store.Attempts.{get_attempt}
use dsh_base_agent.Control.Failures.{Principal}
use dsh_base_agent.Control.Calls.{Plane, ◌>>=◌, ◌>>◌, pure, await, call, new_id, utc_now}
use dsh_base_agent.Control.Shared.{dict, type_value, append_event, audit_run}
use dsh_base_agent.Control.Cancel.{is_settled}

unfoldable pub propose_plan :
    RunRecord → String → PlanRecord → String → Option String → Option WorkLease → Plane (Unit {0})
propose_plan current attempt_id plan output finish_reason lease = do
  attempt ← await (get_attempt attempt_id)
  now ← utc_now
  action_id ← new_id
  created ← utc_now
  let settled = succeeded_attempt attempt output finish_reason now
  let action = approval_action current attempt.attempt_id plan action_id created
  let waiting = proposed_run current plan action_id now
  call (
      Operation.complete_planning waiting settled plan action current.revision attempt.revision
        lease)
  append_event current.run_id (some attempt.attempt_id) EventSource.control "plan.proposed" (
      dict (
        ("plan_id", Json.str plan.plan_id)
        ∷ ("plan_revision", Json.num plan.revision)
        ∷ ("plan_sha256", Json.str plan.plan_sha256)
        ∷ ("action_id", Json.str action_id)
        ∷ ("step_count", Json.num (length plan.steps))
        ∷ ("requested_tools", texts plan.requested_tools)
        ∷ []))
  append_event current.run_id (some attempt.attempt_id) EventSource.control "run.requires_action" (
      dict (
        ("action_id", Json.str action_id)
        ∷ ("type", type_value RequiredActionType.plan_approval)
        ∷ ("source", Json.str "policy")
        ∷ []))
  audit_run (principal_of waiting) waiting "plan.propose" "waiting_approval"
      (some attempt.attempt_id)
      (dict (
        ("plan_id", Json.str plan.plan_id)
        ∷ ("plan_revision", Json.num plan.revision)
        ∷ ("plan_sha256", Json.str plan.plan_sha256)
        ∷ ("action_id", Json.str action_id)
        ∷ []))

-- A Run that was cancelled meanwhile is left as it is.
abbrev pub unless_cancelled : RunRecord → Plane (Unit {0}) → Plane (Unit {0})
unless_cancelled current rest = if current.status == RunStatus.cancelled then pure tt else rest

unfoldable pub settle_planning :
    RunRecord
    → RunAttempt
    → PlanRecord
    → String
    → Option String
    → Option WorkLease
    → Plane (Unit {0})
settle_planning started_run started_attempt plan output finish_reason lease = do
  current ← await (get_run started_run.run_id)
  unless_cancelled current
      (propose_plan current started_attempt.attempt_id plan output finish_reason lease)

abbrev pub reason_json : Option String → Json
reason_json none = Json.null
reason_json (some reason) = Json.str reason

unfoldable pub succeed :
    RunRecord → String → String → Option String → Option WorkLease → Plane (Unit {0})
succeed current attempt_id output finish_reason lease = do
  attempt ← await (get_attempt attempt_id)
  now ← utc_now
  let settled = succeeded_run current output now
  call (
      Operation.settle_attempt settled (succeeded_attempt attempt output finish_reason now)
        current.revision attempt.revision lease none none)
  append_event settled.run_id (some attempt.attempt_id) EventSource.control "run.succeeded"
      (dict (("finish_reason", reason_json finish_reason) ∷ []))
  audit_run (principal_of settled) settled "run.attempt.finish" "success" (some attempt.attempt_id)
      (dict [])

unfoldable pub settle_success :
    RunRecord → RunAttempt → String → Option String → Option WorkLease → Plane (Unit {0})
settle_success started_run started_attempt output finish_reason lease = do
  current ← await (get_run started_run.run_id)
  unless_cancelled current (succeed current started_attempt.attempt_id output finish_reason lease)

-- `error_type` is the class of the exception and `message` that class with its text.
unfoldable pub fail : RunRecord → String → String → String → Option WorkLease → Plane (Unit {0})
fail current attempt_id error_type message lease = do
  attempt ← await (get_attempt attempt_id)
  now ← utc_now
  let failed = failed_run current message now
  call (
      Operation.settle_attempt failed (failed_attempt attempt message now) current.revision
        attempt.revision lease none none)
  append_event failed.run_id (some attempt.attempt_id) EventSource.control "run.failed"
      (dict (("error_type", Json.str error_type) ∷ []))
  audit_run (principal_of failed) failed "run.attempt.finish" "error" (some attempt.attempt_id)
      (dict (("error_type", Json.str error_type) ∷ []))

unfoldable pub settle_failure :
    RunRecord → RunAttempt → String → String → Option WorkLease → Plane (Unit {0})
settle_failure started_run started_attempt error_type message lease = do
  current ← await (get_run started_run.run_id)
  unless_cancelled current (fail current started_attempt.attempt_id error_type message lease)

abbrev dispatch_tag : DispatchState → ℕ
dispatch_tag DispatchState.not_sent = 0
dispatch_tag DispatchState.dispatching = 1
dispatch_tag DispatchState.accepted = 2
dispatch_tag DispatchState.settled = 3
dispatch_tag DispatchState.unknown = 4

abbrev pub dispatched_attempt : RunAttempt → DispatchState → ℕ → RunAttempt
dispatched_attempt current state now = record current {
  dispatch_state = state;
  revision = current.revision + 1;
  updated_at = now;
}

unfoldable pub dispatch : RunAttempt → DispatchState → Option WorkLease → Plane RunAttempt
dispatch current state lease =
    if is_settled current.status
      || current.status == AttemptStatus.waiting
      || dispatch_tag current.dispatch_state == dispatch_tag state
    then pure current
    else do
      now ← utc_now
      call (Operation.replace_attempt (dispatched_attempt current state now) current.revision lease)
      pure (dispatched_attempt current state now)

unfoldable pub set_dispatch_state : String → DispatchState → Option WorkLease → Plane RunAttempt
set_dispatch_state attempt_id state lease = do
  current ← await (get_attempt attempt_id)
  dispatch current state lease
