-- ===== src/Control/Decide.antt =====
-- `_resolve_plan_action`, with `approve_plan` and `reject_plan`.
mod Records
pub use Records.*
use dsh_base_agent.Prelude.{
  ℕ, ◌+◌, String, Bool, true, false, not, ◌||◌, Option, none, some, [], ◌∷◌, ok, err, ◌==◌, ◌!=◌,
  string_eq, nat_eq, option_eq, if◌then◌else◌,
}
use dsh_base_agent.Models.{
  Json, Fields, RunRecord, RunStatus, run_status_eq, RunPhase, run_phase_eq, PlanRecord, PlanStatus,
  PlanApprovalDecision, RequiredActionRecord, RequiredActionStatus, action_status_eq,
  is_plan_approval, EventSource,
}
use dsh_base_agent.Plan.Compile.{compiled_workflow}
use dsh_base_agent.Store.Operation.{Operation}
use dsh_base_agent.Store.Actions.{get_required_action}
use dsh_base_agent.Store.Plans.{get_plan}
use dsh_base_agent.Control.Failures.{
  Failure, Principal, PlanApprovalResponse, is_store_error, is_action_not_found,
}
use dsh_base_agent.Control.Calls.{
  Plane, Env, ◌>>=◌, ◌>>◌, pure, await, catching, call, ask, utc_now, raise_if, or_raise,
}
use dsh_base_agent.Control.Shared.{dict, type_value, owned_run, append_event, audit_run}

pub record PlanDecisionView : Type 0 where
  pub run : RunRecord
  pub plan : PlanRecord

abbrev pub is_stale : Option ℕ → RunRecord → Bool
is_stale none current = false
is_stale (some expected) current = current.revision != expected

abbrev pub is_other : Option String → String → Bool
is_other none current_action_id = false
is_other (some action_id) current_action_id = current_action_id != action_id

-- the tests of the Run, of its Action and of its plan
abbrev pub is_not_waiting : RunRecord → Bool
is_not_waiting current =
    current.status != RunStatus.waiting || current.phase != RunPhase.waiting_approval

unfoldable pub check_current : RunRecord → Option String → Option ℕ → Plane String
check_current current action_id expected_run_revision = do
  raise_if (is_stale expected_run_revision current) Failure.plan_decision_conflict
  current_action_id ← or_raise current.required_action_id Failure.plan_decision_conflict
  raise_if (is_other action_id current_action_id) Failure.plan_decision_conflict
  pure current_action_id

unfoldable pub check_action :
    Principal → String → RunRecord → RequiredActionRecord → Plane (Unit {0})
check_action principal run_id current action = do
  raise_if (action.run_id != run_id || some action.attempt_id != current.active_attempt_id)
      Failure.plan_decision_conflict
  raise_if (action.conversation_id != current.conversation_id) Failure.plan_decision_conflict
  raise_if
      (action.tenant_id != principal.tenant_id || action.principal_id != principal.principal_id)
      Failure.run_access_denied
  raise_if (not (is_plan_approval action.type)) Failure.plan_decision_conflict
  raise_if (action.status != RequiredActionStatus.pending) Failure.plan_decision_conflict

unfoldable pub check_plan :
    PlanRecord → RequiredActionRecord → PlanApprovalResponse → Plane (Unit {0})
check_plan plan action response = do
  raise_if (not (is_pending plan.status)) Failure.plan_decision_conflict
  raise_if (plan.plan_id != response.plan_id) Failure.plan_decision_conflict
  raise_if (plan.revision != response.plan_revision) Failure.plan_decision_conflict
  raise_if (plan.plan_sha256 != response.plan_sha256) Failure.plan_decision_conflict
  raise_if
      (not (is_text (get_of "plan_id" action.payload) plan.plan_id)
        || not (is_number (get_of "plan_revision" action.payload) plan.revision)
        || not (is_text (get_of "plan_sha256" action.payload) plan.plan_sha256))
      Failure.plan_decision_conflict

-- The template and the arguments are verified again before an approval.
abbrev pub compiles : Env → PlanRecord → Bool
compiles env plan = elim (compiled_workflow env.workflow_script env.sha256 env.digest plan) [
  | ok _ ↦ true
  | err _ ↦ false
]

unfoldable pub verify_approval : PlanRecord → PlanApprovalResponse → Plane (Unit {0})
verify_approval plan response = if not (is_approve response.decision) then pure tt else do
  verified ← ask (λ env. compiles env plan)
  raise_if (not verified) Failure.plan_decision_conflict

unfoldable pub resolve_current :
    Principal
    → String
    → PlanApprovalResponse
    → Option String
    → Option ℕ
    → RunRecord
    → Plane PlanDecisionView
resolve_current principal run_id response action_id expected_run_revision current = do
  raise_if (is_not_waiting current) Failure.plan_decision_conflict
  current_action_id ← check_current current action_id expected_run_revision
  action ←
      catching is_action_not_found Failure.plan_decision_conflict
        (await (get_required_action current_action_id))
  check_action principal run_id current action
  plan ← await (get_plan run_id)
  check_plan plan action response
  verify_approval plan response
  let approved = is_approve response.decision
  now ← utc_now
  let decided = decided_plan plan principal response now
  let resulting_run = decided_run current approved now
  catching is_store_error Failure.plan_decision_conflict (
      call (
        Operation.decide_plan resulting_run decided (resolved_action action principal response now)
          current.revision plan.revision action.revision))
  append_event run_id (some action.attempt_id) EventSource.control "run.action_submitted" (
      dict (
        ("action_id", Json.str action.action_id)
        ∷ ("type", type_value action.type)
        ∷ ("decision", decision_json response.decision)
        ∷ ("submitted_by", Json.str principal.principal_id)
        ∷ []))
  append_event run_id current.active_attempt_id EventSource.control
      (if approved then "plan.approved" else "plan.rejected")
      (dict (
        ("plan_id", Json.str decided.plan_id)
        ∷ ("plan_revision", Json.num decided.revision)
        ∷ ("plan_sha256", Json.str decided.plan_sha256)
        ∷ ("action_id", Json.str action.action_id)
        ∷ ("actor", Json.str principal.principal_id)
        ∷ []))
  audit_run principal resulting_run (if approved then "plan.approved" else "plan.rejected")
      "success" none
      (dict (
        ("plan_id", Json.str decided.plan_id)
        ∷ ("plan_revision", Json.num decided.revision)
        ∷ ("plan_sha256", Json.str decided.plan_sha256)
        ∷ ("action_id", Json.str action.action_id)
        ∷ []))
  pure (record { run = resulting_run; plan = decided })

unfoldable pub resolve_plan_action :
    Principal → String → PlanApprovalResponse → Option String → Option ℕ → Plane PlanDecisionView
resolve_plan_action principal run_id response action_id expected_run_revision = do
  current ← owned_run principal run_id
  resolve_current principal run_id response action_id expected_run_revision current

unfoldable pub approve_plan :
    Principal → String → String → ℕ → String → Option String → Plane PlanDecisionView
approve_plan principal run_id plan_id plan_revision plan_sha256 comment =
    resolve_plan_action principal run_id
      (record {
        decision = PlanApprovalDecision.approve;
        plan_id = plan_id;
        plan_revision = plan_revision;
        plan_sha256 = plan_sha256;
        comment = comment;
      })
      none none

unfoldable pub reject_plan :
    Principal → String → String → ℕ → String → Option String → Plane PlanDecisionView
reject_plan principal run_id plan_id plan_revision plan_sha256 comment =
    resolve_plan_action principal run_id
      (record {
        decision = PlanApprovalDecision.reject;
        plan_id = plan_id;
        plan_revision = plan_revision;
        plan_sha256 = plan_sha256;
        comment = comment;
      })
      none none
