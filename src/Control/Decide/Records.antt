-- ===== src/Control/Decide/Records.antt =====
-- The payload of an approval, and the records that a decision writes.
use dsh_base_agent.Prelude.{
  ℕ, ◌+◌, String, Bool, true, false, not, Option, none, some, [], ◌∷◌, ◌==◌, string_eq, nat_eq,
  option_eq, if◌then◌else◌,
}
use dsh_base_agent.Models.{
  Json, Fields, RunRecord, RunStatus, run_status_eq, RunPhase, run_phase_eq, PlanRecord, PlanStatus,
  PlanApprovalDecision, RequiredActionRecord, RequiredActionStatus, action_status_eq,
}
use dsh_base_agent.Control.Failures.{Principal, PlanApprovalResponse}
use dsh_base_agent.Control.Shared.{dict}

-- `payload.get(key)`
abbrev pub get : String → Fields → Option Json
get key Fields.end = none
get key (Fields.field name value rest) = if key == name then some value else get key rest

abbrev pub get_of : String → Json → Option Json
get_of key (Json.obj fields) = get key fields
get_of key _ = none

-- `value == text` and `value == number`; `True` is 1 in Python
abbrev pub is_text : Option Json → String → Bool
is_text (some (Json.str s)) text = s == text
is_text _ text = false

abbrev pub is_number : Option Json → ℕ → Bool
is_number (some (Json.num n)) number = n == number
is_number (some (Json.bool true)) number = number == 1
is_number (some (Json.bool false)) number = number == 0
is_number _ number = false

abbrev pub is_pending : PlanStatus → Bool
is_pending PlanStatus.pending = true
is_pending _ = false

abbrev pub is_approve : PlanApprovalDecision → Bool
is_approve PlanApprovalDecision.approve = true
is_approve PlanApprovalDecision.reject = false

abbrev pub comment_json : Option String → Json
comment_json none = Json.null
comment_json (some comment) = Json.str comment

abbrev pub decision_json : PlanApprovalDecision → Json
decision_json PlanApprovalDecision.approve = Json.str "approve"
decision_json PlanApprovalDecision.reject = Json.str "reject"

-- `response.model_dump(mode="json")`
abbrev pub response_json : PlanApprovalResponse → Json
response_json response = dict (
    ("decision", decision_json response.decision)
    ∷ ("plan_id", Json.str response.plan_id)
    ∷ ("plan_revision", Json.num response.plan_revision)
    ∷ ("plan_sha256", Json.str response.plan_sha256)
    ∷ ("comment", comment_json response.comment)
    ∷ [])

-- the records of a decision at the time `now`
abbrev pub decided_plan : PlanRecord → Principal → PlanApprovalResponse → ℕ → PlanRecord
decided_plan plan principal response now = record plan {
  status = if is_approve response.decision then PlanStatus.approved else PlanStatus.rejected;
  revision = plan.revision + 1;
  decided_by = some principal.principal_id;
  decision_comment = response.comment;
  decided_at = some now;
  updated_at = now;
}

abbrev pub resolved_action :
    RequiredActionRecord → Principal → PlanApprovalResponse → ℕ → RequiredActionRecord
resolved_action action principal response now = record action {
  status = RequiredActionStatus.consumed;
  response = some (response_json response);
  revision = action.revision + 1;
  answered_by = some principal.principal_id;
  answered_at = some now;
  updated_at = now;
}

abbrev pub decided_run : RunRecord → Bool → ℕ → RunRecord
decided_run current approved now = record current {
  status = if approved then RunStatus.queued else RunStatus.cancelled;
  phase = if approved then RunPhase.executing else current.phase;
  revision = current.revision + 1;
  active_attempt_id = none;
  required_action_id = none;
  error = if approved then none else some "Plan rejected by approver";
  cancel_requested = not approved;
  updated_at = now;
}
