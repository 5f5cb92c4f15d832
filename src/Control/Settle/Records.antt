-- ===== src/Control/Settle/Records.antt =====
-- The records that the settlements write.
use dsh_base_agent.Prelude.{ℕ, ◌+◌, String, Option, none, some, [], ◌∷◌, nat_eq}
use dsh_base_agent.Models.{
  Json, RunRecord, RunStatus, run_status_eq, RunPhase, RunAttempt, AttemptStatus, attempt_status_eq,
  DispatchState, PlanRecord, RequiredActionRecord, RequiredActionType, RequiredActionSource,
  RequiredActionStatus,
}
use dsh_base_agent.Plan.Compile.{items, texts, step_json}
use dsh_base_agent.Control.Failures.{Principal}
use dsh_base_agent.Control.Shared.{dict}

-- `Principal(run.tenant_id, run.principal_id)`
abbrev pub principal_of : RunRecord → Principal
principal_of run = record { tenant_id = run.tenant_id; principal_id = run.principal_id }

abbrev pub succeeded_attempt : RunAttempt → String → Option String → ℕ → RunAttempt
succeeded_attempt attempt output finish_reason now = record attempt {
  status = AttemptStatus.succeeded;
  dispatch_state = DispatchState.settled;
  revision = attempt.revision + 1;
  finish_reason = finish_reason;
  output = some output;
  finished_at = some now;
  updated_at = now;
}

abbrev pub failed_attempt : RunAttempt → String → ℕ → RunAttempt
failed_attempt attempt message now = record attempt {
  status = AttemptStatus.failed;
  dispatch_state = DispatchState.settled;
  revision = attempt.revision + 1;
  error = some message;
  finished_at = some now;
  updated_at = now;
}

abbrev pub succeeded_run : RunRecord → String → ℕ → RunRecord
succeeded_run current output now = record current {
  status = RunStatus.succeeded;
  phase = RunPhase.completed;
  revision = current.revision + 1;
  output = some output;
  error = none;
  updated_at = now;
}

abbrev pub failed_run : RunRecord → String → ℕ → RunRecord
failed_run current message now = record current {
  status = RunStatus.failed;
  revision = current.revision + 1;
  error = some message;
  updated_at = now;
}

abbrev pub proposed_run : RunRecord → PlanRecord → String → ℕ → RunRecord
proposed_run current plan action_id now = record current {
  status = RunStatus.waiting;
  phase = RunPhase.waiting_approval;
  plan_id = some plan.plan_id;
  required_action_id = some action_id;
  revision = current.revision + 1;
  output = none;
  error = none;
  updated_at = now;
}

-- the Action that asks for the decision; `action_id` and `created` are drawn by pydantic
abbrev pub approval_action : RunRecord → String → PlanRecord → String → ℕ → RequiredActionRecord
approval_action current attempt_id plan action_id created = record {
  action_id = action_id;
  run_id = current.run_id;
  attempt_id = attempt_id;
  conversation_id = current.conversation_id;
  tenant_id = current.tenant_id;
  principal_id = current.principal_id;
  type = RequiredActionType.plan_approval;
  source = RequiredActionSource.policy;
  status = RequiredActionStatus.pending;
  payload = dict (
      ("plan_id", Json.str plan.plan_id)
      ∷ ("plan_revision", Json.num plan.revision)
      ∷ ("plan_sha256", Json.str plan.plan_sha256)
      ∷ ("summary", Json.str plan.summary)
      ∷ ("steps", Json.arr (items step_json plan.steps))
      ∷ ("requested_tools", texts plan.requested_tools)
      ∷ ("workflow_id", Json.str plan.workflow_id)
      ∷ ("workflow_version", Json.str plan.workflow_version)
      ∷ []);
  response = none;
  revision = 1;
  expires_at = none;
  answered_by = none;
  answered_at = none;
  consumed_by_attempt_id = none;
  created_at = created;
  updated_at = created;
}
