-- ===== src/Control/Decision.antt =====
-- What a decision on a plan that is returned says of the plan, and what it has committed.
pub mod Results
pub mod Checks
pub mod Trace
use dsh_base_agent.Prelude.{
  ℕ, suc, ◌≡◌, String, string_eq, nat_eq, Bool, true, false, not, none, some, Result, ok, err,
  eq_of_beq, subst, if◌then◌else◌,
}
use dsh_base_agent.Models.{RunStatus, RunPhase, PlanRecord, PlanStatus, RequiredActionRecord}
use dsh_base_agent.Store.Connection.{SqliteControlStore, working}
use dsh_base_agent.Store.Operation.{Operation, perform}
use dsh_base_agent.Store.Plans.{get_plan_sync}
use dsh_base_agent.Store.Decided.{HasDecided}
use dsh_base_agent.Control.Guarantee.{Advances, Advances-trans}
use dsh_base_agent.Control.Rules.{Guarantees}
use dsh_base_agent.Control.Decision.Checks.{IsInspected, IsAsked}
use dsh_base_agent.Control.Decision.Trace.{OnReturn}
use dsh_base_agent.Control.Failures.{Failure, Principal, PlanApprovalResponse}
use dsh_base_agent.Control.Calls.{Env, Plane, then_plane, ◌>>=◌, pure, ask, raise_if}
use dsh_base_agent.Control.Decision.Results.{
  OnOk, Ensures, Ensures-both, Ensures-pure, Ensures-raise_if, Ensures-last,
}
use dsh_base_agent.Control.Decide.{
  PlanDecisionView, check_plan, verify_approval, decided_plan, is_approve, compiles, is_pending,
  resolved_action,
}

-- A decision as it is returned: on exactly the plan, the revision and the hash that the response
-- names, in the name of the principal; an approved plan compiles to the hashes it was stored with,
-- and its Run is queued for execution, while the Run of a rejected plan is cancelled.
pub record IsDecided (env : Env) (principal : Principal) (response : PlanApprovalResponse)
    (view : PlanDecisionView) : Type 0 where
  pub id : view.plan.plan_id ≡ response.plan_id
  pub revision : view.plan.revision ≡ suc response.plan_revision
  pub sha256 : view.plan.plan_sha256 ≡ response.plan_sha256
  pub decided_by : view.plan.decided_by ≡ some principal.principal_id
  pub verified : is_approve response.decision ≡ true → compiles env view.plan ≡ true
  pub approved :
      is_approve response.decision ≡ true
      → (view.plan.status ≡ PlanStatus.approved)
        × (view.run.status ≡ RunStatus.queued)
        × (view.run.phase ≡ RunPhase.executing)
  pub rejected :
      is_approve response.decision ≡ false
      → (view.plan.status ≡ PlanStatus.rejected) × (view.run.status ≡ RunStatus.cancelled)

-- How a decision came about between the stores `start` and `final`: the plan that was read in the
-- store `read`, and the call of `decide_plan` on the store `before`.
pub record IsCommitted (principal : Principal) (run_id : String) (response : PlanApprovalResponse)
    (view : PlanDecisionView) (start final : SqliteControlStore) : Type 0 where
  pub plan : PlanRecord
  pub read : SqliteControlStore
  pub reads : Advances start read
  pub found : get_plan_sync run_id (working read) ≡ ok plan
  pub inspected : IsInspected plan response
  pub before : SqliteControlStore
  pub follows : Advances read before
  pub action : RequiredActionRecord
  pub asked : IsAsked principal run_id action
  pub now : ℕ
  pub decided : view.plan ≡ decided_plan plan principal response now
  pub expected_run : ℕ
  pub decides :
      (let op : Operation =
          Operation.decide_plan view.run view.plan
            (resolved_action action principal response now)
            expected_run
            plan.revision
            action.revision in
        ((perform op before).0 ≡ none)
        × HasDecided view.run view.plan
            (resolved_action action principal response now)
            (perform op before).1.disk
        × Advances (perform op before).1 final)
