-- ===== src/Control/Guarantees/Decide.antt =====
-- The guarantee of `_resolve_plan_action`.
use dsh_base_agent.Prelude.{
  ℕ, ◌≡◌, refl, String, Bool, true, false, ◌||◌, Option, none, some, arith, ◌!=◌, if◌then◌else◌,
}
use dsh_base_agent.Models.{
  RunRecord, RunStatus, run_status_eq, RunPhase, run_phase_eq, PlanRecord, RequiredActionRecord,
}
use dsh_base_agent.Store.Operation.{Operation}
use dsh_base_agent.Store.Actions.{get_required_action}
use dsh_base_agent.Store.Plans.{get_plan}
use dsh_base_agent.Control.Failures.{Failure, Principal, PlanApprovalResponse, is_store_error}
use dsh_base_agent.Control.Calls.{catching, call}
use dsh_base_agent.Control.Decide.{
  resolve_plan_action, resolve_current, check_current, check_action, check_plan, verify_approval,
  decided_run, decided_plan, resolved_action, is_approve,
}
use dsh_base_agent.Control.Lifecycle.{Move}
use dsh_base_agent.Control.Rules.{Guarantees, Guarantees-catching, Guarantees-write}
use dsh_base_agent.Control.Sequence.{Guarantees-read, Guarantees-guarded, Finds-owned_run}
use dsh_base_agent.Control.Guarantees.Shared.{guarantee_rules, report_rules}

Move-decide :
    (s : RunStatus) (p : RunPhase) (approved : Bool)
    → (s != RunStatus.waiting || p != RunPhase.waiting_approval) ≡ false
    → Move s p
        (if approved then RunStatus.queued else RunStatus.cancelled)
        (if approved then RunPhase.executing else p)
Move-decide RunStatus.waiting RunPhase.waiting_approval true h = Move.approve
Move-decide RunStatus.waiting RunPhase.waiting_approval false h = Move.cancel_waiting
Move-decide RunStatus.waiting RunPhase.direct approved h = cc
Move-decide RunStatus.waiting RunPhase.planning approved h = cc
Move-decide RunStatus.waiting RunPhase.executing approved h = cc
Move-decide RunStatus.waiting RunPhase.completed approved h = cc
Move-decide RunStatus.queued p approved h = cc
Move-decide RunStatus.running p approved h = cc
Move-decide RunStatus.succeeded p approved h = cc
Move-decide RunStatus.failed p approved h = cc
Move-decide RunStatus.cancelled p approved h = cc

-- the tests, which write nothing
module _ (known : Option RunRecord) where
  pub Guarantees-check_action :
      (principal : Principal) (run_id : String) (current : RunRecord)
      (action : RequiredActionRecord)
      → Guarantees known (check_action principal run_id current action)
  unfolding check_action
  Guarantees-check_action principal run_id current action = search guarantee_rules depth 20

  pub Guarantees-check_plan :
      (plan : PlanRecord) (action : RequiredActionRecord) (response : PlanApprovalResponse)
      → Guarantees known (check_plan plan action response)
  unfolding check_plan
  Guarantees-check_plan plan action response = search guarantee_rules depth 20

  pub Guarantees-verify_approval :
      (plan : PlanRecord) (response : PlanApprovalResponse)
      → Guarantees known (verify_approval plan response)
  unfolding verify_approval
  Guarantees-verify_approval plan response = search guarantee_rules depth 20

  pub Guarantees-check_current :
      (current : RunRecord) (action_id : Option String) (expected : Option ℕ)
      → Guarantees known (check_current current action_id expected)
  unfolding check_current
  Guarantees-check_current current action_id expected = search guarantee_rules depth 20

pub ruleset decide_rules = (
  report_rules, Guarantees-check_action, Guarantees-check_plan, Guarantees-verify_approval,
  Guarantees-check_current,
)

Guarantees-resolve_current :
    (principal : Principal) (run_id : String) (response : PlanApprovalResponse)
    (action_id : Option String) (expected : Option ℕ) (current : RunRecord)
    → Guarantees
        (some current)
        (resolve_current principal run_id response action_id expected current)
unfolding resolve_current get_required_action get_plan
Guarantees-resolve_current principal run_id response action_id expected current =
    Guarantees-guarded (some current) _ _ _ λ waits.
      let write : (now : ℕ) (plan : PlanRecord) (action : RequiredActionRecord)
          → Guarantees (some current) (
              catching is_store_error Failure.plan_decision_conflict (
                call (
                  Operation.decide_plan (decided_run current (is_approve response.decision) now)
                    (decided_plan plan principal response now)
                    (resolved_action action principal response now) current.revision plan.revision
                    action.revision))) =
        λ now plan action. Guarantees-catching (some current) _ _ _ (
          Guarantees-write current (decided_run current (is_approve response.decision) now) _
            (refl, refl) refl
            (record {
              submitted = refl;
              counted = omega arith;
              attempted = omega arith;
              moved = Move-decide current.status current.phase (is_approve response.decision) waits;
            })) in
      search (decide_rules, write) depth 60

pub Guarantees-resolve_plan_action :
    (principal : Principal) (run_id : String) (response : PlanApprovalResponse)
    (action_id : Option String) (expected : Option ℕ)
    → Guarantees none (resolve_plan_action principal run_id response action_id expected)
unfolding resolve_plan_action
Guarantees-resolve_plan_action principal run_id response action_id expected =
    Guarantees-read none some _ _ (Finds-owned_run principal run_id)
      (Guarantees-resolve_current principal run_id response action_id expected)
