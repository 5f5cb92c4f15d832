-- ===== src/Control/Decision/Checks.antt =====
-- What the tests of `_resolve_plan_action` ensure of the plan and of the action.
use dsh_base_agent.Prelude.{
  ◌≡◌, refl, String, string_eq, nat_eq, Bool, true, false, not, eq_of_beq, arith, if◌then◌else◌,
}
use dsh_base_agent.Models.{RunRecord, PlanRecord, RequiredActionRecord, is_plan_approval}
use dsh_base_agent.Control.Failures.{Failure, Principal, PlanApprovalResponse}
use dsh_base_agent.Control.Calls.{Env, World, Plane, ◌>>=◌, pure, ask, raise_if}
use dsh_base_agent.Control.Decision.Results.{
  OnOk, Ensures, Ensures-both, Ensures-pure, Ensures-raise_if, Ensures-last,
}
use dsh_base_agent.Control.Decide.{
  check_action, check_plan, verify_approval, is_approve, compiles, is_pending,
}

-- the plan that is decided on is the one that was inspected
pub record IsInspected (plan : PlanRecord) (response : PlanApprovalResponse) : Type 0 where
  pub pending : is_pending plan.status ≡ true
  pub id : plan.plan_id ≡ response.plan_id
  pub revision : plan.revision ≡ response.plan_revision
  pub sha256 : plan.plan_sha256 ≡ response.plan_sha256

module _ (env : Env) (plan : PlanRecord) (action : RequiredActionRecord)
    (response : PlanApprovalResponse) where
  pub Ensures-check_plan :
      Ensures env (λ _. IsInspected plan response) (check_plan plan action response)
  unfolding check_plan
  Ensures-check_plan = Ensures-both env _ _ _ _ (Ensures-raise_if env _ _) λ _ pending.
      Ensures-both env _ _ _ _ (Ensures-raise_if env _ _) λ _ id.
        Ensures-both env _ _ _ _ (Ensures-raise_if env _ _) λ _ revision.
          Ensures-both env _ _ _ _ (Ensures-raise_if env _ _) λ _ sha256.
            let facts : IsInspected plan response = record {
              pending = ground (arith, pending);
              id = eq_of_beq plan.plan_id response.plan_id (ground (arith, id));
              revision = eq_of_beq plan.revision response.plan_revision (ground (arith, revision));
              sha256 = eq_of_beq plan.plan_sha256 response.plan_sha256 (ground (arith, sha256));
            } in
            Ensures-last env _ _ _ facts

  verify_case :
      (approved : Bool)
      → is_approve response.decision ≡ approved
      → (let m : Plane (Unit {0}) =
            if not approved
            then pure tt
            else ask (λ env. compiles env plan) >>= λ verified.
                raise_if (not verified) Failure.plan_decision_conflict in
          Ensures env (λ _. is_approve response.decision ≡ true → compiles env plan ≡ true) m)
  unfolding ◌>>=◌ raise_if
  verify_case false is = Ensures-pure env _ tt (λ h. cc)
  verify_case true is = record { at = λ w. verified (compiles env plan) refl w }
    where
      verified :
          (b : Bool)
          → compiles env plan ≡ b
          → (w : World)
          → OnOk
              (λ _. is_approve response.decision ≡ true → compiles env plan ≡ true)
              (raise_if (not b) Failure.plan_decision_conflict env w).0
      verified true h w = λ _. h
      verified false h w = tt

  pub Ensures-verify_approval :
      Ensures env
        (λ _. is_approve response.decision ≡ true → compiles env plan ≡ true)
        (verify_approval plan response)
  unfolding verify_approval
  Ensures-verify_approval = verify_case (is_approve response.decision) refl

-- the action that the Run waits for asks for the approval of its plan
pub record IsAsked (principal : Principal) (run_id : String) (action : RequiredActionRecord)
    : Type 0 where
  pub run : action.run_id ≡ run_id
  pub tenant : action.tenant_id ≡ principal.tenant_id
  pub owner : action.principal_id ≡ principal.principal_id
  pub type : is_plan_approval action.type ≡ true

pub Ensures-check_action :
    (env : Env) (principal : Principal) (run_id : String) (current : RunRecord)
    (action : RequiredActionRecord)
    → Ensures env
        (λ _. IsAsked principal run_id action)
        (check_action principal run_id current action)
unfolding check_action
Ensures-check_action env principal run_id current action =
    Ensures-both env _ _ _ _ (Ensures-raise_if env _ _) λ _ own.
      Ensures-both env _ _ _ _ (Ensures-raise_if env _ _) λ _ conversation.
        Ensures-both env _ _ _ _ (Ensures-raise_if env _ _) λ _ owner.
          Ensures-both env _ _ _ _ (Ensures-raise_if env _ _) λ _ approval.
            let facts : IsAsked principal run_id action = record {
              run = eq_of_beq action.run_id run_id (ground (arith, own));
              tenant = eq_of_beq action.tenant_id principal.tenant_id (ground (arith, owner));
              owner = eq_of_beq action.principal_id principal.principal_id (ground (arith, owner));
              type = ground (arith, approval);
            } in
            Ensures-last env _ _ _ facts
