-- ===== src/Control/Failures.antt =====
-- The exceptions of control/plane.py and the values that its operations are given.
use dsh_base_agent.Prelude.{
  ℕ, String, Bool, true, false, Option, Error, value_error, integrity_error, operational_error,
  required_action_not_found,
}
use dsh_base_agent.Models.{PlanApprovalDecision}
use dsh_base_agent.Plan.Proposal.{PlanReact}

-- `store e` is an exception of the store that nothing catches, `other` an exception of code that is
-- not modelled, by its class, and `invalid` the built-in `ValueError`. Messages are left out.
pub data Failure : Type 0 where
  store : Error → Failure
  agent_not_found run_access_denied conversation_access_denied : Failure
  run_transition plan_decision_conflict invalid artifact_not_found : Failure
  other : String → Failure

-- `except StoreError`
abbrev pub is_store_error : Error → Bool
is_store_error value_error = false
is_store_error integrity_error = false
is_store_error operational_error = false
is_store_error _ = true

-- `except RequiredActionNotFoundError`
abbrev pub is_action_not_found : Error → Bool
is_action_not_found required_action_not_found = true
is_action_not_found _ = false

pub record Principal : Type 0 where
  pub tenant_id : String
  pub principal_id : String

-- The fields that the control plane reads; `fingerprint` is the digest of the definition.
pub record Agent : Type 0 where
  pub name : String
  pub version : String
  pub fingerprint : String
  pub plan_react : Option PlanReact
  pub allow_user_input : Bool

pub record PlanApprovalResponse : Type 0 where
  pub decision : PlanApprovalDecision
  pub plan_id : String
  pub plan_revision : ℕ
  pub plan_sha256 : String
  pub comment : Option String
