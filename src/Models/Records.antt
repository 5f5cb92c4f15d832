-- ===== src/Models/Records.antt =====
-- The frozen pydantic records.
use Prim.Native.Nat.{ℕ}
use Prim.Native.String.{String}
use mathlib.Core.Bool.{Bool}
use mathlib.Core.List.{List}
use mathlib.Core.Option.{Option}
use dsh_base_agent.Models.Values.{Json}
use dsh_base_agent.Models.Enums.{
  RunStatus, RunPhase, AttemptStatus, DispatchState, WorkResourceType, ConversationStatus,
  EventSource, PlanStatus, RequiredActionType, RequiredActionSource, RequiredActionStatus,
}

pub record ConversationRecord : Type 0 where
  pub conversation_id : String
  pub tenant_id : String
  pub principal_id : String
  pub agent_id : String
  pub agent_version : String
  pub agent_fingerprint : String
  pub dsh_home_key : String
  pub dsh_session_id : String
  pub status : ConversationStatus
  pub next_sequence : ℕ
  pub revision : ℕ
  pub blocked_reason : Option String
  pub metadata : Json
  pub created_at : ℕ
  pub updated_at : ℕ

pub record RunRecord : Type 0 where
  pub run_id : String
  pub conversation_id : Option String
  pub sequence : Option ℕ
  pub tenant_id : String
  pub principal_id : String
  pub agent_id : String
  pub agent_version : String
  pub agent_fingerprint : String
  pub input : String
  pub metadata : Json
  pub phase : RunPhase
  pub plan_id : Option String
  pub status : RunStatus
  pub revision : ℕ
  pub attempt_count : ℕ
  pub active_attempt_id : Option String
  pub required_action_id : Option String
  pub output : Option String
  pub error : Option String
  pub cancel_requested : Bool
  pub created_at : ℕ
  pub updated_at : ℕ

pub record RunAttempt : Type 0 where
  pub attempt_id : String
  pub run_id : String
  pub number : ℕ
  pub dsh_session_id : String
  pub phase : RunPhase
  pub status : AttemptStatus
  pub dispatch_state : DispatchState
  pub worker_id : Option String
  pub lease_token : Option ℕ
  pub revision : ℕ
  pub finish_reason : Option String
  pub output : Option String
  pub error : Option String
  pub started_at : Option ℕ
  pub finished_at : Option ℕ
  pub created_at : ℕ
  pub updated_at : ℕ

-- `details` is the source's `data`.
pub record RunEvent : Type 0 where
  pub event_id : String
  pub run_id : String
  pub attempt_id : Option String
  pub sequence : ℕ
  pub source : EventSource
  pub kind : String
  pub details : Json
  pub created_at : ℕ

pub record AuditRecord : Type 0 where
  pub audit_id : String
  pub tenant_id : String
  pub principal_id : String
  pub action : String
  pub outcome : String
  pub run_id : Option String
  pub attempt_id : Option String
  pub agent_id : Option String
  pub tool_name : Option String
  pub details : Json
  pub created_at : ℕ

pub record ArtifactRecord : Type 0 where
  pub artifact_id : String
  pub run_id : String
  pub attempt_id : String
  pub name : String
  pub media_type : String
  pub location : String
  pub sha256 : String
  pub size_bytes : ℕ
  pub created_at : ℕ

pub record RequiredActionRecord : Type 0 where
  pub action_id : String
  pub run_id : String
  pub attempt_id : String
  pub conversation_id : Option String
  pub tenant_id : String
  pub principal_id : String
  pub type : RequiredActionType
  pub source : RequiredActionSource
  pub status : RequiredActionStatus
  pub payload : Json
  pub response : Option Json
  pub revision : ℕ
  pub expires_at : Option ℕ
  pub answered_by : Option String
  pub answered_at : Option ℕ
  pub consumed_by_attempt_id : Option String
  pub created_at : ℕ
  pub updated_at : ℕ

pub record PlanStep : Type 0 where
  pub step_id : String
  pub task : String
  pub depends_on : List String

pub record PlanRecord : Type 0 where
  pub plan_id : String
  pub run_id : String
  pub status : PlanStatus
  pub revision : ℕ
  pub summary : String
  pub steps : List PlanStep
  pub requested_tools : List String
  pub workflow_id : String
  pub workflow_version : String
  pub workflow_script_sha256 : String
  pub workflow_args : Json
  pub workflow_args_sha256 : String
  pub plan_sha256 : String
  pub decided_by : Option String
  pub decision_comment : Option String
  pub decided_at : Option ℕ
  pub created_at : ℕ
  pub updated_at : ℕ

pub record WorkLease : Type 0 where
  pub resource_type : WorkResourceType
  pub resource_id : String
  pub worker_id : String
  pub lease_token : ℕ
  pub expires_at : ℕ
