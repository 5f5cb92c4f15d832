-- ===== src/Models/Enums.antt =====
-- The string enumerations of control/models.py, with `==` on those that the store compares.
use Prim.Native.Nat.{ℕ}
use mathlib.Core.Path.{◌≡◌}
use mathlib.Core.Logic.{◌↔◌}
use mathlib.Core.Bool.{Bool, true}
use native.Mathlib.Omega.{arith}
use dsh_base_agent.Prelude.{Eq, nat_beq}

pub data RunStatus : Type 0 where
  queued running waiting succeeded failed cancelled : RunStatus

pub data RunPhase : Type 0 where
  direct planning waiting_approval executing completed : RunPhase

pub data AttemptStatus : Type 0 where
  queued running waiting succeeded failed cancelled interrupted : AttemptStatus

pub data DispatchState : Type 0 where
  not_sent dispatching accepted settled unknown : DispatchState

pub data WorkResourceType : Type 0 where
  run conversation : WorkResourceType

pub data ConversationStatus : Type 0 where
  active blocked closed : ConversationStatus

pub data EventSource : Type 0 where
  control dsh tool : EventSource

pub data PlanStatus : Type 0 where
  pending approved rejected : PlanStatus

pub data PlanApprovalDecision : Type 0 where
  approve reject : PlanApprovalDecision

pub data RequiredActionType : Type 0 where
  user_input plan_approval : RequiredActionType

pub data RequiredActionSource : Type 0 where
  model policy tool : RequiredActionSource

pub data RequiredActionStatus : Type 0 where
  pending answered consumed expired cancelled : RequiredActionStatus

abbrev run_status_tag : RunStatus → ℕ
run_status_tag RunStatus.queued = 0
run_status_tag RunStatus.running = 1
run_status_tag RunStatus.waiting = 2
run_status_tag RunStatus.succeeded = 3
run_status_tag RunStatus.failed = 4
run_status_tag RunStatus.cancelled = 5

abbrev pub run_status_beq : RunStatus → RunStatus → Bool
run_status_beq a b = nat_beq (run_status_tag a) (run_status_tag b)

pub run_status_beq_iff : (a b : RunStatus) → (run_status_beq a b ≡ true) ↔ (a ≡ b)
run_status_beq_iff a b = ground arith

instance abbrev pub run_status_eq : Eq RunStatus
run_status_eq = record { beq = run_status_beq; beq_iff = run_status_beq_iff }

abbrev run_phase_tag : RunPhase → ℕ
run_phase_tag RunPhase.direct = 0
run_phase_tag RunPhase.planning = 1
run_phase_tag RunPhase.waiting_approval = 2
run_phase_tag RunPhase.executing = 3
run_phase_tag RunPhase.completed = 4

abbrev pub run_phase_beq : RunPhase → RunPhase → Bool
run_phase_beq a b = nat_beq (run_phase_tag a) (run_phase_tag b)

pub run_phase_beq_iff : (a b : RunPhase) → (run_phase_beq a b ≡ true) ↔ (a ≡ b)
run_phase_beq_iff a b = ground arith

instance abbrev pub run_phase_eq : Eq RunPhase
run_phase_eq = record { beq = run_phase_beq; beq_iff = run_phase_beq_iff }

abbrev attempt_status_tag : AttemptStatus → ℕ
attempt_status_tag AttemptStatus.queued = 0
attempt_status_tag AttemptStatus.running = 1
attempt_status_tag AttemptStatus.waiting = 2
attempt_status_tag AttemptStatus.succeeded = 3
attempt_status_tag AttemptStatus.failed = 4
attempt_status_tag AttemptStatus.cancelled = 5
attempt_status_tag AttemptStatus.interrupted = 6

abbrev pub attempt_status_beq : AttemptStatus → AttemptStatus → Bool
attempt_status_beq a b = nat_beq (attempt_status_tag a) (attempt_status_tag b)

pub attempt_status_beq_iff : (a b : AttemptStatus) → (attempt_status_beq a b ≡ true) ↔ (a ≡ b)
attempt_status_beq_iff a b = ground arith

instance abbrev pub attempt_status_eq : Eq AttemptStatus
attempt_status_eq = record { beq = attempt_status_beq; beq_iff = attempt_status_beq_iff }

abbrev conversation_status_tag : ConversationStatus → ℕ
conversation_status_tag ConversationStatus.active = 0
conversation_status_tag ConversationStatus.blocked = 1
conversation_status_tag ConversationStatus.closed = 2

abbrev pub conversation_status_beq : ConversationStatus → ConversationStatus → Bool
conversation_status_beq a b = nat_beq (conversation_status_tag a) (conversation_status_tag b)

pub conversation_status_beq_iff :
    (a b : ConversationStatus) → (conversation_status_beq a b ≡ true) ↔ (a ≡ b)
conversation_status_beq_iff a b = ground arith

instance abbrev pub conversation_status_eq : Eq ConversationStatus
conversation_status_eq = record {
  beq = conversation_status_beq;
  beq_iff = conversation_status_beq_iff;
}

abbrev action_status_tag : RequiredActionStatus → ℕ
action_status_tag RequiredActionStatus.pending = 0
action_status_tag RequiredActionStatus.answered = 1
action_status_tag RequiredActionStatus.consumed = 2
action_status_tag RequiredActionStatus.expired = 3
action_status_tag RequiredActionStatus.cancelled = 4

abbrev pub action_status_beq : RequiredActionStatus → RequiredActionStatus → Bool
action_status_beq a b = nat_beq (action_status_tag a) (action_status_tag b)

pub action_status_beq_iff : (a b : RequiredActionStatus) → (action_status_beq a b ≡ true) ↔ (a ≡ b)
action_status_beq_iff a b = ground arith

instance abbrev pub action_status_eq : Eq RequiredActionStatus
action_status_eq = record { beq = action_status_beq; beq_iff = action_status_beq_iff }

-- `action.type is RequiredActionType.PLAN_APPROVAL`
abbrev pub is_plan_approval : RequiredActionType → Bool
is_plan_approval RequiredActionType.plan_approval = true
is_plan_approval RequiredActionType.user_input = Bool.false

abbrev resource_type_tag : WorkResourceType → ℕ
resource_type_tag WorkResourceType.run = 0
resource_type_tag WorkResourceType.conversation = 1

abbrev pub resource_type_beq : WorkResourceType → WorkResourceType → Bool
resource_type_beq a b = nat_beq (resource_type_tag a) (resource_type_tag b)

pub resource_type_beq_iff : (a b : WorkResourceType) → (resource_type_beq a b ≡ true) ↔ (a ≡ b)
resource_type_beq_iff a b = ground arith

instance abbrev pub resource_type_eq : Eq WorkResourceType
resource_type_eq = record { beq = resource_type_beq; beq_iff = resource_type_beq_iff }
