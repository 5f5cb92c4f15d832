-- ===== src/Control/Guarantees/Cancel.antt =====
-- The guarantees of `cancel` and of `_block_conversation`.
use dsh_base_agent.Prelude.{
  ℕ, ◌≡◌, refl, String, Bool, true, false, Option, none, some, arith, if◌then◌else◌,
}
use dsh_base_agent.Models.{RunRecord, RunStatus, RunPhase, RequiredActionRecord, PlanRecord}
use dsh_base_agent.Store.Operation.{Operation}
use dsh_base_agent.Store.Attempts.{get_attempt}
use dsh_base_agent.Store.Actions.{get_required_action}
use dsh_base_agent.Store.Plans.{get_plan}
use dsh_base_agent.Store.Conversations.{get_conversation}
use dsh_base_agent.Store.Preservation.Calls.{IsPermitted}
use dsh_base_agent.Store.Transitions.Operations.{IsThis}
use dsh_base_agent.Control.Failures.{Principal}
use dsh_base_agent.Control.Calls.{call}
use dsh_base_agent.Control.Shared.{is_terminal}
use dsh_base_agent.Control.Cancel.{
  cancel, cancel_current, cancel_plan, cancel_attempt, cancelled_run, pending_action_of,
  block_conversation, block_active, block_session, block_after_cancel, report_plan, report_action,
  is_some, is_settled, cancelled_attempt, action_to_cancel,
}
use dsh_base_agent.Control.Lifecycle.{Move, Step}
use dsh_base_agent.Control.Rules.{Guarantees, Guarantees-pure, Guarantees-if, Guarantees-write}
use dsh_base_agent.Control.Sequence.{Guarantees-bind, Guarantees-read, Finds-owned_run}
use dsh_base_agent.Control.Guarantees.Shared.{report_rules}

Move-cancel :
    (s : RunStatus) (p : RunPhase) → is_terminal s ≡ false → Move s p RunStatus.cancelled p
Move-cancel RunStatus.queued p h = Move.cancel_queued
Move-cancel RunStatus.running p h = Move.cancel_running
Move-cancel RunStatus.waiting p h = Move.cancel_waiting
Move-cancel RunStatus.succeeded p h = cc
Move-cancel RunStatus.failed p h = cc
Move-cancel RunStatus.cancelled p h = cc

module _ (known : Option RunRecord) where
  pub Guarantees-block_conversation :
      (id reason : String) → Guarantees known (block_conversation id reason)
  unfolding block_conversation get_conversation block_active
  Guarantees-block_conversation id reason = search report_rules depth 20

  Guarantees-block_session :
      (conversation_id : Option String) (unsettled : Bool)
      → Guarantees known (block_session conversation_id unsettled)
  unfolding block_session
  Guarantees-block_session none unsettled = Guarantees-pure known tt
  Guarantees-block_session (some id) true = Guarantees-block_conversation id _
  Guarantees-block_session (some id) false = Guarantees-pure known tt

  Guarantees-block_after_cancel :
      (run : RunRecord) (waiting : Bool) → Guarantees known (block_after_cancel run waiting)
  unfolding block_after_cancel
  Guarantees-block_after_cancel run waiting = Guarantees-block_session _ _

  Guarantees-report_plan :
      (principal : Principal) (run_id : String) (current : RunRecord) (plan : Option PlanRecord)
      → Guarantees known (report_plan principal run_id current plan)
  unfolding report_plan
  Guarantees-report_plan principal run_id current none = Guarantees-pure known tt
  Guarantees-report_plan principal run_id current (some plan) = search report_rules

  Guarantees-report_action :
      (principal : Principal) (run_id : String) (current : RunRecord)
      (action : Option RequiredActionRecord)
      → Guarantees known (report_action principal run_id current action)
  unfolding report_action
  Guarantees-report_action principal run_id current none = Guarantees-pure known tt
  Guarantees-report_action principal run_id current (some action) = search report_rules

  Guarantees-pending_action_of : (id : Option String) → Guarantees known (pending_action_of id)
  unfolding pending_action_of get_required_action
  Guarantees-pending_action_of none = Guarantees-pure known none
  Guarantees-pending_action_of (some id) = search report_rules depth 12

-- the writes of a Run that is not terminal
module _ (current : RunRecord) (live : is_terminal current.status ≡ false) where
  Step-cancel : (waiting : Bool) (now : ℕ) → Step current (cancelled_run current waiting now)
  Step-cancel waiting now = record {
    submitted = refl;
    counted = omega arith;
    attempted = omega arith;
    moved = Move-cancel current.status current.phase live;
  }

  Guarantees-cancel_plan :
      (principal : Principal) (run_id : String) (now : ℕ) (action : Option RequiredActionRecord)
      → Guarantees (some current) (cancel_plan principal run_id current now action)
  unfolding cancel_plan get_plan
  Guarantees-cancel_plan principal run_id now none = search report_rules
  Guarantees-cancel_plan principal run_id now (some action) =
      Guarantees-bind (some current) _ _ (search report_rules) λ plan.
        Guarantees-bind (some current) _ _
          (Guarantees-write current (cancelled_run current true now) _ (refl, refl) refl
            (Step-cancel true now))
          (λ _. search report_rules)

  write_attempt :
      (settled : Bool) (now : ℕ) (waiting : Bool) (replace settle : Operation)
      → IsPermitted (IsThis (cancelled_run current waiting now) current.revision) replace
      → IsPermitted (IsThis (cancelled_run current waiting now) current.revision) settle
      → Guarantees (some current) (call (if settled then replace else settle))
  write_attempt true now waiting replace settle p q =
      Guarantees-write current _ _ p refl (Step-cancel waiting now)
  write_attempt false now waiting replace settle p q =
      Guarantees-write current _ _ q refl (Step-cancel waiting now)

  Guarantees-cancel_attempt :
      (now : ℕ) (action : Option RequiredActionRecord) (attempt_id : Option String)
      → Guarantees (some current) (cancel_attempt current now action attempt_id)
  unfolding cancel_attempt get_attempt
  Guarantees-cancel_attempt now action none =
      Guarantees-bind (some current) _ _
        (Guarantees-write current (cancelled_run current (is_some action) now) _ (refl, refl) refl
          (Step-cancel (is_some action) now))
        (λ _. search report_rules)
  Guarantees-cancel_attempt now action (some attempt_id) =
      Guarantees-bind (some current) _ _ (search report_rules) λ attempt.
        Guarantees-bind (some current) _ _
          (write_attempt (is_settled attempt.status) now (is_some action)
            (Operation.replace_run (cancelled_run current (is_some action) now) current.revision)
            (Operation.settle_attempt (cancelled_run current (is_some action) now)
              (cancelled_attempt attempt now) current.revision attempt.revision none
              (action_to_cancel action now).0 (action_to_cancel action now).1)
            (refl, refl) (refl, refl))
          (λ _. search report_rules)

ruleset cancel_rules = (
  report_rules, Guarantees-pending_action_of, Guarantees-block_after_cancel, Guarantees-report_plan,
  Guarantees-report_action,
)

Guarantees-cancel_current :
    (principal : Principal) (run_id : String) (current : RunRecord)
    → Guarantees (some current) (cancel_current principal run_id current)
unfolding cancel_current
Guarantees-cancel_current principal run_id current =
    Guarantees-if (some current) _ _ _ (λ _. search report_rules)
      λ (live : is_terminal current.status ≡ false).
        search
          (
            cancel_rules,
            Guarantees-cancel_plan current live,
            Guarantees-cancel_attempt current live,
          )
          depth 40

pub Guarantees-cancel :
    (principal : Principal) (run_id : String) → Guarantees none (cancel principal run_id)
unfolding cancel
Guarantees-cancel principal run_id =
    Guarantees-read none some _ _ (Finds-owned_run principal run_id)
      (Guarantees-cancel_current principal run_id)
