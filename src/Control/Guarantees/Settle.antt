-- ===== src/Control/Guarantees/Settle.antt =====
-- The guarantees of the settlements of an attempt.
use dsh_base_agent.Prelude.{ℕ, ◌≡◌, refl, String, false, Option, none, some, arith, ◌==◌}
use dsh_base_agent.Models.{
  RunRecord, RunStatus, run_status_eq, RunAttempt, PlanRecord, DispatchState, WorkLease,
}
use dsh_base_agent.Store.Operation.{Operation}
use dsh_base_agent.Store.Attempts.{get_attempt}
use dsh_base_agent.Control.Calls.{call}
use dsh_base_agent.Control.Settle.{
  settle_planning, settle_success, settle_failure, propose_plan, succeed, fail, set_dispatch_state,
  dispatch, proposed_run, succeeded_run, failed_run, succeeded_attempt, failed_attempt,
  approval_action,
}
use dsh_base_agent.Control.Lifecycle.{Move}
use dsh_base_agent.Control.Rules.{Guarantees, Guarantees-pure, Guarantees-if, Guarantees-write}
use dsh_base_agent.Control.Sequence.{Guarantees-read, Finds-get_run}
use dsh_base_agent.Control.Guarantees.Shared.{report_rules}

-- the writes of a Run that is not cancelled
module _ (current : RunRecord) (kept : (current.status == RunStatus.cancelled) ≡ false)
    (attempt_id : String) (lease : Option WorkLease) where
  write_proposal :
      (plan : PlanRecord) (attempt : RunAttempt) (output : String) (reason : Option String)
      (action_id : String) (now created : ℕ)
      → Guarantees (some current) (
          call (
            Operation.complete_planning
              (proposed_run current plan action_id now)
              (succeeded_attempt attempt output reason now)
              plan
              (approval_action current attempt.attempt_id plan action_id created)
              current.revision
              attempt.revision
              lease))
  write_proposal plan attempt output reason action_id now created =
      Guarantees-write current (proposed_run current plan action_id now) _ (refl, refl) refl
        (record {
          submitted = refl;
          counted = omega arith;
          attempted = omega arith;
          moved = Move.propose kept;
        })

  Guarantees-propose_plan :
      (plan : PlanRecord) (output : String) (reason : Option String)
      → Guarantees (some current) (propose_plan current attempt_id plan output reason lease)
  unfolding propose_plan get_attempt
  Guarantees-propose_plan plan output reason = search (report_rules, write_proposal) depth 40

  write_success :
      (attempt : RunAttempt) (output : String) (reason : Option String) (now : ℕ)
      → Guarantees (some current) (
          call (
            Operation.settle_attempt
              (succeeded_run current output now)
              (succeeded_attempt attempt output reason now)
              current.revision
              attempt.revision
              lease
              none
              none))
  write_success attempt output reason now =
      Guarantees-write current (succeeded_run current output now) _ (refl, refl) refl
        (record {
          submitted = refl;
          counted = omega arith;
          attempted = omega arith;
          moved = Move.succeed kept;
        })

  Guarantees-succeed :
      (output : String) (reason : Option String)
      → Guarantees (some current) (succeed current attempt_id output reason lease)
  unfolding succeed get_attempt
  Guarantees-succeed output reason = search (report_rules, write_success) depth 40

  write_failure :
      (attempt : RunAttempt) (message : String) (now : ℕ)
      → Guarantees (some current) (
          call (
            Operation.settle_attempt
              (failed_run current message now)
              (failed_attempt attempt message now)
              current.revision
              attempt.revision
              lease
              none
              none))
  write_failure attempt message now =
      Guarantees-write current (failed_run current message now) _ (refl, refl) refl
        (record {
          submitted = refl;
          counted = omega arith;
          attempted = omega arith;
          moved = Move.fail kept;
        })

  Guarantees-fail :
      (error_type message : String)
      → Guarantees (some current) (fail current attempt_id error_type message lease)
  unfolding fail get_attempt
  Guarantees-fail error_type message = search (report_rules, write_failure) depth 40

module _ (run : RunRecord) (attempt : RunAttempt) (lease : Option WorkLease) where
  pub Guarantees-settle_planning :
      (plan : PlanRecord) (output : String) (reason : Option String)
      → Guarantees none (settle_planning run attempt plan output reason lease)
  unfolding settle_planning
  Guarantees-settle_planning plan output reason =
      Guarantees-read none some _ _ (Finds-get_run run.run_id) λ current.
        Guarantees-if (some current) (current.status == RunStatus.cancelled) _ _
          (λ _. Guarantees-pure (some current) tt)
          (λ kept. Guarantees-propose_plan current kept attempt.attempt_id lease plan output reason)

  pub Guarantees-settle_success :
      (output : String) (reason : Option String)
      → Guarantees none (settle_success run attempt output reason lease)
  unfolding settle_success
  Guarantees-settle_success output reason =
      Guarantees-read none some _ _ (Finds-get_run run.run_id) λ current.
        Guarantees-if (some current) (current.status == RunStatus.cancelled) _ _
          (λ _. Guarantees-pure (some current) tt)
          (λ kept. Guarantees-succeed current kept attempt.attempt_id lease output reason)

  pub Guarantees-settle_failure :
      (error_type message : String)
      → Guarantees none (settle_failure run attempt error_type message lease)
  unfolding settle_failure
  Guarantees-settle_failure error_type message =
      Guarantees-read none some _ _ (Finds-get_run run.run_id) λ current.
        Guarantees-if (some current) (current.status == RunStatus.cancelled) _ _
          (λ _. Guarantees-pure (some current) tt)
          (λ kept. Guarantees-fail current kept attempt.attempt_id lease error_type message)

pub Guarantees-set_dispatch_state :
    (attempt_id : String) (state : DispatchState) (lease : Option WorkLease)
    → Guarantees none (set_dispatch_state attempt_id state lease)
unfolding set_dispatch_state get_attempt dispatch
Guarantees-set_dispatch_state attempt_id state lease = search report_rules depth 20
