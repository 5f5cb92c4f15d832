-- ===== src/Control/Guarantees/Resume.antt =====
-- The guarantees of `view` and of `resume`.
use dsh_base_agent.Prelude.{ℕ, ◌≡◌, refl, String, false, Option, none, some, arith, ◌!=◌}
use dsh_base_agent.Models.{
  Json, RunRecord, RunStatus, run_status_eq, RunPhase, RunAttempt, RequiredActionRecord,
}
use dsh_base_agent.Store.Operation.{Operation}
use dsh_base_agent.Store.Attempts.{get_attempt, list_attempts}
use dsh_base_agent.Store.Actions.{get_required_action}
use dsh_base_agent.Control.Failures.{Failure, Principal, is_store_error}
use dsh_base_agent.Control.Calls.{catching, call}
use dsh_base_agent.Control.Resume.{
  view, action_in_view, resume, resume_current, resume_input, resume_plan, check_snapshot,
  check_ownership, expire, answer, expired_run, expired_attempt, expired_action, answered_run,
  answered_action,
}
use dsh_base_agent.Control.Lifecycle.{Move}
use dsh_base_agent.Control.Rules.{
  Guarantees, Guarantees-pure, Guarantees-catching, Guarantees-write,
}
use dsh_base_agent.Control.Sequence.{
  Guarantees-read, Guarantees-guarded, Finds-owned_run, Finds-nothing,
}
use dsh_base_agent.Control.Guarantees.Shared.{guarantee_rules, report_rules}
use dsh_base_agent.Control.Guarantees.Decide.{Guarantees-resolve_plan_action}

Move-answer :
    (s : RunStatus) (p : RunPhase) → (s != RunStatus.waiting) ≡ false → Move s p RunStatus.queued p
Move-answer RunStatus.waiting p h = Move.answer
Move-answer RunStatus.queued p h = cc
Move-answer RunStatus.running p h = cc
Move-answer RunStatus.succeeded p h = cc
Move-answer RunStatus.failed p h = cc
Move-answer RunStatus.cancelled p h = cc

Move-expire :
    (s : RunStatus) (p : RunPhase)
    → (s != RunStatus.waiting) ≡ false
    → Move s p RunStatus.cancelled p
Move-expire RunStatus.waiting p h = Move.cancel_waiting
Move-expire RunStatus.queued p h = cc
Move-expire RunStatus.running p h = cc
Move-expire RunStatus.succeeded p h = cc
Move-expire RunStatus.failed p h = cc
Move-expire RunStatus.cancelled p h = cc

module _ (known : Option RunRecord) where
  Guarantees-action_in_view : (id : Option String) → Guarantees known (action_in_view id)
  unfolding action_in_view get_required_action
  Guarantees-action_in_view none = Guarantees-pure known none
  Guarantees-action_in_view (some id) = search guarantee_rules depth 12

  Guarantees-check_snapshot :
      (run : RunRecord) (action_id : String) (expected : ℕ)
      → Guarantees known (check_snapshot run action_id expected)
  unfolding check_snapshot
  Guarantees-check_snapshot run action_id expected = search guarantee_rules depth 12

  Guarantees-check_ownership :
      (principal : Principal) (run_id : String) (run : RunRecord) (action : RequiredActionRecord)
      → Guarantees known (check_ownership principal run_id run action)
  unfolding check_ownership
  Guarantees-check_ownership principal run_id run action = search guarantee_rules depth 12

pub Guarantees-view :
    (principal : Principal) (run_id : String) → Guarantees none (view principal run_id)
unfolding view list_attempts
Guarantees-view principal run_id =
    Guarantees-read none some _ _ (Finds-owned_run principal run_id)
      (λ run. search (guarantee_rules, Guarantees-action_in_view) depth 12)

-- the writes of a Run that waits
module _ (run : RunRecord) (waits : (run.status != RunStatus.waiting) ≡ false)
    (principal : Principal) (run_id : String) (action : RequiredActionRecord) where
  write_expiry :
      (attempt : RunAttempt) (now : ℕ)
      → Guarantees (some run) (
          catching is_store_error Failure.run_transition (
            call (
              Operation.settle_attempt
                (expired_run run now)
                (expired_attempt attempt now)
                run.revision
                attempt.revision
                none
                (some (expired_action action now))
                (some action.revision))))
  write_expiry attempt now = Guarantees-catching (some run) _ _ _ (
      Guarantees-write run (expired_run run now) _ (refl, refl) refl
        (record {
          submitted = refl;
          counted = omega arith;
          attempted = omega arith;
          moved = Move-expire run.status run.phase waits;
        }))

  Guarantees-expire : Guarantees (some run) (expire principal run_id run action)
  unfolding expire get_attempt
  Guarantees-expire = search (report_rules, write_expiry) depth 30

  write_answer :
      (dump : Json) (now : ℕ)
      → Guarantees (some run) (
          catching is_store_error Failure.run_transition (
            call (
              Operation.answer_required_action
                (answered_run run now)
                (answered_action action principal dump now)
                run.revision
                action.revision)))
  write_answer dump now = Guarantees-catching (some run) _ _ _ (
      Guarantees-write run (answered_run run now) _ (refl, refl) refl
        (record {
          submitted = refl;
          counted = omega arith;
          attempted = omega arith;
          moved = Move-answer run.status run.phase waits;
        }))

  Guarantees-answer :
      (response : Json) → Guarantees (some run) (answer principal run_id run action response)
  unfolding answer
  Guarantees-answer response = search (report_rules, write_answer) depth 30

Guarantees-resume_current :
    (principal : Principal) (run_id action_id : String) (expected : ℕ) (response : Json)
    (run : RunRecord)
    → Guarantees (some run) (resume_current principal run_id action_id expected response run)
unfolding resume_current get_required_action
Guarantees-resume_current principal run_id action_id expected response run =
    Guarantees-guarded (some run) (run.status != RunStatus.waiting) _ _ λ waits.
      search
        (
          guarantee_rules,
          Guarantees-check_snapshot,
          Guarantees-check_ownership,
          Guarantees-expire run waits,
          Guarantees-answer run waits,
        )
        depth 40

Guarantees-resume_input :
    (principal : Principal) (run_id action_id : String) (expected : ℕ) (response : Json)
    → Guarantees none (resume_input principal run_id action_id expected response)
unfolding resume_input
Guarantees-resume_input principal run_id action_id expected response =
    Guarantees-read none some _ _ (Finds-owned_run principal run_id)
      (Guarantees-resume_current principal run_id action_id expected response)

Guarantees-resume_plan :
    (principal : Principal) (run_id action_id : String) (expected : ℕ) (response : Json)
    → Guarantees none (resume_plan principal run_id action_id expected response)
unfolding resume_plan
Guarantees-resume_plan principal run_id action_id expected response =
    search (guarantee_rules, Guarantees-resolve_plan_action) depth 20

pub Guarantees-resume :
    (principal : Principal) (run_id action_id : String) (expected : ℕ) (response : Json)
    → Guarantees none (resume principal run_id action_id expected response)
unfolding resume get_required_action
Guarantees-resume principal run_id action_id expected response =
    Guarantees-read none (λ _. none) _ _ (Finds-nothing some _ (Finds-owned_run principal run_id))
      (λ snapshot.
        search
          (
            guarantee_rules, Guarantees-check_snapshot, Guarantees-resume_plan,
            Guarantees-resume_input, Guarantees-view,
          )
          depth 40)
