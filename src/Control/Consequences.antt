-- ===== src/Control/Consequences.antt =====
-- What the steps of a life exclude, and what they leave as it is.
use dsh_base_agent.Prelude.{
  ◌≤◌, ◌≡◌, refl, ◌∙◌, String, string_eq, false, List, ok, arith, ◌==◌, Bool-cases, eq_of_beq, inl,
  inr, subst,
}
use dsh_base_agent.Models.{RunRecord, RunStatus, run_status_eq, RunPhase, run_phase_eq}
use dsh_base_agent.Store.Statements.{get_run_sync}
use dsh_base_agent.Store.Transitions.{Steps}
use dsh_base_agent.Control.Calls.{Env, World}
use dsh_base_agent.Control.Requests.{Request, serve}
use dsh_base_agent.Control.Lifecycle.{Move, Step, submission}
use dsh_base_agent.Control.Guarantee.{IsSound}
use dsh_base_agent.Control.Rules.{IsFairEnv}
use dsh_base_agent.Control.Lives.{serve-Steps}

-- no move leaves a plan that was rejected or cancelled
stuck :
    {s s' : RunStatus} {p p' : RunPhase}
    → Move s p s' p'
    → s ≡ RunStatus.cancelled
    → p ≡ RunPhase.waiting_approval
    → ⊥
stuck Move.begin h k = cc
stuck Move.ask h k = cc
stuck Move.answer h k = cc
stuck Move.approve h k = cc
stuck Move.cancel_queued h k = cc
stuck Move.cancel_running h k = cc
stuck Move.cancel_waiting h k = cc
stuck (Move.retry_failed _) h k = cc
stuck (Move.retry_cancelled apart) h k = ground (arith, apart, k)
stuck (Move.propose apart) h k = ground (arith, apart, h)
stuck (Move.succeed apart) h k = ground (arith, apart, h)
stuck (Move.fail apart) h k = ground (arith, apart, h)

Steps-stuck :
    {run run' : RunRecord}
    → Steps Step run run'
    → run.status ≡ RunStatus.cancelled
    → run.phase ≡ RunPhase.waiting_approval
    → run ≡ run'
Steps-stuck Steps.stay h k = refl
Steps-stuck (Steps.move steps step) h k =
    let same = Steps-stuck steps h k in absurd (stuck step.moved (cc (h, same)) (cc (k, same)))

-- the only way into execution
pub record IsApproval (a b : RunRecord) : Type 0 where
  pub waits : a.status ≡ RunStatus.waiting
  pub proposed : a.phase ≡ RunPhase.waiting_approval
  pub queued : b.status ≡ RunStatus.queued
  pub step : Step a b

approves :
    {s s' : RunStatus} {p p' : RunPhase}
    → Move s p s' p'
    → (p == RunPhase.executing) ≡ false
    → p' ≡ RunPhase.executing
    → (s ≡ RunStatus.waiting) × (p ≡ RunPhase.waiting_approval) × (s' ≡ RunStatus.queued)
approves Move.approve h k = (refl, refl, refl)
approves Move.begin h k = absurd (ground (arith, h, k))
approves Move.ask h k = absurd (ground (arith, h, k))
approves Move.answer h k = absurd (ground (arith, h, k))
approves Move.cancel_queued h k = absurd (ground (arith, h, k))
approves Move.cancel_running h k = absurd (ground (arith, h, k))
approves Move.cancel_waiting h k = absurd (ground (arith, h, k))
approves (Move.retry_failed _) h k = absurd (ground (arith, h, k))
approves (Move.retry_cancelled _) h k = absurd (ground (arith, h, k))
approves (Move.propose _) h k = cc
approves (Move.succeed _) h k = cc
approves (Move.fail _) h k = absurd (ground (arith, h, k))

Steps-IsApproval :
    {run run' : RunRecord}
    → Steps Step run run'
    → (run.phase == RunPhase.executing) ≡ false
    → run'.phase ≡ RunPhase.executing
    → (a : RunRecord) × (b : RunRecord) × Steps Step run a × IsApproval a b × Steps Step b run'
Steps-IsApproval Steps.stay h k = absurd (ground (arith, h, k))
Steps-IsApproval (Steps.move {b = mid} {c = last} steps step) h k =
    elim (Bool-cases (mid.phase == RunPhase.executing)) [
      | inl executing ↦
          let (a, b, before, approval, after) =
            Steps-IsApproval steps h (eq_of_beq mid.phase RunPhase.executing executing) in
          (a, b, before, approval, Steps.move after step)
      | inr apart ↦
          let is = approves step.moved apart k in
          (
            mid,
            last,
            steps,
            record { waits = is.0; proposed = is.1; queued = is.2; step = step },
            Steps.stay,
          )
    ]

-- what never changes, and what never falls
pub record IsLater (run run' : RunRecord) : Type 0 where
  pub submitted : submission run' ≡ submission run
  pub counted : run.revision ≤ run'.revision
  pub attempted : run.attempt_count ≤ run'.attempt_count

Steps-IsLater : {run run' : RunRecord} → Steps Step run run' → IsLater run run'
Steps-IsLater Steps.stay = record {
  submitted = refl;
  counted = omega arith;
  attempted = omega arith;
}
Steps-IsLater (Steps.move steps step) =
    let before = Steps-IsLater steps in
    record {
      submitted = step.submitted ∙ before.submitted;
      counted = omega (arith, before.counted, step.counted);
      attempted = omega (arith, before.attempted, step.attempted);
    }

module _ (requests : List Request) (env : Env) (w : World) (id : String) (run : RunRecord)
    (fair : IsFairEnv env) (sound : IsSound w.control_store)
    (stored : get_run_sync id w.control_store.disk ≡ ok run) where
  -- A Run whose proposed plan was rejected, or that was cancelled while its plan awaited approval,
  -- is final: whatever requests follow and whatever other fair tasks do, it is stored as it is.
  pub serve-rejected :
      run.status ≡ RunStatus.cancelled
      → run.phase ≡ RunPhase.waiting_approval
      → get_run_sync id (serve requests env w).control_store.disk ≡ ok run
  serve-rejected cancelled proposed =
      let (run', found, steps) = serve-Steps requests env w id run fair sound stored in
      rw (Steps-stuck steps cancelled proposed) found

  -- A stored Run that is not in the phase EXECUTING is in that phase after some requests only if on
  -- the way it waited for the approval of its plan, and one step queued it for execution from there.
  pub serve-IsApproval :
      (run' : RunRecord)
      → (run.phase == RunPhase.executing) ≡ false
      → get_run_sync id (serve requests env w).control_store.disk ≡ ok run'
      → run'.phase ≡ RunPhase.executing
      → (a : RunRecord) × (b : RunRecord) × Steps Step run a × IsApproval a b × Steps Step b run'
  serve-IsApproval run' apart now executing =
      let (last, found, steps) = serve-Steps requests env w id run fair sound stored in
      let same : last ≡ run' = cc (found, now) in
      Steps-IsApproval (subst (Steps Step run) same steps) apart executing

  -- What was submitted with a Run, its owner, its Agent with its fingerprint, its input, its
  -- Conversation and its place there, is the same after any requests and whatever other fair tasks
  -- do, and neither its revision nor the number of its attempts has fallen.
  pub serve-IsLater :
      (run' : RunRecord) × (get_run_sync id (serve requests env w).control_store.disk ≡ ok run')
      × IsLater run run'
  serve-IsLater =
      let (run', found, steps) = serve-Steps requests env w id run fair sound stored in
      (run', found, Steps-IsLater steps)
