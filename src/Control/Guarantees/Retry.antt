-- ===== src/Control/Guarantees/Retry.antt =====
-- The guarantee of `retry`.
use dsh_base_agent.Prelude.{ℕ, ◌≡◌, refl, String, false, not, none, some, arith, ◌==◌}
use dsh_base_agent.Models.{RunRecord, RunStatus, RunPhase, run_phase_eq}
use dsh_base_agent.Store.Operation.{Operation}
use dsh_base_agent.Control.Failures.{Principal}
use dsh_base_agent.Control.Calls.{call}
use dsh_base_agent.Control.Retry.{retry, retry_current, retried_run, is_retryable}
use dsh_base_agent.Control.Lifecycle.{Move}
use dsh_base_agent.Control.Rules.{Guarantees, Guarantees-write}
use dsh_base_agent.Control.Sequence.{Guarantees-read, Guarantees-guarded, Finds-owned_run}
use dsh_base_agent.Control.Guarantees.Shared.{report_rules}

Move-retry :
    (s : RunStatus) (p : RunPhase)
    → not (is_retryable s) ≡ false
    → (p == RunPhase.waiting_approval) ≡ false
    → Move s p RunStatus.queued p
Move-retry RunStatus.queued p h k = cc
Move-retry RunStatus.running p h k = cc
Move-retry RunStatus.waiting p h k = cc
Move-retry RunStatus.succeeded p h k = cc
Move-retry RunStatus.failed p h k = Move.retry_failed k
Move-retry RunStatus.cancelled p h k = Move.retry_cancelled k

pub Guarantees-retry_current :
    (principal : Principal) (run_id : String) (current : RunRecord)
    → Guarantees (some current) (retry_current principal run_id current)
unfolding retry_current
Guarantees-retry_current principal run_id current = Guarantees-guarded _ _ _ _ λ _.
    Guarantees-guarded _ _ _ _ λ ended. Guarantees-guarded _ _ _ _ λ planned.
      let write : (now : ℕ)
          → Guarantees (some current)
              (call (Operation.replace_run (retried_run current now) current.revision)) =
        λ now.
          Guarantees-write current (retried_run current now) _ (refl, refl) refl
            (record {
              submitted = refl;
              counted = omega arith;
              attempted = omega arith;
              moved = Move-retry current.status current.phase ended planned;
            }) in
      search (report_rules, write) depth 20

pub Guarantees-retry :
    (principal : Principal) (run_id : String) → Guarantees none (retry principal run_id)
unfolding retry
Guarantees-retry principal run_id =
    Guarantees-read none some _ _ (Finds-owned_run principal run_id)
      (Guarantees-retry_current principal run_id)
