-- ===== src/Control/Retry.antt =====
-- `retry`: a Run that ended is queued again.
use dsh_base_agent.Prelude.{ℕ, ◌+◌, String, Bool, true, false, not, none, [], ◌∷◌, ◌==◌}
use dsh_base_agent.Models.{Json, RunRecord, RunStatus, RunPhase, run_phase_eq, EventSource}
use dsh_base_agent.Store.Operation.{Operation}
use dsh_base_agent.Control.Failures.{Failure, Principal}
use dsh_base_agent.Control.Calls.{Plane, ◌>>=◌, ◌>>◌, pure, call, utc_now, raise_if}
use dsh_base_agent.Control.Shared.{dict, owned_run, append_event, audit_run}
use dsh_base_agent.Control.Cancel.{is_some}

-- FAILED or CANCELLED
abbrev pub is_retryable : RunStatus → Bool
is_retryable RunStatus.failed = true
is_retryable RunStatus.cancelled = true
is_retryable _ = false

abbrev pub retried_run : RunRecord → ℕ → RunRecord
retried_run current now = record current {
  status = RunStatus.queued;
  revision = current.revision + 1;
  active_attempt_id = none;
  output = none;
  error = none;
  cancel_requested = false;
  updated_at = now;
}

unfoldable pub retry_current : Principal → String → RunRecord → Plane RunRecord
retry_current principal run_id current = do
  raise_if (is_some current.conversation_id) Failure.run_transition
  raise_if (not (is_retryable current.status)) Failure.run_transition
  raise_if (current.phase == RunPhase.waiting_approval) Failure.run_transition
  now ← utc_now
  call (Operation.replace_run (retried_run current now) current.revision)
  append_event run_id none EventSource.control "run.retry_queued"
      (dict (("actor", Json.str principal.principal_id) ∷ []))
  audit_run principal (retried_run current now) "run.retry" "accepted" none (dict [])
  pure (retried_run current now)

-- Scheduling the queued Run, where `auto_execute` is set, is left out.
unfoldable pub retry : Principal → String → Plane RunRecord
retry principal run_id = do
  current ← owned_run principal run_id
  retry_current principal run_id current
