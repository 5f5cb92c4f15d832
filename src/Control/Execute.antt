-- ===== src/Control/Execute.antt =====
-- `_execute`, `_execute_conversation_run`, `execute_leased_work` and `_recover_startup`. What DSH
-- does with the input of a Run is one value, a `Turn`; the events and the dispatch states that are
-- written while it works are left out, and so are runtimes, gateways and the cancellation of tasks.
use dsh_base_agent.Prelude.{
  ℕ, ◌+◌, String, Option, none, some, List, [], ◌∷◌, lease_lost, ◌==◌, ◌!=◌, string_eq,
  if◌then◌else◌,
}
use dsh_base_agent.Models.{
  Json, RunRecord, RunStatus, run_status_eq, RunAttempt, AttemptStatus, DispatchState, PlanRecord,
  action_status_eq, conversation_status_eq, EventSource, WorkLease,
}
use dsh_base_agent.Store.Operation.{Operation}
use dsh_base_agent.Store.Runs.{get_run, list_runs}
use dsh_base_agent.Store.Attempts.{get_attempt}
use dsh_base_agent.Control.Failures.{Failure}
use dsh_base_agent.Control.Calls.{
  Plane, ◌>>=◌, ◌>>◌, pure, raise, await, handling, call, ask, new_id, utc_now, raise_if,
}
use dsh_base_agent.Control.Shared.{dict, agent_of, append_event, append_audit, audit_run}
use dsh_base_agent.Control.Settle.{
  principal_of, failed_run, settle_planning, settle_success, settle_failure,
}

-- how the work of DSH on a Run ends: with a response, with a proposed plan, with an exception, or
-- with a question to the user for which the Run waits already
pub data Turn : Type 0 where
  responded : String → Option String → Turn
  proposed : PlanRecord → String → Option String → Turn
  broken : Failure → Turn
  asked : Turn

abbrev pub worker_of : Option WorkLease → Option String
worker_of none = none
worker_of (some lease) = some lease.worker_id

abbrev pub token_of : Option WorkLease → Option ℕ
token_of none = none
token_of (some lease) = some lease.lease_token

abbrev pub started_attempt :
    String → RunRecord → Option WorkLease → String → String → ℕ → ℕ → RunAttempt
started_attempt run_id current lease attempt_id session created now = record {
  attempt_id = attempt_id;
  run_id = run_id;
  number = current.attempt_count + 1;
  dsh_session_id = session;
  phase = current.phase;
  status = AttemptStatus.running;
  dispatch_state = DispatchState.not_sent;
  worker_id = worker_of lease;
  lease_token = token_of lease;
  revision = 1;
  finish_reason = none;
  output = none;
  error = none;
  started_at = some now;
  finished_at = none;
  created_at = created;
  updated_at = now;
}

abbrev pub started_run : RunRecord → String → ℕ → RunRecord
started_run current attempt_id now = record current {
  status = RunStatus.running;
  revision = current.revision + 1;
  attempt_count = current.attempt_count + 1;
  active_attempt_id = some attempt_id;
  updated_at = now;
}

unfoldable pub start :
    String → RunRecord → RunRecord → RunAttempt → Option WorkLease → Plane (Unit {0})
start run_id current run attempt lease = do
  call (Operation.begin_attempt run attempt current.revision lease none none)
  append_event run_id (some attempt.attempt_id) EventSource.control "run.started" (
      dict (
        ("attempt", Json.num attempt.number)
        ∷ ("dsh_session_id", Json.str attempt.dsh_session_id)
        ∷ []))
  audit_run (principal_of run) run "run.attempt.start" "success" (some attempt.attempt_id) (
      dict (
        ("attempt", Json.num attempt.number)
        ∷ ("dsh_session_id", Json.str attempt.dsh_session_id)
        ∷ []))

-- what follows the work of DSH
unfoldable pub finish : RunRecord → RunAttempt → Turn → Option WorkLease → Plane (Unit {0})
finish run attempt (Turn.responded output reason) lease =
    settle_success run attempt output reason lease
finish run attempt (Turn.proposed plan output reason) lease =
    settle_planning run attempt plan output reason lease
finish run attempt (Turn.broken failure) lease = raise failure
finish run attempt Turn.asked lease = pure tt

-- `except LeaseLostError: return`
abbrev pub unless_lease_lost : Plane (Unit {0}) → Failure → Plane (Unit {0})
unless_lease_lost handler (Failure.store lease_lost) = pure tt
unless_lease_lost handler _ = handler

unfoldable pub settle_exception :
    RunRecord → RunAttempt → Option WorkLease → Failure → Plane (Unit {0})
settle_exception run attempt lease failure = do
  message ← ask (λ env. env.message_of failure)
  handling (settle_failure run attempt message.0 message.1 lease)
      (λ e. unless_lease_lost (raise e) e)

abbrev pub on_exception : RunRecord → RunAttempt → Option WorkLease → Failure → Plane (Unit {0})
on_exception run attempt lease failure =
    unless_lease_lost (settle_exception run attempt lease failure) failure

-- the queued Run and the time at which the record of the attempt is made, or nothing when the Run is
-- not queued any more
unfoldable pub check_agent : RunRecord → Plane (Unit {0})
check_agent current = do
  agent ← agent_of current.agent_id
  raise_if (agent.fingerprint != current.agent_fingerprint) Failure.run_transition

unfoldable pub prepare_queued : RunRecord → Plane (Option (RunRecord × ℕ))
prepare_queued current =
    if current.status != RunStatus.queued
    then pure none
    else do check_agent current; created ← utc_now; pure (some (current, created))

unfoldable pub prepare : String → Plane (Option (RunRecord × ℕ))
prepare run_id = do current ← await (get_run run_id); prepare_queued current

unfoldable pub execute_prepared :
    String → Turn → Option WorkLease → Option (RunRecord × ℕ) → Plane (Unit {0})
execute_prepared run_id turn lease none = pure tt
execute_prepared run_id turn lease (some (current, created)) = do
  attempt_id ← new_id
  session ← ask (λ env. env.session_id run_id (current.attempt_count + 1))
  now ← utc_now
  let run = started_run current attempt_id now
  let attempt = started_attempt run_id current lease attempt_id session created now
  handling (start run_id current run attempt lease >> finish run attempt turn lease)
      (on_exception run attempt lease)

-- Before the attempt exists an exception settles nothing and is not passed on.
unfoldable pub execute : String → Option WorkLease → Turn → Plane (Unit {0})
execute run_id lease turn = do
  prepared ← handling (prepare run_id) (λ e. pure none)
  execute_prepared run_id turn lease prepared

-- one Run that was running when the process stopped
abbrev pub interrupted_attempt : RunAttempt → String → ℕ → RunAttempt
interrupted_attempt attempt message now = record attempt {
  status = AttemptStatus.interrupted;
  dispatch_state = DispatchState.unknown;
  revision = attempt.revision + 1;
  error = some message;
  finished_at = some now;
  updated_at = now;
}

abbrev pub restart_message : String
restart_message =
    "Control plane restarted while the DSH attempt was running; explicit retry is required"

unfoldable pub interrupt : RunRecord → ℕ → Option String → Plane (Unit {0})
interrupt run now none =
    call (Operation.replace_run (failed_run run restart_message now) run.revision)
interrupt run now (some attempt_id) = do
  attempt ← await (get_attempt attempt_id)
  call (
      Operation.settle_attempt (failed_run run restart_message now)
        (interrupted_attempt attempt restart_message now) run.revision attempt.revision none none
        none)

unfoldable pub recover_run : RunRecord → Plane (Unit {0})
recover_run run = if run.status == RunStatus.queued then pure tt else do
  now ← utc_now
  interrupt run now run.active_attempt_id
  append_event run.run_id run.active_attempt_id EventSource.control "run.recovery_required"
      (dict (("reason", Json.str "control_plane_restart") ∷ []))
  append_audit (record { tenant_id = run.tenant_id; principal_id = "system" }) "run.recovery"
      "explicit_retry_required" (some run.run_id) run.active_attempt_id (some run.agent_id)
      (dict (("reason", Json.str "control_plane_restart") ∷ []))

unfoldable pub recover_runs : List RunRecord → Plane (Unit {0})
unfolding recover_run
recover_runs [] = pure tt
recover_runs (run ∷ rest) = recover_run run >> recover_runs rest

-- Scheduling what is queued is left out.
unfoldable pub recover_startup : Plane (Unit {0})
recover_startup = do
  unsettled ← await (list_runs (RunStatus.queued ∷ RunStatus.running ∷ []))
  recover_runs unsettled
