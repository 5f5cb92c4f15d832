-- ===== src/Control/Tests/Settlements.antt =====
-- Settlements that come late, and the recovery at a start.
use dsh_base_agent.Prelude.{◌≡◌, refl, none, some, [], ◌∷◌, ok, err, Result, Error, Option}
use dsh_base_agent.Models.{RunRecord, RunStatus}
use dsh_base_agent.Store.Statements.{get_run_sync}
use dsh_base_agent.Store.Samples.{running, attempt}
use dsh_base_agent.Control.Calls.{World}
use dsh_base_agent.Control.Settle.{settle_success, settle_failure}
use dsh_base_agent.Control.Requests.{Request, serve}
use dsh_base_agent.Control.Samples.{quiet, started, alice, over}
use dsh_base_agent.Control.Tests.{program}

-- A Run that was cancelled and queued again is settled by the attempt from before.
abbrev status_of : Result Error RunRecord → Option RunStatus
status_of (ok r) = some r.status
status_of (err e) = none

abbrev requeued : World
requeued =
    serve (Request.cancel alice "run_1" ∷ Request.retry alice "run_1" ∷ []) quiet (over started)

requeued_status :
    status_of (get_run_sync "run_1" requeued.control_store.disk) ≡ some RunStatus.queued
unfolding program
requeued_status = refl

settled_late :
    status_of (
      get_run_sync "run_1"
        (settle_success running attempt "late" none none quiet requeued).1.control_store.disk)
    ≡ some RunStatus.succeeded
unfolding program
settled_late = refl

-- A Run that succeeded is failed by an exception that follows its settlement.
failed_late :
    status_of (
      get_run_sync "run_1"
        (settle_failure running attempt "Error" "Error: event" none quiet
          (settle_success running attempt "done" none none quiet
            (over started)).1).1.control_store.disk)
    ≡ some RunStatus.failed
unfolding program
failed_late = refl

-- An attempt that was running when the process stopped is failed at the next start, and may be
-- retried.
recovered :
    status_of (
      get_run_sync "run_1"
        (serve (Request.recover_startup ∷ []) quiet (over started)).control_store.disk)
    ≡ some RunStatus.failed
unfolding program
recovered = refl
