-- ===== src/Control/Tests.antt =====
-- The theorems on the control plane at concrete inputs, and runs of its operations.
mod Settlements
use dsh_base_agent.Prelude.{◌≡◌, refl, none, some, List, [], ◌∷◌, ok, err, Result, Error, Option}
use dsh_base_agent.Models.{RunRecord, RunStatus, RunPhase, run_phase_eq, PlanApprovalDecision}
use dsh_base_agent.Plan.Compile.{compiled_workflow}
use dsh_base_agent.Store.Connection.{
  SqliteControlStore, transaction, autocommit, update_one, unguarded, query,
  normalize_succeeded_run_phases,
}
use dsh_base_agent.Store.Connection
use dsh_base_agent.Store.Statements.{
  get_run_sync, get_attempt_sync, insert_run, insert_attempt, insert_plan, insert_action,
  update_run, update_run_sync, update_attempt_sync, update_plan, update_action,
}
use dsh_base_agent.Store.Runs.{create_run, create_or_replay, replace_run, get_run, list_runs}
use dsh_base_agent.Store.Attempts.{begin_attempt, settle_attempt, get_attempt}
use dsh_base_agent.Store.Actions.{get_required_action, get_action_sync}
use dsh_base_agent.Store.Plans.{
  get_plan, get_plan_sync, complete_planning, decide_plan, complete_planning_checks,
  decide_plan_checks,
}
use dsh_base_agent.Store.Logs.{
  append_event, append_event_body, insert_event, append_audit, insert_audit,
}
use dsh_base_agent.Store.Operation.{Operation, perform, perform_all, new_store}
use dsh_base_agent.Store.Consistency.{empty-IsConsistent}
use dsh_base_agent.Store.Consistency.Operations.{perform_all-IsConsistent}
use dsh_base_agent.Store.Transitions.{Steps}
use dsh_base_agent.Store.Samples.{run, running, attempt}
use dsh_base_agent.Control.Failures.{Failure}
use dsh_base_agent.Control.Calls.{Env, World, call, handling, raise_if, or_raise}
use dsh_base_agent.Control.Calls
use dsh_base_agent.Control.Shared.{
  owned_run, agent_of, append_audit as log_audit, audit_run, append_event as log_event,
}
use dsh_base_agent.Control.Settle.{
  settle_planning, propose_plan, settle_success, settle_failure, succeed, fail,
}
use dsh_base_agent.Control.Decide.{
  PlanDecisionView, resolve_plan_action, resolve_current, check_current, check_action, check_plan,
  verify_approval,
}
use dsh_base_agent.Control.Execute.{
  execute, execute_prepared, prepare, prepare_queued, check_agent, start, finish, recover_startup,
  recover_runs, recover_run, interrupt,
}
use dsh_base_agent.Control.Requests.{Request, handle, serve}
use dsh_base_agent.Control.Lifecycle.{Step}
use dsh_base_agent.Control.Guarantee.{IsSound, Advances-refl}
use dsh_base_agent.Control.Rules.{IsFairEnv}
use dsh_base_agent.Control.Lives.{handle-IsFair, serve-Steps}
use dsh_base_agent.Control.Consequences.{
  IsApproval, IsLater, serve-rejected, serve-IsApproval, serve-IsLater,
}
use dsh_base_agent.Control.Access.{after_read, handle-foreign}
use dsh_base_agent.Control.Cancel.{
  cancel, cancel_current, cancel_attempt, cancel_plan, pending_action_of, block_after_cancel,
  block_session, report_plan, report_action,
}
use dsh_base_agent.Control.Retry.{retry, retry_current}
use dsh_base_agent.Control.Samples.{
  quiet, busy, started, proposal, alice, mallory, decision, planned, rejected, storing, over,
  propose, approve,
}

-- what the tests compute with
abbrev pub program : Unit {0}
unfolding perform perform_all Connection.initialize Connection.◌>>=◌ transaction autocommit
    update_one unguarded query get_run_sync get_attempt_sync insert_run insert_attempt insert_plan
    insert_action update_run update_run_sync update_attempt_sync update_plan update_action
    create_run create_or_replay replace_run get_run begin_attempt settle_attempt get_attempt
    get_required_action get_action_sync get_plan get_plan_sync complete_planning decide_plan
    complete_planning_checks decide_plan_checks append_event append_event_body insert_event
    append_audit insert_audit normalize_succeeded_run_phases Calls.◌>>=◌ call handling raise_if
    or_raise owned_run agent_of log_audit audit_run log_event settle_planning propose_plan
    resolve_plan_action resolve_current check_current check_action check_plan verify_approval
    execute execute_prepared prepare prepare_queued check_agent start finish handle serve cancel
    cancel_current cancel_attempt cancel_plan pending_action_of block_after_cancel block_session
    report_plan report_action retry retry_current settle_success settle_failure succeed fail
    compiled_workflow recover_startup recover_runs recover_run interrupt list_runs
program = tt

abbrev stored_after : List Request → SqliteControlStore → Result Error RunRecord
stored_after requests s = get_run_sync "run_1" (serve requests quiet (over s)).control_store.disk

abbrev run_or : Result Error RunRecord → RunRecord
run_or (ok r) = r
run_or (err e) = run

quiet-IsFairEnv : IsFairEnv quiet
quiet-IsFairEnv n s sound = Advances-refl s

busy-IsFairEnv : IsFairEnv busy
busy-IsFairEnv n = handle-IsFair (Request.cancel alice "run_1") quiet n quiet-IsFairEnv

storing-IsSound : (r : RunRecord) → IsSound (storing r)
unfolding program
storing-IsSound r = record {
  consistent =
      perform_all-IsConsistent (Operation.initialize ∷ Operation.create_run r none "digest" ∷ [])
        new_store (record { on_disk = empty-IsConsistent; in_working = empty-IsConsistent });
  settled = refl;
}

stored_run : get_run_sync "run_1" (storing run).disk ≡ ok run
unfolding program
stored_run = refl

stored_planned : get_run_sync "run_1" (storing planned).disk ≡ ok planned
unfolding program
stored_planned = refl

stored_rejected : get_run_sync "run_1" (storing rejected).disk ≡ ok rejected
unfolding program
stored_rejected = refl

serve-Steps_example :
    (run' : RunRecord) × (get_run_sync "run_1"
        (serve (approve ∷ propose ∷ []) busy (over (storing planned))).control_store.disk
      ≡ ok run')
    × Steps Step planned run'
serve-Steps_example =
    serve-Steps (approve ∷ propose ∷ []) busy (over (storing planned)) "run_1" planned
      busy-IsFairEnv (storing-IsSound planned) stored_planned

serve-rejected_example :
    get_run_sync "run_1"
      (serve
        (Request.retry alice "run_1" ∷ approve ∷ [])
        busy
        (over (storing rejected))).control_store.disk
    ≡ ok rejected
serve-rejected_example =
    serve-rejected (Request.retry alice "run_1" ∷ approve ∷ []) busy (over (storing rejected))
      "run_1" rejected busy-IsFairEnv (storing-IsSound rejected) stored_rejected refl refl

-- the Run once its plan is proposed and approved
abbrev approved : RunRecord
approved = run_or (stored_after (propose ∷ approve ∷ []) (storing planned))

stored_approved : stored_after (propose ∷ approve ∷ []) (storing planned) ≡ ok approved
unfolding program
stored_approved = refl

approved_phase : approved.phase ≡ RunPhase.executing
unfolding program
approved_phase = refl

serve-IsApproval_example :
    (a : RunRecord) × (b : RunRecord) × Steps Step planned a
    × IsApproval a b
    × Steps Step b approved
serve-IsApproval_example =
    serve-IsApproval (propose ∷ approve ∷ []) quiet (over (storing planned)) "run_1" planned
      quiet-IsFairEnv (storing-IsSound planned) stored_planned approved refl stored_approved
      approved_phase

serve-IsLater_example :
    (run' : RunRecord) × (get_run_sync "run_1"
        (serve (Request.cancel alice "run_1" ∷ []) quiet (over (storing run))).control_store.disk
      ≡ ok run')
    × IsLater run run'
serve-IsLater_example =
    serve-IsLater (Request.cancel alice "run_1" ∷ []) quiet (over (storing run)) "run_1" run
      quiet-IsFairEnv (storing-IsSound run) stored_run

handle-foreign_example :
    handle (Request.cancel mallory "run_1") quiet (over (storing run))
    ≡ (err Failure.run_access_denied, after_read quiet (over (storing run)))
unfolding program
handle-foreign_example =
    handle-foreign quiet (over (storing run)) mallory "run_1" run refl refl refl
      (Request.cancel mallory "run_1") refl

-- the store in which the plan is proposed
abbrev waiting : World
waiting = serve (propose ∷ []) quiet (over (storing planned))

abbrev view_or : Result Failure PlanDecisionView → PlanDecisionView
view_or (ok view) = view
view_or (err e) = record { run = run; plan = proposal }

abbrev approval : PlanDecisionView
approval =
    view_or
      (resolve_plan_action alice "run_1" (decision PlanApprovalDecision.approve) none none quiet
        waiting).0
