-- ===== src/Store/Decided.antt =====
-- What a call of `decide_plan` that raises nothing has committed.
use dsh_base_agent.Prelude.{ℕ, ◌≡◌, refl, string_eq, nat_eq, ◌&&◌, none, some, ok, ◌==◌, arith}
use dsh_base_agent.Models.{
  RunRecord, PlanRecord, RequiredActionRecord, RequiredActionStatus, action_status_eq,
}
use dsh_base_agent.Sql.{fetch_one, has_key, rowcount, update}
use dsh_base_agent.Sql.Keys.{row_updated}
use dsh_base_agent.Store.Tables.{Db, RunRow, PlanRow, ActionRow, run_key, plan_key, action_key}
use dsh_base_agent.Store.Connection.{SqliteControlStore, transaction, working}
use dsh_base_agent.Store.Connection
use dsh_base_agent.Store.Statements.{
  run_at, plan_at, action_at, set_action, update_run, update_plan, update_action, get_run_sync,
}
use dsh_base_agent.Store.Plans.{decide_plan}
use dsh_base_agent.Store.Operation.{Operation, perform}
use dsh_base_agent.Store.Consistency.{IsConsistent}

-- `db` has the Run, the plan and the action in the rows of their keys.
pub record HasDecided (run : RunRecord) (plan : PlanRecord) (action : RequiredActionRecord)
    (db : Db) : Type 0 where
  pub run_stored : get_run_sync run.run_id db ≡ ok run
  pub row : PlanRow
  pub found : fetch_one (has_key plan_key plan.plan_id) db.plans ≡ some row
  pub plan_stored : row.payload ≡ plan
  pub action_row : ActionRow
  pub action_found :
      fetch_one (has_key action_key action.action_id) db.required_actions ≡ some action_row
  pub action_stored : action_row.payload ≡ action

module _ (run : RunRecord) (plan : PlanRecord) (action : RequiredActionRecord) (e f g : ℕ)
    (s : SqliteControlStore) where
  abbrev after : SqliteControlStore
  after = (perform (Operation.decide_plan run plan action e f g) s).1

  -- what the UPDATEs make of the rows
  abbrev with_plan : PlanRow → PlanRow
  with_plan row = record row { status = plan.status; revision = plan.revision; payload = plan }

  abbrev with_run : RunRow → RunRow
  with_run row = record row { status = run.status; revision = run.revision; payload = run }

  abbrev with_action : ActionRow → ActionRow
  with_action row = record row {
    status = action.status;
    revision = action.revision;
    payload = action;
  }

  -- each UPDATE has hit one row, and their effects are committed
  record HasCommitted : Type 0 where
    plan_hit : rowcount (plan_at plan.plan_id f) s.disk.plans ≡ 1
    run_hit : rowcount (run_at run.run_id e) s.disk.runs ≡ 1
    plans : after.disk.plans ≡ update (plan_at plan.plan_id f) with_plan s.disk.plans
    action_hit :
        rowcount (action_at action.action_id g RequiredActionStatus.pending) s.disk.required_actions
        ≡ 1
    actions :
        after.disk.required_actions
        ≡ set_action action g RequiredActionStatus.pending s.disk.required_actions
    runs : after.disk.runs ≡ update (run_at run.run_id e) with_run s.disk.runs

  decide_plan-HasCommitted :
      (perform (Operation.decide_plan run plan action e f g) s).0 ≡ none → HasCommitted
  unfolding perform decide_plan transaction update_plan update_run update_action Connection.◌>>=◌
  decide_plan-HasCommitted returned = record {
    plan_hit = ground (arith, returned);
    run_hit = ground (arith, returned);
    plans = ground (arith, returned);
    runs = ground (arith, returned);
    action_hit = ground (arith, returned);
    actions = ground (arith, returned);
  }

  pub decide_plan-HasDecided :
      IsConsistent s.disk
      → (perform (Operation.decide_plan run plan action e f g) s).0 ≡ none
      → HasDecided run plan action after.disk
  unfolding get_run_sync
  decide_plan-HasDecided h returned =
      let c = decide_plan-HasCommitted returned in
      let (run_row, run_found) =
        row_updated run_key run.run_id (λ row. row.revision == e) with_run (λ _. refl) s.disk.runs
          h.runs.keyed c.run_hit in
      let (plan_row, plan_found) =
        row_updated plan_key plan.plan_id (λ row. row.revision == f) with_plan (λ _. refl)
          s.disk.plans h.plans.keyed c.plan_hit in
      let (action_row, action_found) =
        row_updated action_key action.action_id
          (λ row. row.revision == g && row.status == RequiredActionStatus.pending) with_action
          (λ _. refl) s.disk.required_actions h.required_actions.keyed c.action_hit in
      record {
        run_stored = rw c.runs (rw run_found refl);
        row = with_plan plan_row;
        found = rw c.plans plan_found;
        plan_stored = refl;
        action_row = with_action action_row;
        action_found = rw c.actions action_found;
        action_stored = refl;
      }
