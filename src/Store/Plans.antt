-- ===== src/Store/Plans.antt =====
-- The operations of `SqliteControlStore` on the plan of a Run.
use dsh_base_agent.Prelude.{
  ℕ, ◌+◌, String, not, ◌||◌, Option, some, Result, Error, plan_not_found, value_error, ◌==◌, ◌!=◌,
  string_eq, nat_eq, option_eq, raise_if, in_order, [], ◌∷◌,
}
use dsh_base_agent.Models.{
  RunRecord, RunAttempt, PlanRecord, RequiredActionRecord, RequiredActionStatus, action_status_eq,
  is_plan_approval, WorkLease,
}
use dsh_base_agent.Sql.{fetch_one}
use dsh_base_agent.Store.Tables.{Db}
use dsh_base_agent.Store.Connection.{Exec, ◌>>◌, transaction, query, checked}
use dsh_base_agent.Store.Statements.{
  payload_or, update_run, update_attempt_sync, update_plan, update_action, insert_plan,
  insert_action,
}
use dsh_base_agent.Store.Attempts.{refuse_lease}

unfoldable pub get_plan_sync : String → Db → Result Error PlanRecord
get_plan_sync run_id db =
    payload_or (λ row. row.payload) plan_not_found
      (fetch_one (λ row. row.run_id == run_id) db.plans)

unfoldable pub get_plan : String → Exec PlanRecord
unfolding get_plan_sync
get_plan run_id = query (get_plan_sync run_id)

unfoldable pub complete_planning_checks :
    RunRecord
    → RunAttempt
    → PlanRecord
    → RequiredActionRecord
    → ℕ
    → ℕ
    → Option WorkLease
    → Result Error (Unit {0})
complete_planning_checks run attempt plan action expected_run expected_attempt lease = in_order (
    refuse_lease lease
    ∷ raise_if (run.revision != expected_run + 1) value_error
    ∷ raise_if (attempt.revision != expected_attempt + 1) value_error
    ∷ raise_if
        (plan.run_id != run.run_id
          || attempt.run_id != run.run_id
          || action.run_id != run.run_id
          || action.attempt_id != attempt.attempt_id)
        value_error
    ∷ raise_if (not (is_plan_approval action.type)) value_error
    ∷ raise_if (action.status != RequiredActionStatus.pending) value_error
    ∷ raise_if (run.required_action_id != some action.action_id) value_error
    ∷ [])

unfoldable pub complete_planning :
    RunRecord
    → RunAttempt
    → PlanRecord
    → RequiredActionRecord
    → ℕ
    → ℕ
    → Option WorkLease
    → Exec (Unit {0})
unfolding complete_planning_checks
complete_planning run attempt plan action expected_run expected_attempt lease =
    checked (complete_planning_checks run attempt plan action expected_run expected_attempt lease) (
      transaction (do
        update_attempt_sync attempt expected_attempt
        update_run run expected_run
        insert_plan plan
        insert_action action))

unfoldable pub decide_plan_checks :
    RunRecord → PlanRecord → RequiredActionRecord → ℕ → ℕ → ℕ → Result Error (Unit {0})
decide_plan_checks run plan action expected_run expected_plan expected_action = in_order (
    raise_if (run.revision != expected_run + 1) value_error
    ∷ raise_if (plan.revision != expected_plan + 1) value_error
    ∷ raise_if (action.revision != expected_action + 1) value_error
    ∷ raise_if (plan.run_id != run.run_id || action.run_id != run.run_id) value_error
    ∷ raise_if (not (is_plan_approval action.type)) value_error
    ∷ [])

unfoldable pub decide_plan :
    RunRecord → PlanRecord → RequiredActionRecord → ℕ → ℕ → ℕ → Exec (Unit {0})
unfolding decide_plan_checks
decide_plan run plan action expected_run expected_plan expected_action =
    checked (decide_plan_checks run plan action expected_run expected_plan expected_action) (
      transaction (do
        update_plan plan expected_plan
        update_run run expected_run
        update_action action expected_action RequiredActionStatus.pending))
