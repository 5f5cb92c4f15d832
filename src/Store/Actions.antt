-- ===== src/Store/Actions.antt =====
-- The operations of `SqliteControlStore` on required actions.
use dsh_base_agent.Prelude.{
  ℕ, ◌+◌, String, ◌||◌, Option, some, Result, Error, required_action_not_found, revision_conflict,
  value_error, ◌!=◌, string_eq, nat_eq, option_eq, raise_if, in_order, [], ◌∷◌,
}
use dsh_base_agent.Models.{
  RunRecord, RunStatus, run_status_eq, RunAttempt, AttemptStatus, attempt_status_eq, DispatchState,
  RequiredActionRecord, RequiredActionStatus, action_status_eq, WorkLease,
}
use dsh_base_agent.Sql.{fetch_one, has_key}
use dsh_base_agent.Store.Tables.{Db, action_key}
use dsh_base_agent.Store.Connection.{
  Exec, Tx, ◌>>=◌, ◌>>◌, pure, lift, gets, transaction, query, checked,
}
use dsh_base_agent.Store.Statements.{
  payload_or, get_run_sync, get_attempt_sync, update_run_sync, update_attempt_sync, update_action,
  insert_action,
}
use dsh_base_agent.Store.Attempts.{refuse_lease}

unfoldable pub get_action_sync : String → Db → Result Error RequiredActionRecord
get_action_sync id db =
    payload_or (λ row. row.payload) required_action_not_found
      (fetch_one (has_key action_key id) db.required_actions)

unfoldable pub get_required_action : String → Exec RequiredActionRecord
unfolding get_action_sync
get_required_action id = query (get_action_sync id)

-- the records that `enter_required_action` writes, at the time `now`
abbrev pub waiting_run : RunRecord → String → ℕ → RunRecord
waiting_run run action_id now = record run {
  status = RunStatus.waiting;
  required_action_id = some action_id;
  revision = run.revision + 1;
  updated_at = now;
}

abbrev pub waiting_attempt : RunAttempt → ℕ → RunAttempt
waiting_attempt attempt now = record attempt {
  status = AttemptStatus.waiting;
  dispatch_state = DispatchState.settled;
  finish_reason = some "user_input_required";
  revision = attempt.revision + 1;
  finished_at = some now;
  updated_at = now;
}

abbrev pub enter_checks : RequiredActionRecord → Option WorkLease → Result Error (Unit {0})
enter_checks action lease =
    in_order (
      refuse_lease lease
      ∷ raise_if (action.status != RequiredActionStatus.pending) value_error
      ∷ [])

unfoldable pub enter_required_action_body : RequiredActionRecord → ℕ → Tx (RunRecord × RunAttempt)
enter_required_action_body action now = do
  db ← gets (λ db. db)
  run ← lift (get_run_sync action.run_id db)
  attempt ← lift (get_attempt_sync action.attempt_id db)
  lift (
      raise_if (run.status != RunStatus.running || run.active_attempt_id != some attempt.attempt_id)
        revision_conflict)
  lift (raise_if (attempt.status != AttemptStatus.running) revision_conflict)
  lift (raise_if (run.conversation_id != action.conversation_id) value_error)
  insert_action action
  update_run_sync (waiting_run run action.action_id now) run.revision
  update_attempt_sync (waiting_attempt attempt now) attempt.revision
  pure (waiting_run run action.action_id now, waiting_attempt attempt now)

unfoldable pub enter_required_action :
    RequiredActionRecord → Option WorkLease → ℕ → Exec (RunRecord × RunAttempt)
unfolding enter_required_action_body
enter_required_action action lease now =
    checked (enter_checks action lease) (transaction (enter_required_action_body action now))

abbrev pub answer_checks : RunRecord → RequiredActionRecord → ℕ → ℕ → Result Error (Unit {0})
answer_checks run action expected_run expected_action = in_order (
    raise_if (run.revision != expected_run + 1) value_error
    ∷ raise_if (action.revision != expected_action + 1) value_error
    ∷ [])

unfoldable pub answer_required_action : RunRecord → RequiredActionRecord → ℕ → ℕ → Exec (Unit {0})
answer_required_action run action expected_run expected_action =
    checked (answer_checks run action expected_run expected_action) (
      transaction (do
        update_action action expected_action RequiredActionStatus.pending
        update_run_sync run expected_run))
