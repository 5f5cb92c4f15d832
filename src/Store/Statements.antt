-- ===== src/Store/Statements.antt =====
-- The statements of store/sqlite.py on one table each, and its `_get_*_sync` and `_update_*_sync`
-- helpers. A foreign key is checked with the statement, as SQLite does under `foreign_keys=ON`.
use dsh_base_agent.Prelude.{
  ℕ, String, Bool, true, not, ◌&&◌, ◌||◌, Option, none, some, List, [], ◌∷◌, Result, ok, err, Error,
  run_not_found, conversation_not_found, attempt_not_found, revision_conflict, integrity_error,
  ◌==◌, string_eq, nat_eq, if◌then◌else◌,
}
use dsh_base_agent.Prelude.Lists.{any}
use dsh_base_agent.Models.{
  ConversationRecord, RunRecord, RunAttempt, PlanRecord, RequiredActionRecord, RequiredActionStatus,
  action_status_eq,
}
use dsh_base_agent.Sql.{fetch_one, rowcount, update, insert, has_key}
use dsh_base_agent.Store.Tables.{
  ConversationRow, RunRow, AttemptRow, PlanRow, ActionRow, Db, conversation_key, run_key,
  attempt_key, plan_key, action_key,
}
use dsh_base_agent.Store.Connection.{Tx, Ran}

-- `raise` when a fetch returns no row, or the payload of the row
abbrev pub payload_or : {R A : Type 0} → (R → A) → Error → Option R → Result Error A
payload_or f e none = err e
payload_or f e (some row) = ok (f row)

unfoldable pub get_run_sync : String → Db → Result Error RunRecord
get_run_sync run_id db =
    payload_or (λ row. row.payload) run_not_found (fetch_one (has_key run_key run_id) db.runs)

unfoldable pub get_conversation_sync : String → Db → Result Error ConversationRecord
get_conversation_sync id db =
    payload_or (λ row. row.payload) conversation_not_found
      (fetch_one (has_key conversation_key id) db.conversations)

unfoldable pub get_attempt_sync : String → Db → Result Error RunAttempt
get_attempt_sync id db =
    payload_or (λ row. row.payload) attempt_not_found
      (fetch_one (has_key attempt_key id) db.run_attempts)

-- the rows as an INSERT writes them
abbrev pub conversation_row : ConversationRecord → ConversationRow
conversation_row c = record {
  conversation_id = c.conversation_id;
  tenant_id = c.tenant_id;
  principal_id = c.principal_id;
  status = c.status;
  next_sequence = c.next_sequence;
  revision = c.revision;
  payload = c;
}

abbrev pub run_row : RunRecord → RunRow
run_row run = record {
  run_id = run.run_id;
  tenant_id = run.tenant_id;
  status = run.status;
  revision = run.revision;
  payload = run;
}

abbrev pub attempt_row : RunAttempt → AttemptRow
attempt_row attempt = record {
  attempt_id = attempt.attempt_id;
  run_id = attempt.run_id;
  number = attempt.number;
  session_id = attempt.dsh_session_id;
  status = attempt.status;
  revision = attempt.revision;
  payload = attempt;
}

abbrev pub plan_row : PlanRecord → PlanRow
plan_row plan = record {
  plan_id = plan.plan_id;
  run_id = plan.run_id;
  status = plan.status;
  revision = plan.revision;
  payload = plan;
}

abbrev pub action_row : RequiredActionRecord → ActionRow
action_row action = record {
  action_id = action.action_id;
  run_id = action.run_id;
  status = action.status;
  revision = action.revision;
  payload = action;
}

-- `WHERE key = k AND revision = e`
abbrev pub run_at : String → ℕ → RunRow → Bool
run_at id e row = has_key run_key id row && row.revision == e

abbrev pub attempt_at : String → ℕ → AttemptRow → Bool
attempt_at id e row = has_key attempt_key id row && row.revision == e

abbrev pub plan_at : String → ℕ → PlanRow → Bool
plan_at id e row = has_key plan_key id row && row.revision == e

abbrev pub conversation_at : String → ℕ → ConversationRow → Bool
conversation_at id e row = has_key conversation_key id row && row.revision == e

abbrev pub action_at : String → ℕ → RequiredActionStatus → ActionRow → Bool
action_at id e status row = has_key action_key id row && (row.revision == e && row.status == status)

-- `if result.rowcount != 1: raise RevisionConflictError`, or the changed database
abbrev pub one_row : ℕ × Db → Ran (Unit {0})
one_row (n, db) = if n == 1 then ok (tt, db) else err (revision_conflict, db)

-- `UPDATE runs SET status, revision, payload`, as the multi-table operations write it
unfoldable pub update_run : RunRecord → ℕ → Tx (Unit {0})
update_run run expected db = one_row (
  rowcount (run_at run.run_id expected) db.runs,
  record db {
    runs =
        update (run_at run.run_id expected)
          (λ row. record row { status = run.status; revision = run.revision; payload = run })
          db.runs;
  },
)

-- `_update_run_sync` sets `tenant_id` too.
abbrev pub set_run : RunRecord → ℕ → Db → ℕ × Db
set_run run expected db = (
  rowcount (run_at run.run_id expected) db.runs,
  record db {
    runs =
        update (run_at run.run_id expected)
          (λ row. record row {
            tenant_id = run.tenant_id;
            status = run.status;
            revision = run.revision;
            payload = run;
          })
          db.runs;
  },
)

unfoldable pub update_run_sync : RunRecord → ℕ → Tx (Unit {0})
update_run_sync run expected db = one_row (set_run run expected db)

-- `_update_attempt_sync`, and the same statement in the multi-table operations
abbrev pub set_attempt : RunAttempt → ℕ → Db → ℕ × Db
set_attempt attempt expected db = (
  rowcount (attempt_at attempt.attempt_id expected) db.run_attempts,
  record db {
    run_attempts =
        update (attempt_at attempt.attempt_id expected)
          (λ row. record row {
            status = attempt.status;
            revision = attempt.revision;
            payload = attempt;
          })
          db.run_attempts;
  },
)

unfoldable pub update_attempt_sync : RunAttempt → ℕ → Tx (Unit {0})
update_attempt_sync attempt expected db = one_row (set_attempt attempt expected db)

unfoldable pub update_plan : PlanRecord → ℕ → Tx (Unit {0})
update_plan plan expected db = one_row (
  rowcount (plan_at plan.plan_id expected) db.plans,
  record db {
    plans =
        update (plan_at plan.plan_id expected)
          (λ row. record row { status = plan.status; revision = plan.revision; payload = plan })
          db.plans;
  },
)

-- `uq_required_actions_pending_run`: at most one pending action for each Run
abbrev pub is_pending_for : String → ActionRow → Bool
is_pending_for run_id row = row.run_id == run_id && row.status == RequiredActionStatus.pending

abbrev pub one_pending : List ActionRow → Bool
one_pending [] = true
one_pending (row ∷ rows) =
    not (row.status == RequiredActionStatus.pending && any (is_pending_for row.run_id) rows)
    && one_pending rows

abbrev pub set_action :
    RequiredActionRecord → ℕ → RequiredActionStatus → List ActionRow → List ActionRow
set_action action expected status =
    update (action_at action.action_id expected status)
      (λ row. record row { status = action.status; revision = action.revision; payload = action })

-- An UPDATE that breaks the partial index raises `IntegrityError`.
unfoldable pub update_action : RequiredActionRecord → ℕ → RequiredActionStatus → Tx (Unit {0})
update_action action expected status db =
    let rows = set_action action expected status db.required_actions in
    if one_pending rows
    then one_row (
      rowcount (action_at action.action_id expected status) db.required_actions,
      record db { required_actions = rows },
    )
    else err (integrity_error, db)

-- INSERTs, with the PRIMARY KEY, the UNIQUE constraints and the foreign keys of the table
unfoldable pub insert_run : RunRecord → Tx (Unit {0})
insert_run run db =
    if any (has_key run_key run.run_id) db.runs
    then err (integrity_error, db)
    else ok (tt, record db { runs = insert (run_row run) db.runs })

unfoldable pub insert_attempt : RunAttempt → Tx (Unit {0})
insert_attempt attempt db =
    if any (has_key attempt_key attempt.attempt_id) db.run_attempts
      || any (λ row. row.run_id == attempt.run_id && row.number == attempt.number) db.run_attempts
      || not (any (has_key run_key attempt.run_id) db.runs)
    then err (integrity_error, db)
    else ok (tt, record db { run_attempts = insert (attempt_row attempt) db.run_attempts })

unfoldable pub insert_plan : PlanRecord → Tx (Unit {0})
insert_plan plan db =
    if any (has_key plan_key plan.plan_id) db.plans
      || any (λ row. row.run_id == plan.run_id) db.plans
      || not (any (has_key run_key plan.run_id) db.runs)
    then err (integrity_error, db)
    else ok (tt, record db { plans = insert (plan_row plan) db.plans })

unfoldable pub insert_action : RequiredActionRecord → Tx (Unit {0})
insert_action action db =
    if any (has_key action_key action.action_id) db.required_actions
      || not (any (has_key run_key action.run_id) db.runs)
      || not (one_pending (insert (action_row action) db.required_actions))
    then err (integrity_error, db)
    else ok (tt, record db { required_actions = insert (action_row action) db.required_actions })
