-- ===== src/Store/Consistency/Appends.antt =====
-- The statements on the append-only tables keep the well-formedness.
use dsh_base_agent.Prelude.{String, List, arith, string_eq, nat_eq, Option, some, none}
use dsh_base_agent.Models.{RunRecord, action_status_eq, AuditRecord, ArtifactRecord, RunEvent}
use dsh_base_agent.Sql.Rows.{All-insert}
use dsh_base_agent.Store.Tables.{IdempotencyRow, Db}
use dsh_base_agent.Store.Keeps.{OnOk-insert, Keeps}
use dsh_base_agent.Store.Consistency.{IsConsistent}
use dsh_base_agent.Store.Conversations.{insert_idempotency_of}
use dsh_base_agent.Store.Logs.{insert_event, insert_audit, insert_artifact}

set_idempotency :
    (db : Db) (rows : List IdempotencyRow)
    → IsConsistent db
    → IsConsistent (record db { run_idempotency = rows })
set_idempotency db rows h = record {
  conversations = h.conversations;
  runs = h.runs;
  run_attempts = h.run_attempts;
  attempts_of_runs = h.attempts_of_runs;
  plans = h.plans;
  plans_of_runs = h.plans_of_runs;
  one_plan = h.one_plan;
  required_actions = h.required_actions;
  actions_of_runs = h.actions_of_runs;
  one_pending_action = h.one_pending_action;
  events_of_runs = h.events_of_runs;
  artifacts_of_runs = h.artifacts_of_runs;
}

set_audit :
    (db : Db) (rows : List AuditRecord)
    → IsConsistent db
    → IsConsistent (record db { audit_log = rows })
set_audit db rows h = record {
  conversations = h.conversations;
  runs = h.runs;
  run_attempts = h.run_attempts;
  attempts_of_runs = h.attempts_of_runs;
  plans = h.plans;
  plans_of_runs = h.plans_of_runs;
  one_plan = h.one_plan;
  required_actions = h.required_actions;
  actions_of_runs = h.actions_of_runs;
  one_pending_action = h.one_pending_action;
  events_of_runs = h.events_of_runs;
  artifacts_of_runs = h.artifacts_of_runs;
}

pub Keeps-insert_idempotency_of :
    (run : RunRecord) (key : Option String) (digest : String)
    → Keeps IsConsistent (insert_idempotency_of run key digest)
Keeps-insert_idempotency_of run none digest = record { at = λ db h. h }
Keeps-insert_idempotency_of run (some key) digest = record {
  at = λ db h. OnOk-insert _ IsConsistent _ _ (λ fresh. set_idempotency db _ h);
}

pub Keeps-insert_audit : (audit : AuditRecord) → Keeps IsConsistent (insert_audit audit)
unfolding insert_audit
Keeps-insert_audit audit = record {
  at = λ db h. OnOk-insert _ IsConsistent _ _ (λ fresh. set_audit db _ h);
}

pub Keeps-insert_event : (event : RunEvent) → Keeps IsConsistent (insert_event event)
unfolding insert_event
Keeps-insert_event event = record {
  at = λ db h. OnOk-insert _ IsConsistent _ _ (λ fresh. record {
    conversations = h.conversations;
    runs = h.runs;
    run_attempts = h.run_attempts;
    attempts_of_runs = h.attempts_of_runs;
    plans = h.plans;
    plans_of_runs = h.plans_of_runs;
    one_plan = h.one_plan;
    required_actions = h.required_actions;
    actions_of_runs = h.actions_of_runs;
    one_pending_action = h.one_pending_action;
    events_of_runs = All-insert _ event db.run_events h.events_of_runs (ground arith);
    artifacts_of_runs = h.artifacts_of_runs;
  });
}

pub Keeps-insert_artifact :
    (artifact : ArtifactRecord) → Keeps IsConsistent (insert_artifact artifact)
unfolding insert_artifact
Keeps-insert_artifact artifact = record {
  at = λ db h. OnOk-insert _ IsConsistent _ _ (λ fresh. record {
    conversations = h.conversations;
    runs = h.runs;
    run_attempts = h.run_attempts;
    attempts_of_runs = h.attempts_of_runs;
    plans = h.plans;
    plans_of_runs = h.plans_of_runs;
    one_plan = h.one_plan;
    required_actions = h.required_actions;
    actions_of_runs = h.actions_of_runs;
    one_pending_action = h.one_pending_action;
    events_of_runs = h.events_of_runs;
    artifacts_of_runs = All-insert _ artifact db.artifacts h.artifacts_of_runs (ground arith);
  });
}
