-- ===== src/Store/Consistency.antt =====
-- The well-formedness of the database: unique keys, columns that agree with the payload of their
-- row, and the foreign and partial-index constraints.
pub mod Rules
pub mod Records
pub mod Others
pub mod Appends
pub mod Operations
use dsh_base_agent.Prelude.{
  ℕ, ◌≡◌, refl, String, Bool, true, List, Eq, string_eq, nat_eq, Option, some, none,
}
use dsh_base_agent.Prelude.Lists.{any, All}
use dsh_base_agent.Sql.{IsKeyed, has_key}
use dsh_base_agent.Sql.Keys.{IsTable}
use dsh_base_agent.Store.Tables.{
  ConversationRow, RunRow, IdempotencyRow, AttemptRow, PlanRow, ActionRow, Db, empty,
  conversation_key, run_key, attempt_key, plan_key, action_key,
}
use dsh_base_agent.Store.Statements.{one_pending}

-- The columns that every write sets from the payload. (`tenant_id` is not one of them: three of
-- the four UPDATEs of a Run leave that column.)
pub record AgreesConversation (row : ConversationRow) : Type 0 where
  pub id : row.payload.conversation_id ≡ row.conversation_id
  pub status : row.payload.status ≡ row.status
  pub next_sequence : row.payload.next_sequence ≡ row.next_sequence
  pub revision : row.payload.revision ≡ row.revision

pub record AgreesRun (row : RunRow) : Type 0 where
  pub id : row.payload.run_id ≡ row.run_id
  pub status : row.payload.status ≡ row.status
  pub revision : row.payload.revision ≡ row.revision

pub record AgreesAttempt (row : AttemptRow) : Type 0 where
  pub id : row.payload.attempt_id ≡ row.attempt_id
  pub status : row.payload.status ≡ row.status
  pub revision : row.payload.revision ≡ row.revision

pub record AgreesPlan (row : PlanRow) : Type 0 where
  pub id : row.payload.plan_id ≡ row.plan_id
  pub status : row.payload.status ≡ row.status
  pub revision : row.payload.revision ≡ row.revision

pub record AgreesAction (row : ActionRow) : Type 0 where
  pub id : row.payload.action_id ≡ row.action_id
  pub status : row.payload.status ≡ row.status
  pub revision : row.payload.revision ≡ row.revision

-- the UNIQUE column of `plans`
abbrev pub plan_run : PlanRow → String
plan_run row = row.run_id

abbrev pub InRuns : List RunRow → String → Type 0
InRuns runs run_id = any (has_key run_key run_id) runs ≡ true

pub record IsConsistent (db : Db) : Type 0 where
  pub conversations : IsTable conversation_key AgreesConversation db.conversations
  pub runs : IsTable run_key AgreesRun db.runs
  pub run_attempts : IsTable attempt_key AgreesAttempt db.run_attempts
  pub attempts_of_runs : All (λ row. InRuns db.runs row.run_id) db.run_attempts
  pub plans : IsTable plan_key AgreesPlan db.plans
  pub plans_of_runs : All (λ row. InRuns db.runs row.run_id) db.plans
  pub one_plan : IsKeyed plan_run db.plans
  pub required_actions : IsTable action_key AgreesAction db.required_actions
  pub actions_of_runs : All (λ row. InRuns db.runs row.run_id) db.required_actions
  pub one_pending_action : one_pending db.required_actions ≡ true
  pub events_of_runs : All (λ e. InRuns db.runs e.run_id) db.run_events
  pub artifacts_of_runs : All (λ a. InRuns db.runs a.run_id) db.artifacts

pub empty-IsConsistent : IsConsistent empty
empty-IsConsistent = record {
  conversations = record { keyed = tt; agree = tt };
  runs = record { keyed = tt; agree = tt };
  run_attempts = record { keyed = tt; agree = tt };
  attempts_of_runs = tt;
  plans = record { keyed = tt; agree = tt };
  plans_of_runs = tt;
  one_plan = tt;
  required_actions = record { keyed = tt; agree = tt };
  actions_of_runs = tt;
  one_pending_action = refl;
  events_of_runs = tt;
  artifacts_of_runs = tt;
}
