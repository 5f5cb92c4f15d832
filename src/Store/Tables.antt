-- ===== src/Store/Tables.antt =====
-- `_SCHEMA` of store/sqlite.py: a table is the list of its rows in the order of insertion. The
-- `payload` column is the record whose JSON dump the source writes there.
use dsh_base_agent.Prelude.{ℕ, String, List, []}
use dsh_base_agent.Models.{
  ConversationRecord, ConversationStatus, RunRecord, RunStatus, RunAttempt, AttemptStatus,
  PlanRecord, PlanStatus, RunEvent, AuditRecord, ArtifactRecord, RequiredActionRecord,
  RequiredActionStatus,
}

pub record ConversationRow : Type 0 where
  pub conversation_id : String
  pub tenant_id : String
  pub principal_id : String
  pub status : ConversationStatus
  pub next_sequence : ℕ
  pub revision : ℕ
  pub payload : ConversationRecord

pub record RunRow : Type 0 where
  pub run_id : String
  pub tenant_id : String
  pub status : RunStatus
  pub revision : ℕ
  pub payload : RunRecord

pub record IdempotencyRow : Type 0 where
  pub tenant_id : String
  pub idempotency_key : String
  pub request_digest : String
  pub run_id : String

pub record AttemptRow : Type 0 where
  pub attempt_id : String
  pub run_id : String
  pub number : ℕ
  pub session_id : String
  pub status : AttemptStatus
  pub revision : ℕ
  pub payload : RunAttempt

pub record PlanRow : Type 0 where
  pub plan_id : String
  pub run_id : String
  pub status : PlanStatus
  pub revision : ℕ
  pub payload : PlanRecord

pub record ActionRow : Type 0 where
  pub action_id : String
  pub run_id : String
  pub status : RequiredActionStatus
  pub revision : ℕ
  pub payload : RequiredActionRecord

-- `run_events`, `audit_log` and `artifacts` repeat fields of the payload in columns that no
-- statement changes, so the row is the payload.
pub record Db : Type 0 where
  pub conversations : List ConversationRow
  pub runs : List RunRow
  pub run_idempotency : List IdempotencyRow
  pub run_attempts : List AttemptRow
  pub plans : List PlanRow
  pub run_events : List RunEvent
  pub audit_log : List AuditRecord
  pub artifacts : List ArtifactRecord
  pub required_actions : List ActionRow

-- a database file on which only `_SCHEMA` has run
abbrev pub empty : Db
empty = record {
  conversations = [];
  runs = [];
  run_idempotency = [];
  run_attempts = [];
  plans = [];
  run_events = [];
  audit_log = [];
  artifacts = [];
  required_actions = [];
}

-- the columns by which rows are found
abbrev pub conversation_key : ConversationRow → String
conversation_key row = row.conversation_id

abbrev pub run_key : RunRow → String
run_key row = row.run_id

abbrev pub attempt_key : AttemptRow → String
attempt_key row = row.attempt_id

abbrev pub plan_key : PlanRow → String
plan_key row = row.plan_id

abbrev pub action_key : ActionRow → String
action_key row = row.action_id
