-- ===== src/Store/Operation.antt =====
-- The calls that a client makes of `SqliteControlStore`, and a history of calls.
use dsh_base_agent.Prelude.{
  ℕ, String, false, Option, none, some, List, [], ◌∷◌, Result, ok, err, Error,
}
use dsh_base_agent.Models.{
  ConversationRecord, RunRecord, RunAttempt, PlanRecord, Json, RequiredActionRecord, EventSource,
  AuditRecord, ArtifactRecord, WorkLease,
}
use dsh_base_agent.Store.Tables.{empty}
use dsh_base_agent.Store.Connection.{SqliteControlStore}
use dsh_base_agent.Store.Connection
use dsh_base_agent.Store.Conversations
use dsh_base_agent.Store.Runs
use dsh_base_agent.Store.Attempts
use dsh_base_agent.Store.Actions
use dsh_base_agent.Store.Plans
use dsh_base_agent.Store.Logs

-- One constructor for each method that writes. Identifiers and times that the source draws are
-- arguments, so a history covers every choice of them.
pub data Operation : Type 0 where
  initialize close : Operation
  create_conversation : ConversationRecord → Operation
  replace_conversation : ConversationRecord → ℕ → Operation
  create_conversation_run : String → RunRecord → Option String → String → Operation
  create_run : RunRecord → Option String → String → Operation
  replace_run : RunRecord → ℕ → Operation
  begin_attempt :
      RunRecord
      → RunAttempt
      → ℕ
      → Option WorkLease
      → Option RequiredActionRecord
      → Option ℕ
      → Operation
  replace_attempt : RunAttempt → ℕ → Option WorkLease → Operation
  settle_attempt :
      RunRecord
      → RunAttempt
      → ℕ
      → ℕ
      → Option WorkLease
      → Option RequiredActionRecord
      → Option ℕ
      → Operation
  enter_required_action : RequiredActionRecord → Option WorkLease → ℕ → Operation
  answer_required_action : RunRecord → RequiredActionRecord → ℕ → ℕ → Operation
  complete_planning :
      RunRecord
      → RunAttempt
      → PlanRecord
      → RequiredActionRecord
      → ℕ
      → ℕ
      → Option WorkLease
      → Operation
  decide_plan : RunRecord → PlanRecord → RequiredActionRecord → ℕ → ℕ → ℕ → Operation
  append_event : String → Option String → EventSource → String → Json → String → ℕ → Operation
  append_audit : AuditRecord → Operation
  add_artifact : ArtifactRecord → Operation

abbrev pub report :
    {A : Type 0} → Result Error A × SqliteControlStore → Option Error × SqliteControlStore
report (ok a, s) = (none, s)
report (err e, s) = (some e, s)

-- What a call raised, and the state after it.
unfoldable pub perform : Operation → SqliteControlStore → Option Error × SqliteControlStore
perform initialize s = report (Connection.initialize s)
perform close s = report (Connection.close s)
perform (create_conversation c) s = report (Conversations.create_conversation c s)
perform (replace_conversation c e) s = report (Conversations.replace_conversation c e s)
perform (create_conversation_run id run key digest) s =
    report (Conversations.create_conversation_run id run key digest s)
perform (create_run run key digest) s = report (Runs.create_run run key digest s)
perform (replace_run run e) s = report (Runs.replace_run run e s)
perform (begin_attempt run attempt e lease action f) s =
    report (Attempts.begin_attempt run attempt e lease action f s)
perform (replace_attempt attempt e lease) s = report (Attempts.replace_attempt attempt e lease s)
perform (settle_attempt run attempt e f lease action g) s =
    report (Attempts.settle_attempt run attempt e f lease action g s)
perform (enter_required_action action lease now) s =
    report (Actions.enter_required_action action lease now s)
perform (answer_required_action run action e f) s =
    report (Actions.answer_required_action run action e f s)
perform (complete_planning run attempt plan action e f lease) s =
    report (Plans.complete_planning run attempt plan action e f lease s)
perform (decide_plan run plan action e f g) s = report (Plans.decide_plan run plan action e f g s)
perform (append_event run_id attempt_id source kind details event_id now) s =
    report (Logs.append_event run_id attempt_id source kind details event_id now s)
perform (append_audit audit) s = report (Logs.append_audit audit s)
perform (add_artifact artifact) s = report (Logs.add_artifact artifact s)

unfoldable pub perform_all : List Operation → SqliteControlStore → SqliteControlStore
perform_all [] s = s
perform_all (op ∷ ops) s = perform_all ops (perform op s).1

-- a store over a new file, before `initialize`
abbrev pub new_store : SqliteControlStore
new_store = record { disk = empty; connected = false; pending = none }
