-- ===== src/Store/Preservation.antt =====
-- An invariant that the statements keep is kept by the operations and by every history of them.
-- What the operations check before a statement is a premise of its rule: the new revision is the
-- expected one plus one. `Permit run e` is what the history allows: that `run` replaces the stored
-- Run at revision `e`.
mod Operations
pub mod Calls
pub mod Runs
use dsh_base_agent.Prelude.{ℕ, ◌+◌, ◌≡◌, String, Option, Bool}
use dsh_base_agent.Models.{
  ConversationRecord, RunRecord, RunAttempt, PlanRecord, RequiredActionRecord, Json,
  RequiredActionStatus, EventSource, AuditRecord, ArtifactRecord,
}
use dsh_base_agent.Store.Tables.{Db}
use dsh_base_agent.Store.Statements.{
  update_run, update_run_sync, insert_run, update_attempt_sync, insert_attempt, update_plan,
  insert_plan, update_action, insert_action,
}
use dsh_base_agent.Store.Conversations.{
  insert_conversation, update_conversation, advance_conversation, insert_idempotency_of,
}
use dsh_base_agent.Store.Logs.{append_event_body, insert_audit, insert_artifact}
use dsh_base_agent.Store.Keeps.{Keeps}

pub record KeptByStatements (Permit : RunRecord → ℕ → Type 0) (P : Db → Type 0) : Type 0 where
  pub on_update_run :
      (run : RunRecord) (e : ℕ) → run.revision ≡ e + 1 → Permit run e → Keeps P (update_run run e)
  pub on_update_run_sync :
      (run : RunRecord) (e : ℕ)
      → run.revision ≡ e + 1
      → Permit run e
      → Keeps P (update_run_sync run e)
  pub on_insert_run : (run : RunRecord) → Keeps P (insert_run run)
  pub on_update_attempt :
      (attempt : RunAttempt) (e : ℕ)
      → attempt.revision ≡ e + 1
      → Keeps P (update_attempt_sync attempt e)
  pub on_insert_attempt : (attempt : RunAttempt) → Keeps P (insert_attempt attempt)
  pub on_update_plan :
      (plan : PlanRecord) (e : ℕ) → plan.revision ≡ e + 1 → Keeps P (update_plan plan e)
  pub on_insert_plan : (plan : PlanRecord) → Keeps P (insert_plan plan)
  pub on_update_action :
      (action : RequiredActionRecord) (e : ℕ) (status : RequiredActionStatus)
      → action.revision ≡ e + 1
      → Keeps P (update_action action e status)
  pub on_insert_action : (action : RequiredActionRecord) → Keeps P (insert_action action)
  pub on_insert_conversation : (c : ConversationRecord) → Keeps P (insert_conversation c)
  pub on_update_conversation :
      (c : ConversationRecord) (e : ℕ) → c.revision ≡ e + 1 → Keeps P (update_conversation c e)
  pub on_advance_conversation :
      (c : ConversationRecord) (e : ℕ) → c.revision ≡ e + 1 → Keeps P (advance_conversation c e)
  pub on_insert_idempotency :
      (run : RunRecord) (key : Option String) (digest : String)
      → Keeps P (insert_idempotency_of run key digest)
  pub on_append_event :
      (run_id : String) (attempt_id : Option String) (source : EventSource) (kind : String)
      (details : Json) (event_id : String) (now : ℕ)
      → Keeps P (append_event_body run_id attempt_id source kind details event_id now)
  pub on_insert_audit : (audit : AuditRecord) → Keeps P (insert_audit audit)
  pub on_insert_artifact : (artifact : ArtifactRecord) → Keeps P (insert_artifact artifact)
