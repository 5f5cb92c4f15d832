-- ===== src/Store/Frames/Events.antt =====
-- Invariants of the table of events alone: the statements on the other tables keep them.
use dsh_base_agent.Prelude.{ℕ, String, string_eq, Option, some, none, List}
use dsh_base_agent.Models.{
  ConversationRecord, RunRecord, RunAttempt, PlanRecord, RequiredActionRecord, RequiredActionStatus,
  RunEvent, AuditRecord, ArtifactRecord,
}
use dsh_base_agent.Store.Tables.{Db}
use dsh_base_agent.Store.Statements.{
  update_run, update_run_sync, insert_run, update_attempt_sync, insert_attempt, update_plan,
  insert_plan, update_action, insert_action, one_pending, set_action,
}
use dsh_base_agent.Store.Conversations.{
  insert_conversation, update_conversation, advance_conversation, insert_idempotency_of,
}
use dsh_base_agent.Store.Logs.{insert_audit, insert_artifact}
use dsh_base_agent.Store.Keeps.{OnOk-one_row, OnOk-insert, OnOk-if, Keeps}

pub record OnEvents (Q : List RunEvent → Type 0) (db : Db) : Type 0 where
  pub rows : Q db.run_events

module _ (Q : List RunEvent → Type 0) where
  pub update_run-OnEvents :
      (run : RunRecord) (expected : ℕ) → Keeps (OnEvents Q) (update_run run expected)
  unfolding update_run
  update_run-OnEvents run expected = record {
    at = λ db h. OnOk-one_row (OnEvents Q) _ _ (record { rows = h.rows });
  }

  pub update_run_sync-OnEvents :
      (run : RunRecord) (expected : ℕ) → Keeps (OnEvents Q) (update_run_sync run expected)
  unfolding update_run_sync
  update_run_sync-OnEvents run expected = record {
    at = λ db h. OnOk-one_row (OnEvents Q) _ _ (record { rows = h.rows });
  }

  pub insert_run-OnEvents : (run : RunRecord) → Keeps (OnEvents Q) (insert_run run)
  unfolding insert_run
  insert_run-OnEvents run = record {
    at = λ db h. OnOk-insert _ (OnEvents Q) _ _ (λ _. record { rows = h.rows });
  }

  pub update_attempt_sync-OnEvents :
      (attempt : RunAttempt) (expected : ℕ)
      → Keeps (OnEvents Q) (update_attempt_sync attempt expected)
  unfolding update_attempt_sync
  update_attempt_sync-OnEvents attempt expected = record {
    at = λ db h. OnOk-one_row (OnEvents Q) _ _ (record { rows = h.rows });
  }

  pub insert_attempt-OnEvents : (attempt : RunAttempt) → Keeps (OnEvents Q) (insert_attempt attempt)
  unfolding insert_attempt
  insert_attempt-OnEvents attempt = record {
    at = λ db h. OnOk-insert _ (OnEvents Q) _ _ (λ _. record { rows = h.rows });
  }

  pub update_plan-OnEvents :
      (plan : PlanRecord) (expected : ℕ) → Keeps (OnEvents Q) (update_plan plan expected)
  unfolding update_plan
  update_plan-OnEvents plan expected = record {
    at = λ db h. OnOk-one_row (OnEvents Q) _ _ (record { rows = h.rows });
  }

  pub insert_plan-OnEvents : (plan : PlanRecord) → Keeps (OnEvents Q) (insert_plan plan)
  unfolding insert_plan
  insert_plan-OnEvents plan = record {
    at = λ db h. OnOk-insert _ (OnEvents Q) _ _ (λ _. record { rows = h.rows });
  }

  pub update_action-OnEvents :
      (action : RequiredActionRecord) (expected : ℕ) (status : RequiredActionStatus)
      → Keeps (OnEvents Q) (update_action action expected status)
  unfolding update_action
  update_action-OnEvents action expected status = record {
    at = λ db h.
        OnOk-if _ (OnEvents Q) (one_pending (set_action action expected status db.required_actions))
          _ (λ _. OnOk-one_row (OnEvents Q) _ _ (record { rows = h.rows }));
  }

  pub insert_action-OnEvents :
      (action : RequiredActionRecord) → Keeps (OnEvents Q) (insert_action action)
  unfolding insert_action
  insert_action-OnEvents action = record {
    at = λ db h. OnOk-insert _ (OnEvents Q) _ _ (λ _. record { rows = h.rows });
  }

  pub insert_conversation-OnEvents :
      (c : ConversationRecord) → Keeps (OnEvents Q) (insert_conversation c)
  unfolding insert_conversation
  insert_conversation-OnEvents c = record {
    at = λ db h. OnOk-insert _ (OnEvents Q) _ _ (λ _. record { rows = h.rows });
  }

  pub update_conversation-OnEvents :
      (c : ConversationRecord) (expected : ℕ) → Keeps (OnEvents Q) (update_conversation c expected)
  unfolding update_conversation
  update_conversation-OnEvents c expected = record {
    at = λ db h. OnOk-one_row (OnEvents Q) _ _ (record { rows = h.rows });
  }

  pub advance_conversation-OnEvents :
      (c : ConversationRecord) (expected : ℕ) → Keeps (OnEvents Q) (advance_conversation c expected)
  unfolding advance_conversation
  advance_conversation-OnEvents c expected = record { at = λ db h. record { rows = h.rows } }

  pub insert_audit-OnEvents : (audit : AuditRecord) → Keeps (OnEvents Q) (insert_audit audit)
  unfolding insert_audit
  insert_audit-OnEvents audit = record {
    at = λ db h. OnOk-insert _ (OnEvents Q) _ _ (λ _. record { rows = h.rows });
  }

  pub insert_artifact-OnEvents :
      (artifact : ArtifactRecord) → Keeps (OnEvents Q) (insert_artifact artifact)
  unfolding insert_artifact
  insert_artifact-OnEvents artifact = record {
    at = λ db h. OnOk-insert _ (OnEvents Q) _ _ (λ _. record { rows = h.rows });
  }

  pub insert_idempotency_of-OnEvents :
      (run : RunRecord) (key : Option String) (digest : String)
      → Keeps (OnEvents Q) (insert_idempotency_of run key digest)
  insert_idempotency_of-OnEvents run none digest = record { at = λ db h. h }
  insert_idempotency_of-OnEvents run (some key) digest = record {
    at = λ db h. OnOk-insert _ (OnEvents Q) _ _ (λ _. record { rows = h.rows });
  }

pub ruleset events_frame = (
  update_run-OnEvents, update_run_sync-OnEvents, insert_run-OnEvents, update_attempt_sync-OnEvents,
  insert_attempt-OnEvents, update_plan-OnEvents, insert_plan-OnEvents, update_action-OnEvents,
  insert_action-OnEvents, insert_conversation-OnEvents, update_conversation-OnEvents,
  advance_conversation-OnEvents, insert_audit-OnEvents, insert_artifact-OnEvents,
  insert_idempotency_of-OnEvents,
)
