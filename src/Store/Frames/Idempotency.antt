-- ===== src/Store/Frames/Idempotency.antt =====
-- Invariants of the table of idempotency keys alone: the statements on the other tables keep them.
use dsh_base_agent.Prelude.{ℕ, string_eq, List}
use dsh_base_agent.Models.{
  ConversationRecord, RunRecord, RunAttempt, PlanRecord, RequiredActionRecord, RequiredActionStatus,
  RunEvent, AuditRecord, ArtifactRecord,
}
use dsh_base_agent.Store.Tables.{IdempotencyRow, Db}
use dsh_base_agent.Store.Statements.{
  update_run, update_run_sync, insert_run, update_attempt_sync, insert_attempt, update_plan,
  insert_plan, update_action, insert_action, one_pending, set_action,
}
use dsh_base_agent.Store.Conversations.{
  insert_conversation, update_conversation, advance_conversation,
}
use dsh_base_agent.Store.Logs.{insert_event, insert_audit, insert_artifact}
use dsh_base_agent.Store.Keeps.{OnOk-one_row, OnOk-insert, OnOk-if, Keeps}

pub record OnIdempotency (Q : List IdempotencyRow → Type 0) (db : Db) : Type 0 where
  pub rows : Q db.run_idempotency

module _ (Q : List IdempotencyRow → Type 0) where
  pub update_run-OnIdempotency :
      (run : RunRecord) (expected : ℕ) → Keeps (OnIdempotency Q) (update_run run expected)
  unfolding update_run
  update_run-OnIdempotency run expected = record {
    at = λ db h. OnOk-one_row (OnIdempotency Q) _ _ (record { rows = h.rows });
  }

  pub update_run_sync-OnIdempotency :
      (run : RunRecord) (expected : ℕ) → Keeps (OnIdempotency Q) (update_run_sync run expected)
  unfolding update_run_sync
  update_run_sync-OnIdempotency run expected = record {
    at = λ db h. OnOk-one_row (OnIdempotency Q) _ _ (record { rows = h.rows });
  }

  pub insert_run-OnIdempotency : (run : RunRecord) → Keeps (OnIdempotency Q) (insert_run run)
  unfolding insert_run
  insert_run-OnIdempotency run = record {
    at = λ db h. OnOk-insert _ (OnIdempotency Q) _ _ (λ _. record { rows = h.rows });
  }

  pub update_attempt_sync-OnIdempotency :
      (attempt : RunAttempt) (expected : ℕ)
      → Keeps (OnIdempotency Q) (update_attempt_sync attempt expected)
  unfolding update_attempt_sync
  update_attempt_sync-OnIdempotency attempt expected = record {
    at = λ db h. OnOk-one_row (OnIdempotency Q) _ _ (record { rows = h.rows });
  }

  pub insert_attempt-OnIdempotency :
      (attempt : RunAttempt) → Keeps (OnIdempotency Q) (insert_attempt attempt)
  unfolding insert_attempt
  insert_attempt-OnIdempotency attempt = record {
    at = λ db h. OnOk-insert _ (OnIdempotency Q) _ _ (λ _. record { rows = h.rows });
  }

  pub update_plan-OnIdempotency :
      (plan : PlanRecord) (expected : ℕ) → Keeps (OnIdempotency Q) (update_plan plan expected)
  unfolding update_plan
  update_plan-OnIdempotency plan expected = record {
    at = λ db h. OnOk-one_row (OnIdempotency Q) _ _ (record { rows = h.rows });
  }

  pub insert_plan-OnIdempotency : (plan : PlanRecord) → Keeps (OnIdempotency Q) (insert_plan plan)
  unfolding insert_plan
  insert_plan-OnIdempotency plan = record {
    at = λ db h. OnOk-insert _ (OnIdempotency Q) _ _ (λ _. record { rows = h.rows });
  }

  pub update_action-OnIdempotency :
      (action : RequiredActionRecord) (expected : ℕ) (status : RequiredActionStatus)
      → Keeps (OnIdempotency Q) (update_action action expected status)
  unfolding update_action
  update_action-OnIdempotency action expected status = record {
    at = λ db h.
        OnOk-if _ (OnIdempotency Q)
          (one_pending (set_action action expected status db.required_actions)) _
          (λ _. OnOk-one_row (OnIdempotency Q) _ _ (record { rows = h.rows }));
  }

  pub insert_action-OnIdempotency :
      (action : RequiredActionRecord) → Keeps (OnIdempotency Q) (insert_action action)
  unfolding insert_action
  insert_action-OnIdempotency action = record {
    at = λ db h. OnOk-insert _ (OnIdempotency Q) _ _ (λ _. record { rows = h.rows });
  }

  pub insert_conversation-OnIdempotency :
      (c : ConversationRecord) → Keeps (OnIdempotency Q) (insert_conversation c)
  unfolding insert_conversation
  insert_conversation-OnIdempotency c = record {
    at = λ db h. OnOk-insert _ (OnIdempotency Q) _ _ (λ _. record { rows = h.rows });
  }

  pub update_conversation-OnIdempotency :
      (c : ConversationRecord) (expected : ℕ)
      → Keeps (OnIdempotency Q) (update_conversation c expected)
  unfolding update_conversation
  update_conversation-OnIdempotency c expected = record {
    at = λ db h. OnOk-one_row (OnIdempotency Q) _ _ (record { rows = h.rows });
  }

  pub advance_conversation-OnIdempotency :
      (c : ConversationRecord) (expected : ℕ)
      → Keeps (OnIdempotency Q) (advance_conversation c expected)
  unfolding advance_conversation
  advance_conversation-OnIdempotency c expected = record { at = λ db h. record { rows = h.rows } }

  pub insert_event-OnIdempotency : (event : RunEvent) → Keeps (OnIdempotency Q) (insert_event event)
  unfolding insert_event
  insert_event-OnIdempotency event = record {
    at = λ db h. OnOk-insert _ (OnIdempotency Q) _ _ (λ _. record { rows = h.rows });
  }

  pub insert_audit-OnIdempotency :
      (audit : AuditRecord) → Keeps (OnIdempotency Q) (insert_audit audit)
  unfolding insert_audit
  insert_audit-OnIdempotency audit = record {
    at = λ db h. OnOk-insert _ (OnIdempotency Q) _ _ (λ _. record { rows = h.rows });
  }

  pub insert_artifact-OnIdempotency :
      (artifact : ArtifactRecord) → Keeps (OnIdempotency Q) (insert_artifact artifact)
  unfolding insert_artifact
  insert_artifact-OnIdempotency artifact = record {
    at = λ db h. OnOk-insert _ (OnIdempotency Q) _ _ (λ _. record { rows = h.rows });
  }

pub ruleset idempotency_frame = (
  update_run-OnIdempotency, update_run_sync-OnIdempotency, insert_run-OnIdempotency,
  update_attempt_sync-OnIdempotency, insert_attempt-OnIdempotency, update_plan-OnIdempotency,
  insert_plan-OnIdempotency, update_action-OnIdempotency, insert_action-OnIdempotency,
  insert_conversation-OnIdempotency, update_conversation-OnIdempotency,
  advance_conversation-OnIdempotency, insert_event-OnIdempotency, insert_audit-OnIdempotency,
  insert_artifact-OnIdempotency,
)
