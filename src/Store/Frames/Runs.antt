-- ===== src/Store/Frames/Runs.antt =====
-- Invariants of the table of Runs alone: the statements on the other tables keep them.
use dsh_base_agent.Prelude.{ℕ, String, string_eq, Option, some, none, List}
use dsh_base_agent.Models.{
  ConversationRecord, RunRecord, RunAttempt, PlanRecord, RequiredActionRecord, RequiredActionStatus,
  RunEvent, AuditRecord, ArtifactRecord,
}
use dsh_base_agent.Store.Tables.{RunRow, Db}
use dsh_base_agent.Store.Statements.{
  update_attempt_sync, insert_attempt, update_plan, insert_plan, update_action, insert_action,
  one_pending, set_action,
}
use dsh_base_agent.Store.Conversations.{
  insert_conversation, update_conversation, advance_conversation, insert_idempotency_of,
}
use dsh_base_agent.Store.Logs.{insert_event, insert_audit, insert_artifact}
use dsh_base_agent.Store.Keeps.{OnOk-one_row, OnOk-insert, OnOk-if, Keeps}

pub record OnRuns (Q : List RunRow → Type 0) (db : Db) : Type 0 where
  pub rows : Q db.runs

module _ (Q : List RunRow → Type 0) where
  pub update_attempt_sync-OnRuns :
      (attempt : RunAttempt) (expected : ℕ)
      → Keeps (OnRuns Q) (update_attempt_sync attempt expected)
  unfolding update_attempt_sync
  update_attempt_sync-OnRuns attempt expected = record {
    at = λ db h. OnOk-one_row (OnRuns Q) _ _ (record { rows = h.rows });
  }

  pub insert_attempt-OnRuns : (attempt : RunAttempt) → Keeps (OnRuns Q) (insert_attempt attempt)
  unfolding insert_attempt
  insert_attempt-OnRuns attempt = record {
    at = λ db h. OnOk-insert _ (OnRuns Q) _ _ (λ _. record { rows = h.rows });
  }

  pub update_plan-OnRuns :
      (plan : PlanRecord) (expected : ℕ) → Keeps (OnRuns Q) (update_plan plan expected)
  unfolding update_plan
  update_plan-OnRuns plan expected = record {
    at = λ db h. OnOk-one_row (OnRuns Q) _ _ (record { rows = h.rows });
  }

  pub insert_plan-OnRuns : (plan : PlanRecord) → Keeps (OnRuns Q) (insert_plan plan)
  unfolding insert_plan
  insert_plan-OnRuns plan = record {
    at = λ db h. OnOk-insert _ (OnRuns Q) _ _ (λ _. record { rows = h.rows });
  }

  pub update_action-OnRuns :
      (action : RequiredActionRecord) (expected : ℕ) (status : RequiredActionStatus)
      → Keeps (OnRuns Q) (update_action action expected status)
  unfolding update_action
  update_action-OnRuns action expected status = record {
    at = λ db h.
        OnOk-if _ (OnRuns Q) (one_pending (set_action action expected status db.required_actions)) _
          (λ _. OnOk-one_row (OnRuns Q) _ _ (record { rows = h.rows }));
  }

  pub insert_action-OnRuns :
      (action : RequiredActionRecord) → Keeps (OnRuns Q) (insert_action action)
  unfolding insert_action
  insert_action-OnRuns action = record {
    at = λ db h. OnOk-insert _ (OnRuns Q) _ _ (λ _. record { rows = h.rows });
  }

  pub insert_conversation-OnRuns :
      (c : ConversationRecord) → Keeps (OnRuns Q) (insert_conversation c)
  unfolding insert_conversation
  insert_conversation-OnRuns c = record {
    at = λ db h. OnOk-insert _ (OnRuns Q) _ _ (λ _. record { rows = h.rows });
  }

  pub update_conversation-OnRuns :
      (c : ConversationRecord) (expected : ℕ) → Keeps (OnRuns Q) (update_conversation c expected)
  unfolding update_conversation
  update_conversation-OnRuns c expected = record {
    at = λ db h. OnOk-one_row (OnRuns Q) _ _ (record { rows = h.rows });
  }

  pub advance_conversation-OnRuns :
      (c : ConversationRecord) (expected : ℕ) → Keeps (OnRuns Q) (advance_conversation c expected)
  unfolding advance_conversation
  advance_conversation-OnRuns c expected = record { at = λ db h. record { rows = h.rows } }

  pub insert_event-OnRuns : (event : RunEvent) → Keeps (OnRuns Q) (insert_event event)
  unfolding insert_event
  insert_event-OnRuns event = record {
    at = λ db h. OnOk-insert _ (OnRuns Q) _ _ (λ _. record { rows = h.rows });
  }

  pub insert_audit-OnRuns : (audit : AuditRecord) → Keeps (OnRuns Q) (insert_audit audit)
  unfolding insert_audit
  insert_audit-OnRuns audit = record {
    at = λ db h. OnOk-insert _ (OnRuns Q) _ _ (λ _. record { rows = h.rows });
  }

  pub insert_artifact-OnRuns :
      (artifact : ArtifactRecord) → Keeps (OnRuns Q) (insert_artifact artifact)
  unfolding insert_artifact
  insert_artifact-OnRuns artifact = record {
    at = λ db h. OnOk-insert _ (OnRuns Q) _ _ (λ _. record { rows = h.rows });
  }

  pub insert_idempotency_of-OnRuns :
      (run : RunRecord) (key : Option String) (digest : String)
      → Keeps (OnRuns Q) (insert_idempotency_of run key digest)
  insert_idempotency_of-OnRuns run none digest = record { at = λ db h. h }
  insert_idempotency_of-OnRuns run (some key) digest = record {
    at = λ db h. OnOk-insert _ (OnRuns Q) _ _ (λ _. record { rows = h.rows });
  }

pub ruleset runs_frame = (
  update_attempt_sync-OnRuns, insert_attempt-OnRuns, update_plan-OnRuns, insert_plan-OnRuns,
  update_action-OnRuns, insert_action-OnRuns, insert_conversation-OnRuns,
  update_conversation-OnRuns, advance_conversation-OnRuns, insert_event-OnRuns, insert_audit-OnRuns,
  insert_artifact-OnRuns, insert_idempotency_of-OnRuns,
)
