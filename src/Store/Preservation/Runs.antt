-- ===== src/Store/Preservation/Runs.antt =====
-- For an invariant of the table of Runs alone, the statements on that table are all there is to
-- check.
use dsh_base_agent.Prelude.{ℕ, ◌+◌, ◌≡◌, String, Option, List}
use dsh_base_agent.Models.{RunRecord, Json, EventSource}
use dsh_base_agent.Store.Tables.{RunRow}
use dsh_base_agent.Store.Statements.{update_run, update_run_sync, insert_run}
use dsh_base_agent.Store.Logs.{append_event_body}
use dsh_base_agent.Store.Keeps.{Keeps, keeps_rules}
use dsh_base_agent.Store.Frames.Runs.{
  OnRuns, insert_event-OnRuns, update_attempt_sync-OnRuns, insert_attempt-OnRuns,
  update_plan-OnRuns, insert_plan-OnRuns, update_action-OnRuns, insert_action-OnRuns,
  insert_conversation-OnRuns, update_conversation-OnRuns, advance_conversation-OnRuns,
  insert_idempotency_of-OnRuns, insert_audit-OnRuns, insert_artifact-OnRuns,
}
use dsh_base_agent.Store.Preservation.{KeptByStatements}

module _ (Q : List RunRow → Type 0) where
  append_event-OnRuns :
      (run_id : String) (attempt_id : Option String) (source : EventSource) (kind : String)
      (details : Json) (event_id : String) (now : ℕ)
      → Keeps (OnRuns Q) (append_event_body run_id attempt_id source kind details event_id now)
  unfolding append_event_body
  append_event-OnRuns run_id attempt_id source kind details event_id now =
      search (keeps_rules, insert_event-OnRuns Q) depth 12

  pub OnRuns-kept :
      (Permit : RunRecord → ℕ → Type 0)
      → ((run : RunRecord) (e : ℕ)
          → run.revision ≡ e + 1
          → Permit run e
          → Keeps (OnRuns Q) (update_run run e))
      → ((run : RunRecord) (e : ℕ)
          → run.revision ≡ e + 1
          → Permit run e
          → Keeps (OnRuns Q) (update_run_sync run e))
      → ((run : RunRecord) → Keeps (OnRuns Q) (insert_run run))
      → KeptByStatements Permit (OnRuns Q)
  OnRuns-kept Permit on_update on_update_sync on_insert = record {
    on_update_run = on_update;
    on_update_run_sync = on_update_sync;
    on_insert_run = on_insert;
    on_update_attempt = λ attempt e _. update_attempt_sync-OnRuns Q attempt e;
    on_insert_attempt = insert_attempt-OnRuns Q;
    on_update_plan = λ plan e _. update_plan-OnRuns Q plan e;
    on_insert_plan = insert_plan-OnRuns Q;
    on_update_action = λ action e status _. update_action-OnRuns Q action e status;
    on_insert_action = insert_action-OnRuns Q;
    on_insert_conversation = insert_conversation-OnRuns Q;
    on_update_conversation = λ c e _. update_conversation-OnRuns Q c e;
    on_advance_conversation = λ c e _. advance_conversation-OnRuns Q c e;
    on_insert_idempotency = insert_idempotency_of-OnRuns Q;
    on_append_event = append_event-OnRuns;
    on_insert_audit = insert_audit-OnRuns Q;
    on_insert_artifact = insert_artifact-OnRuns Q;
  }
