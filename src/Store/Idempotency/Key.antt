-- ===== src/Store/Idempotency/Key.antt =====
-- A taken idempotency key keeps its row through every call.
use dsh_base_agent.Prelude.{ℕ, ◌≡◌, refl, ◌∙◌, String, string_eq, nat_eq, Option, none, some, List}
use dsh_base_agent.Models.{RunRecord, EventSource, Json}
use dsh_base_agent.Sql.{fetch_one}
use dsh_base_agent.Sql.Rows.{fetch_one-insert}
use dsh_base_agent.Store.Tables.{IdempotencyRow}
use dsh_base_agent.Store.Conversations.{is_prior, insert_idempotency_of}
use dsh_base_agent.Store.Logs.{append_event_body}
use dsh_base_agent.Store.Keeps.{Keeps, keeps_rules, OnOk-insert}
use dsh_base_agent.Store.Preservation.{KeptByStatements}
use dsh_base_agent.Store.Preservation.Calls.{Anything}
use dsh_base_agent.Store.Frames.Idempotency.{
  OnIdempotency, update_run-OnIdempotency, update_run_sync-OnIdempotency, insert_run-OnIdempotency,
  insert_event-OnIdempotency, update_attempt_sync-OnIdempotency, insert_attempt-OnIdempotency,
  update_plan-OnIdempotency, insert_plan-OnIdempotency, update_action-OnIdempotency,
  insert_action-OnIdempotency, insert_conversation-OnIdempotency, update_conversation-OnIdempotency,
  advance_conversation-OnIdempotency, insert_audit-OnIdempotency, insert_artifact-OnIdempotency,
}

module _ (tenant_id key : String) (row : IdempotencyRow) where
  -- The key is taken by `row`.
  abbrev pub Taken : List IdempotencyRow → Type 0
  Taken rows = fetch_one (is_prior tenant_id key) rows ≡ some row

  insert_idempotency_of-Taken :
      (run : RunRecord) (k : Option String) (digest : String)
      → Keeps (OnIdempotency Taken) (insert_idempotency_of run k digest)
  insert_idempotency_of-Taken run none digest = record { at = λ db h. h }
  insert_idempotency_of-Taken run (some k) digest = record {
    at = λ db h. OnOk-insert _ (OnIdempotency Taken) _ _ (λ _. record {
      rows = fetch_one-insert (is_prior tenant_id key) _ db.run_idempotency ∙ rw (h.rows) refl;
    });
  }

  append_event-Taken :
      (run_id : String) (attempt_id : Option String) (source : EventSource) (kind : String)
      (details : Json) (event_id : String) (now : ℕ)
      → Keeps
          (OnIdempotency Taken)
          (append_event_body run_id attempt_id source kind details event_id now)
  unfolding append_event_body
  append_event-Taken run_id attempt_id source kind details event_id now =
      search (keeps_rules, insert_event-OnIdempotency Taken) depth 12

  pub Taken-kept : KeptByStatements Anything (OnIdempotency Taken)
  Taken-kept = record {
    on_update_run = λ run e _ _. update_run-OnIdempotency Taken run e;
    on_update_run_sync = λ run e _ _. update_run_sync-OnIdempotency Taken run e;
    on_insert_run = insert_run-OnIdempotency Taken;
    on_update_attempt = λ attempt e _. update_attempt_sync-OnIdempotency Taken attempt e;
    on_insert_attempt = insert_attempt-OnIdempotency Taken;
    on_update_plan = λ plan e _. update_plan-OnIdempotency Taken plan e;
    on_insert_plan = insert_plan-OnIdempotency Taken;
    on_update_action = λ action e status _. update_action-OnIdempotency Taken action e status;
    on_insert_action = insert_action-OnIdempotency Taken;
    on_insert_conversation = insert_conversation-OnIdempotency Taken;
    on_update_conversation = λ c e _. update_conversation-OnIdempotency Taken c e;
    on_advance_conversation = λ c e _. advance_conversation-OnIdempotency Taken c e;
    on_insert_idempotency = insert_idempotency_of-Taken;
    on_append_event = append_event-Taken;
    on_insert_audit = insert_audit-OnIdempotency Taken;
    on_insert_artifact = insert_artifact-OnIdempotency Taken;
  }
