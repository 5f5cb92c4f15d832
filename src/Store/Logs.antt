-- ===== src/Store/Logs.antt =====
-- The append-only tables of `SqliteControlStore`: events, audit records and artifacts.
use Prim.Native.Nat.{max}
use dsh_base_agent.Prelude.{
  ℕ, ◌+◌, String, Bool, not, ◌&&◌, ◌||◌, Option, some, List, [], ◌∷◌, ok, err, store_error,
  requires_postgres, run_not_found, integrity_error, ◌==◌, string_eq, nat_eq, option_eq, ltb,
  if◌then◌else◌, raise_if, value_error,
}
use dsh_base_agent.Prelude.Lists.{any}
use dsh_base_agent.Prelude.Text.{is_empty}
use dsh_base_agent.Models.{
  RunEvent, EventSource, Json, AuditRecord, ArtifactRecord, WorkLease, RunRecord, RunAttempt,
}
use dsh_base_agent.Sql.{fetch_all, insert, has_key, sort_by}
use dsh_base_agent.Store.Tables.{run_key, attempt_key}
use dsh_base_agent.Store.Connection.{
  Exec, Tx, ◌>>=◌, ◌>>◌, pure, lift, gets, transaction, unguarded, query,
}

-- `SELECT COALESCE(MAX(sequence), 0) FROM run_events WHERE run_id = ?`
abbrev pub max_sequence : String → List RunEvent → ℕ
max_sequence run_id [] = 0
max_sequence run_id (e ∷ es) =
    let rest = max_sequence run_id es in if e.run_id == run_id then max e.sequence rest else rest

unfoldable pub insert_event : RunEvent → Tx (Unit {0})
insert_event event db =
    if any (λ e. e.event_id == event.event_id) db.run_events
      || any (λ e. e.run_id == event.run_id && e.sequence == event.sequence) db.run_events
      || not (any (has_key run_key event.run_id) db.runs)
    then err (integrity_error, db)
    else ok (tt, record db { run_events = insert event db.run_events })

-- `event_id` and `created_at` are the defaults that pydantic fills in.
abbrev pub new_event :
    String → Option String → EventSource → String → Json → String → ℕ → ℕ → RunEvent
new_event run_id attempt_id source kind details event_id now sequence = record {
  event_id = event_id;
  run_id = run_id;
  attempt_id = attempt_id;
  sequence = sequence;
  source = source;
  kind = kind;
  details = details;
  created_at = now;
}

-- pydantic refuses an event of an empty kind with a `ValueError`.
unfoldable pub append_event_body :
    String → Option String → EventSource → String → Json → String → ℕ → Tx RunEvent
unfolding insert_event
append_event_body run_id attempt_id source kind details event_id now = do
  exists ← gets (λ db. any (has_key run_key run_id) db.runs)
  lift (raise_if (not exists) run_not_found)
  last ← gets (λ db. max_sequence run_id db.run_events)
  lift (raise_if (is_empty kind) value_error)
  let event = new_event run_id attempt_id source kind details event_id now (last + 1)
  insert_event event
  pure event

unfoldable pub append_event :
    String → Option String → EventSource → String → Json → String → ℕ → Exec RunEvent
append_event run_id attempt_id source kind details event_id now =
    transaction (append_event_body run_id attempt_id source kind details event_id now)

abbrev pub events_after : String → ℕ → List RunEvent → List RunEvent
events_after run_id after = fetch_all (λ e. e.run_id == run_id && ltb after e.sequence)

unfoldable pub list_events : String → ℕ → Exec (List RunEvent)
list_events run_id after =
    query (λ db. ok (sort_by (λ e. e.sequence) (events_after run_id after db.run_events)))

unfoldable pub insert_audit : AuditRecord → Tx (Unit {0})
insert_audit audit db =
    if any (λ a. a.audit_id == audit.audit_id) db.audit_log
    then err (integrity_error, db)
    else ok (tt, record db { audit_log = insert audit db.audit_log })

unfoldable pub append_audit : AuditRecord → Exec (Unit {0})
unfolding insert_audit
append_audit audit = unguarded (insert_audit audit)

unfoldable pub list_audit : String → Exec (List AuditRecord)
list_audit run_id = query (λ db. ok (fetch_all (λ a. a.run_id == some run_id) db.audit_log))

unfoldable pub insert_artifact : ArtifactRecord → Tx (Unit {0})
insert_artifact artifact db =
    if any (λ a. a.artifact_id == artifact.artifact_id) db.artifacts
      || not (any (has_key run_key artifact.run_id) db.runs)
      || not (any (has_key attempt_key artifact.attempt_id) db.run_attempts)
    then err (integrity_error, db)
    else ok (tt, record db { artifacts = insert artifact db.artifacts })

unfoldable pub add_artifact : ArtifactRecord → Exec (Unit {0})
unfolding insert_artifact
add_artifact artifact = unguarded (insert_artifact artifact)

unfoldable pub list_artifacts : String → Exec (List ArtifactRecord)
list_artifacts run_id = query (λ db. ok (fetch_all (λ a. a.run_id == run_id) db.artifacts))

-- The Worker operations raise before they touch the connection.
unfoldable pub claim_work : String → ℕ → Exec (Option WorkLease)
claim_work worker_id lease_seconds s = (err (store_error requires_postgres), s)

unfoldable pub renew_work_lease : WorkLease → ℕ → Exec (Option WorkLease)
renew_work_lease lease lease_seconds s = (err (store_error requires_postgres), s)

unfoldable pub release_work_lease : WorkLease → Exec Bool
release_work_lease lease s = (err (store_error requires_postgres), s)

unfoldable pub interrupt_expired_attempts : ℕ → Exec (List (RunRecord × RunAttempt))
interrupt_expired_attempts limit s = (err (store_error requires_postgres), s)
