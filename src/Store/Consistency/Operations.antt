-- ===== src/Store/Consistency/Operations.antt =====
-- Every operation keeps the well-formedness, and so does every history of operations.
use dsh_base_agent.Prelude.{
  ℕ, String, string_eq, Bool, true, false, refl, Option, none, some, List, [], ◌∷◌,
}
use dsh_base_agent.Models.{EventSource, Json}
use dsh_base_agent.Sql.Keys.{IsKeyed-update}
use dsh_base_agent.Sql.Rows.{All-update}
use dsh_base_agent.Store.Tables.{Db, run_key}
use dsh_base_agent.Store.Connection.{
  SqliteControlStore, is_unnormalized, normalize_succeeded_run_phases,
}
use dsh_base_agent.Store.Connection
use dsh_base_agent.Store.Logs.{append_event_body}
use dsh_base_agent.Store.Operation.{Operation, perform, perform_all, new_store}
use dsh_base_agent.Store.Keeps.{Keeps, keeps_rules, Holds}
use dsh_base_agent.Store.Preservation.{KeptByStatements}
use dsh_base_agent.Store.Preservation.Calls.{Anything, Holds-perform}
use dsh_base_agent.Store.Consistency.{IsConsistent, AgreesRun, empty-IsConsistent}
use dsh_base_agent.Store.Consistency.Rules.{
  Keeps-update_run, Keeps-update_run_sync, Keeps-insert_run, set_runs, update-Extends,
}
use dsh_base_agent.Store.Consistency.Records.{
  Keeps-update_attempt_sync, Keeps-insert_attempt, Keeps-update_plan, Keeps-insert_plan,
}
use dsh_base_agent.Store.Consistency.Others.{
  Keeps-update_action, Keeps-insert_action, Keeps-insert_conversation, Keeps-update_conversation,
  Keeps-advance_conversation,
}
use dsh_base_agent.Store.Consistency.Appends.{
  Keeps-insert_idempotency_of, Keeps-insert_audit, Keeps-insert_event, Keeps-insert_artifact,
}

Keeps-append_event :
    (run_id : String) (attempt_id : Option String) (source : EventSource) (kind : String)
    (details : Json) (event_id : String) (now : ℕ)
    → Keeps IsConsistent (append_event_body run_id attempt_id source kind details event_id now)
unfolding append_event_body
Keeps-append_event run_id attempt_id source kind details event_id now =
    search (keeps_rules, Keeps-insert_event) depth 12

IsConsistent-kept : KeptByStatements Anything IsConsistent
IsConsistent-kept = record {
  on_update_run = λ run e _ _. Keeps-update_run run e;
  on_update_run_sync = λ run e _ _. Keeps-update_run_sync run e;
  on_insert_run = Keeps-insert_run;
  on_update_attempt = λ attempt e _. Keeps-update_attempt_sync attempt e;
  on_insert_attempt = Keeps-insert_attempt;
  on_update_plan = λ plan e _. Keeps-update_plan plan e;
  on_insert_plan = Keeps-insert_plan;
  on_update_action = λ action e status _. Keeps-update_action action e status;
  on_insert_action = Keeps-insert_action;
  on_insert_conversation = Keeps-insert_conversation;
  on_update_conversation = λ c e _. Keeps-update_conversation c e;
  on_advance_conversation = λ c e _. Keeps-advance_conversation c e;
  on_insert_idempotency = Keeps-insert_idempotency_of;
  on_append_event = Keeps-append_event;
  on_insert_audit = Keeps-insert_audit;
  on_insert_artifact = Keeps-insert_artifact;
}

-- `_normalize_succeeded_run_phases` changes the phase in payloads alone.
normalize-IsConsistent :
    (db : Db) → IsConsistent db → IsConsistent (normalize_succeeded_run_phases db)
unfolding normalize_succeeded_run_phases
normalize-IsConsistent db h =
    set_runs db _ h
      (record {
        keyed = IsKeyed-update run_key is_unnormalized _ (λ row. refl) db.runs h.runs.keyed;
        agree =
            All-update AgreesRun is_unnormalized _
              (λ row a _. record { id = a.id; status = a.status; revision = a.revision }) db.runs
              h.runs.agree;
      })
      (update-Extends is_unnormalized _ db.runs (λ row. refl))

-- From `initialize` on a closed store, and from every other call.
initialize_case :
    (connected : Bool) (pending : Option Db) (disk : Db)
    → Holds IsConsistent (record { disk = disk; connected = connected; pending = pending })
    → Holds IsConsistent
        (perform Operation.initialize
          (record { disk = disk; connected = connected; pending = pending })).1
unfolding perform Connection.initialize
initialize_case true pending disk h = h
initialize_case false none disk h = record {
  on_disk = normalize-IsConsistent disk h.on_disk;
  in_working = normalize-IsConsistent disk h.on_disk;
}
initialize_case false (some db) disk h = record {
  on_disk = normalize-IsConsistent disk h.on_disk;
  in_working = h.in_working;
}

pub perform-IsConsistent :
    (op : Operation) (s : SqliteControlStore)
    → Holds IsConsistent s
    → Holds IsConsistent (perform op s).1
perform-IsConsistent Operation.initialize s h = initialize_case s.connected s.pending s.disk h
perform-IsConsistent op s h = Holds-perform IsConsistent-kept op tt s h

pub perform_all-IsConsistent :
    (ops : List Operation) (s : SqliteControlStore)
    → Holds IsConsistent s
    → Holds IsConsistent (perform_all ops s)
unfolding perform_all
perform_all-IsConsistent [] s h = h
perform_all-IsConsistent (op ∷ ops) s h =
    perform_all-IsConsistent ops (perform op s).1 (perform-IsConsistent op s h)

-- Whatever calls are made of a store over a new database file, and whichever of them raise, the
-- committed database is well formed: the identifiers of conversations, Runs, attempts, plans and
-- required actions are unique; the identifier, the status and the revision that each of their rows
-- has in columns are those of its payload, and for a conversation the next sequence too; each
-- attempt, plan, action, event and artifact belongs to a stored Run; a Run has at most one plan,
-- and at most one of its required actions is pending.
pub history-IsConsistent : (ops : List Operation) → IsConsistent (perform_all ops new_store).disk
history-IsConsistent ops =
    (perform_all-IsConsistent ops new_store
      (record { on_disk = empty-IsConsistent; in_working = empty-IsConsistent })).on_disk
