-- ===== src/Store/Tests.antt =====
-- The theorems on the store at concrete inputs, and runs of its operations.
use dsh_base_agent.Prelude.{
  ◌≤◌, ◌≡◌, refl, String, true, none, some, List, [], ◌∷◌, ok, err, revision_conflict,
  integrity_error, operational_error, idempotency_conflict,
}
use dsh_base_agent.Models.{RunRecord}
use dsh_base_agent.Store.Connection.{
  SqliteControlStore, ◌>>=◌, transaction, autocommit, update_one, unguarded, working,
  normalize_succeeded_run_phases,
}
use dsh_base_agent.Store.Connection
use dsh_base_agent.Store.Statements.{
  get_run_sync, insert_run, insert_attempt, update_run, update_run_sync,
}
use dsh_base_agent.Store.Runs.{create_run, create_or_replay, replace_run}
use dsh_base_agent.Store.Attempts.{begin_attempt}
use dsh_base_agent.Store.Logs.{add_artifact, insert_artifact}
use dsh_base_agent.Store.Operation.{Operation, perform, perform_all, new_store}
use dsh_base_agent.Store.Keeps.{Holds}
use dsh_base_agent.Store.Consistency.{IsConsistent, empty-IsConsistent}
use dsh_base_agent.Store.Consistency.Operations.{perform_all-IsConsistent, history-IsConsistent}
use dsh_base_agent.Store.Atomicity.{perform_atomic, create_run-add_artifact}
use dsh_base_agent.Store.Revisions.CompareAndSet.{
  view, compare_and_set, replace_run-compare_and_set,
}
use dsh_base_agent.Store.Revisions.History.{revisions_grow}
use dsh_base_agent.Store.Revisions.LostUpdate.{IsReady, replace_run-replace_run}
use dsh_base_agent.Store.Idempotency.{create_run-create_run}
use dsh_base_agent.Store.Samples.{run, running, cancelled, orphan, opened, with_run, begin}

-- what the tests compute with
abbrev program : Unit {0}
unfolding perform perform_all Connection.initialize ◌>>=◌ transaction autocommit update_one
    unguarded get_run_sync insert_run insert_attempt update_run update_run_sync create_run
    create_or_replay replace_run begin_attempt add_artifact insert_artifact
    normalize_succeeded_run_phases
program = tt

consistent : (ops : List Operation) → Holds IsConsistent (perform_all ops new_store)
consistent ops =
    perform_all-IsConsistent ops new_store
      (record { on_disk = empty-IsConsistent; in_working = empty-IsConsistent })

with_run-IsReady : IsReady with_run
unfolding program
with_run-IsReady = record {
  connected = refl;
  idle = refl;
  consistent =
      consistent (Operation.initialize ∷ Operation.create_run run (some "key") "digest" ∷ []);
}

stored_run : get_run_sync "run_1" with_run.disk ≡ ok run
unfolding program
stored_run = refl

begun : get_run_sync "run_1" (perform begin with_run).1.disk ≡ ok running
unfolding program
begun = refl

history-IsConsistent_example :
    IsConsistent
      (perform_all
        (Operation.initialize
          ∷ Operation.create_run run none "digest"
          ∷ begin
          ∷ Operation.add_artifact orphan
          ∷ begin
          ∷ [])
        new_store).disk
history-IsConsistent_example = history-IsConsistent (
    Operation.initialize
    ∷ Operation.create_run run none "digest"
    ∷ begin
    ∷ Operation.add_artifact orphan
    ∷ begin
    ∷ [])

-- a second `create_run` of the identifier
perform_atomic_example :
    ((perform (Operation.create_run run none "digest") with_run).1.disk ≡ with_run.disk)
    × (working (perform (Operation.create_run run none "digest") with_run).1 ≡ with_run.disk)
unfolding program
perform_atomic_example =
    perform_atomic (Operation.create_run run none "digest") with_run integrity_error refl refl

create_run-add_artifact_example :
    perform
      (Operation.create_run run none "digest")
      (perform (Operation.add_artifact orphan) opened).1
    ≡ (some operational_error, (perform (Operation.add_artifact orphan) opened).1)
unfolding program
create_run-add_artifact_example = create_run-add_artifact orphan opened run none "digest" refl

revisions_grow_example :
    (run' : RunRecord) × (get_run_sync "run_1" (perform_all (begin ∷ []) with_run).disk ≡ ok run')
    × (run.revision ≤ run'.revision)
    × (run.revision ≡ run'.revision → run ≡ run')
unfolding program
revisions_grow_example =
    revisions_grow (begin ∷ []) with_run "run_1" run (tt, tt) with_run-IsReady.consistent refl refl

replace_run-compare_and_set_example :
    ((replace_run cancelled 1 with_run).0 ≡ (compare_and_set cancelled 1 (view with_run.disk)).0)
    × ((id : String)
        → view (replace_run cancelled 1 with_run).1.disk id
          ≡ (compare_and_set cancelled 1 (view with_run.disk)).1 id)
unfolding program
replace_run-compare_and_set_example =
    replace_run-compare_and_set cancelled 1 with_run refl refl with_run-IsReady.consistent.on_disk

after_cancel-IsReady : IsReady (perform_all [] (replace_run cancelled 1 with_run).1)
unfolding program
after_cancel-IsReady = record {
  connected = refl;
  idle = refl;
  consistent = consistent (
      Operation.initialize
      ∷ Operation.create_run run (some "key") "digest"
      ∷ Operation.replace_run cancelled 1
      ∷ []);
}

replace_run-replace_run_example :
    (replace_run running 1 (perform_all [] (replace_run cancelled 1 with_run).1)).0
    ≡ err revision_conflict
unfolding program
replace_run-replace_run_example =
    replace_run-replace_run cancelled running 1 with_run [] with_run-IsReady refl refl refl tt
      after_cancel-IsReady

after_create-IsReady :
    IsReady (perform_all (begin ∷ []) (create_run run (some "key") "digest" opened).1)
unfolding program
after_create-IsReady = record {
  connected = refl;
  idle = refl;
  consistent =
      consistent
        (Operation.initialize ∷ Operation.create_run run (some "key") "digest" ∷ begin ∷ []);
}

opened-IsReady : IsReady opened
unfolding program
opened-IsReady = record {
  connected = refl;
  idle = refl;
  consistent = consistent (Operation.initialize ∷ []);
}

create_run-create_run_example :
    (now : RunRecord) × (get_run_sync "run_1"
        (perform_all (begin ∷ []) (create_run run (some "key") "digest" opened).1).disk
      ≡ ok now)
    × (create_run cancelled
          (some "key")
          "other"
          (perform_all (begin ∷ []) (create_run run (some "key") "digest" opened).1)
        ≡ (
          err idempotency_conflict,
          perform_all (begin ∷ []) (create_run run (some "key") "digest" opened).1,
        ))
unfolding program
create_run-create_run_example =
    create_run-create_run run cancelled "key" "digest" "other" opened (begin ∷ []) run true
      opened-IsReady refl refl (tt, tt) after_create-IsReady
