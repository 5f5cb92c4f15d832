-- ===== src/Store/Idempotency.antt =====
-- `create_run` under an idempotency key: a key stands for one Run, whatever happens in between.
mod Key
use dsh_base_agent.Prelude.{
  ℕ, ◌≡◌, refl, sym, ap, ◌∙◌, subst, String, string_eq, nat_eq, Bool, true, false, Option, none,
  some, List, arith, Result, ok, err, Error, idempotency_conflict, ◌==◌, eq_refl, eq_of_beq,
  if◌then◌else◌, ok_eq,
}
use dsh_base_agent.Prelude.Lists.{All}
use dsh_base_agent.Models.{RunRecord, EventSource, Json}
use dsh_base_agent.Sql.{fetch_one, has_key}
use dsh_base_agent.Sql.Rows.{fetch_one-insert, any-eq-fetch_one}
use dsh_base_agent.Store.Tables.{IdempotencyRow, Db, run_key}
use dsh_base_agent.Store.Connection.{
  SqliteControlStore, Ran, transaction, commit_or_rollback, ◌>>=◌,
}
use dsh_base_agent.Store.Statements.{get_run_sync, insert_run, run_row}
use dsh_base_agent.Store.Conversations.{is_prior, insert_idempotency_of}
use dsh_base_agent.Store.Runs.{create_run, create_or_replay}
use dsh_base_agent.Store.Logs.{append_event_body}
use dsh_base_agent.Store.Operation.{Operation, perform, perform_all}
use dsh_base_agent.Store.Keeps.{Keeps, keeps_rules, OnOk-insert, Holds}
use dsh_base_agent.Store.Preservation.{KeptByStatements}
use dsh_base_agent.Store.Preservation.Calls.{IsCall, Holds-perform_all}
use dsh_base_agent.Store.Frames.Idempotency.{
  OnIdempotency, update_run-OnIdempotency, update_run_sync-OnIdempotency, insert_run-OnIdempotency,
  insert_event-OnIdempotency, update_attempt_sync-OnIdempotency, insert_attempt-OnIdempotency,
  update_plan-OnIdempotency, insert_plan-OnIdempotency, update_action-OnIdempotency,
  insert_action-OnIdempotency, insert_conversation-OnIdempotency, update_conversation-OnIdempotency,
  advance_conversation-OnIdempotency, insert_audit-OnIdempotency, insert_artifact-OnIdempotency,
}
use dsh_base_agent.Store.Consistency.{IsConsistent}
use dsh_base_agent.Store.Consistency.Operations.{perform-IsConsistent}
use dsh_base_agent.Store.Revisions.History.{revisions_grow, run_id-get_run_sync, in_working_of}
use dsh_base_agent.Store.Revisions.LostUpdate.{IsReady, report_state}
use dsh_base_agent.Store.Atomicity.{perform_closes}
use dsh_base_agent.Store.Idempotency.Key.{Taken, Taken-kept}

-- The first call: the key is taken for the Run that was returned.
pub record IsRecorded (tenant_id key digest : String) (db : Db) (run : RunRecord) : Type 0 where
  pub row : IdempotencyRow
  pub taken : fetch_one (is_prior tenant_id key) db.run_idempotency ≡ some row
  pub digest_is : row.request_digest ≡ digest
  pub stored : get_run_sync row.run_id db ≡ ok run

IsRecorded-replay :
    (run : RunRecord) (key digest : String) (db : Db) (prior : IdempotencyRow) (r : RunRecord)
    (c : Bool) (db' : Db)
    → fetch_one (is_prior run.tenant_id key) db.run_idempotency ≡ some prior
    → create_or_replay run (some key) digest (some prior) db ≡ ok ((r, c), db')
    → IsRecorded run.tenant_id key digest db' r
unfolding create_or_replay ◌>>=◌
IsRecorded-replay run key digest db prior r c db' found h =
    let same : (prior.request_digest == digest) ≡ true = ground arith in
    let result : (get_run_sync prior.run_id db ≡ ok r) × (db ≡ db') = ground arith in
    record {
      row = prior;
      taken =
          subst (λ d. fetch_one (is_prior run.tenant_id key) d.run_idempotency ≡ some prior)
            result.1 found;
      digest_is = eq_of_beq prior.request_digest digest same;
      stored = subst (λ d. get_run_sync prior.run_id d ≡ ok r) result.1 result.0;
    }

IsRecorded-new :
    (run : RunRecord) (key digest : String) (db : Db) (r : RunRecord) (c : Bool) (db' : Db)
    → fetch_one (is_prior run.tenant_id key) db.run_idempotency ≡ none
    → create_or_replay run (some key) digest none db ≡ ok ((r, c), db')
    → IsRecorded run.tenant_id key digest db' r
unfolding create_or_replay ◌>>=◌ insert_run get_run_sync
IsRecorded-new run key digest db r c db' free h =
    let row : IdempotencyRow = record {
      tenant_id = run.tenant_id;
      idempotency_key = key;
      request_digest = digest;
      run_id = run.run_id;
    } in
    record {
      row = row;
      taken = ground (
        arith,
        free,
        fetch_one-insert (is_prior run.tenant_id key) row db.run_idempotency,
        eq_refl run.tenant_id,
        eq_refl key,
      );
      digest_is = refl;
      stored = ground (
        arith,
        any-eq-fetch_one (has_key run_key run.run_id) db.runs,
        fetch_one-insert (has_key run_key run.run_id) (run_row run) db.runs,
        eq_refl run.run_id,
      );
    }

-- A call with the key of a recorded Run.
recorded_again :
    (run : RunRecord) (key digest given : String) (s : SqliteControlStore) (r : RunRecord)
    → IsReady s
    → IsRecorded run.tenant_id key digest s.disk r
    → create_run run (some key) given s
      ≡ (if digest == given then (ok (r, false), s) else (err idempotency_conflict, s))
unfolding create_run transaction ◌>>=◌ create_or_replay
recorded_again run key digest given s r ready recorded =
    ground (arith, recorded.taken, recorded.digest_is, recorded.stored, ready.idle, ready.connected)

committed :
    {A : Type 0} (result : Ran A) (s : SqliteControlStore) (a : A)
    → (commit_or_rollback result s).0 ≡ ok a
    → (db : Db) × (result ≡ ok (a, db)) × ((commit_or_rollback result s).1.disk ≡ db)
committed (ok (b, db)) s a h = (db, ap (λ x. ok (x, db)) (ok_eq b a h), refl)
committed (err (e, db)) s a h = cc

create_run-ready :
    (run : RunRecord) (key digest : String) (s : SqliteControlStore)
    → IsReady s
    → create_run run (some key) digest s
      ≡ commit_or_rollback
          (create_or_replay run
            (some key)
            digest
            (fetch_one (is_prior run.tenant_id key) s.disk.run_idempotency)
            s.disk)
          s
unfolding create_run transaction ◌>>=◌
create_run-ready run key digest s ready = rw (ready.connected, ready.idle)

IsRecorded-by :
    (run : RunRecord) (key digest : String) (db : Db) (r : RunRecord) (c : Bool) (db' : Db)
    (prior : Option IdempotencyRow)
    → fetch_one (is_prior run.tenant_id key) db.run_idempotency ≡ prior
    → create_or_replay run (some key) digest prior db ≡ ok ((r, c), db')
    → IsRecorded run.tenant_id key digest db' r
IsRecorded-by run key digest db r c db' none = IsRecorded-new run key digest db r c db'
IsRecorded-by run key digest db r c db' (some prior) =
    IsRecorded-replay run key digest db prior r c db'

IsRecorded-first :
    (run : RunRecord) (key digest : String) (s : SqliteControlStore) (r : RunRecord) (c : Bool)
    → IsReady s
    → (create_run run (some key) digest s).0 ≡ ok (r, c)
    → IsRecorded run.tenant_id key digest (create_run run (some key) digest s).1.disk r
IsRecorded-first run key digest s r c ready h =
    let is = create_run-ready run key digest s ready in
    let prior = fetch_one (is_prior run.tenant_id key) s.disk.run_idempotency in
    let (db, done, disk) =
      committed (create_or_replay run (some key) digest prior s.disk) s (r, c)
        (sym (ap (λ x. x.0) is) ∙ h) in
    subst (λ d. IsRecorded run.tenant_id key digest d r) (sym (ap (λ x. x.1.disk) is ∙ disk))
      (IsRecorded-by run key digest s.disk r c db prior refl done)

after_create_run :
    (run : RunRecord) (key digest : String) (s : SqliteControlStore)
    → IsReady s
    → Holds IsConsistent (create_run run (some key) digest s).1
      × ((create_run run (some key) digest s).1.pending ≡ none)
unfolding perform
after_create_run run key digest s ready =
    let op = Operation.create_run run (some key) digest in
    let state = report_state (create_run run (some key) digest s) in
    (
      subst (Holds IsConsistent) state (perform-IsConsistent op s ready.consistent),
      sym (ap (λ t. t.pending) state) ∙ perform_closes op s refl ready.idle,
    )

kept_row :
    (run : RunRecord) (key : String) (row : IdempotencyRow) (ops : List Operation)
    (s : SqliteControlStore)
    → All IsCall ops
    → s.pending ≡ none
    → fetch_one (is_prior run.tenant_id key) s.disk.run_idempotency ≡ some row
    → fetch_one (is_prior run.tenant_id key) (perform_all ops s).disk.run_idempotency ≡ some row
kept_row run key row ops s calls idle taken =
    let P = OnIdempotency (Taken run.tenant_id key row) in
    let start : P s.disk = record { rows = taken } in
    (Holds-perform_all (Taken-kept run.tenant_id key row) ops calls s (record {
      on_disk = start;
      in_working = in_working_of P s.disk s.pending idle start;
    })).on_disk.rows

-- Once create_run has returned a Run under an idempotency key of its tenant, then after any further
-- calls that leave the store open, well formed and with no transaction open, as it was at first, a
-- create_run of that tenant with the key creates nothing and leaves the store as it is: with the
-- same request digest it returns that Run as it is now and False, and with another digest it raises
-- IdempotencyConflictError.
pub create_run-create_run :
    (run again : RunRecord) (key digest given : String) (s : SqliteControlStore)
    (ops : List Operation) (r : RunRecord) (c : Bool)
    → IsReady s
    → again.tenant_id ≡ run.tenant_id
    → (create_run run (some key) digest s).0 ≡ ok (r, c)
    → All IsCall ops
    → IsReady (perform_all ops (create_run run (some key) digest s).1)
    → (now : RunRecord) × (get_run_sync r.run_id
          (perform_all ops (create_run run (some key) digest s).1).disk
        ≡ ok now)
      × (create_run again (some key) given (perform_all ops (create_run run (some key) digest s).1)
          ≡ (if digest == given
              then (ok (now, false), perform_all ops (create_run run (some key) digest s).1)
              else (
                err idempotency_conflict,
                perform_all ops (create_run run (some key) digest s).1,
              )))
create_run-create_run run again key digest given s ops r c ready same h calls later =
    let s1 = (create_run run (some key) digest s).1 in
    let s2 = perform_all ops s1 in
    let recorded = IsRecorded-first run key digest s r c ready h in
    let (consistent, idle) = after_create_run run key digest s ready in
    let (now, found, _, _) =
      revisions_grow ops s1 recorded.row.run_id r calls consistent idle recorded.stored in
    let named =
      run_id-get_run_sync recorded.row.run_id s1.disk r consistent.on_disk recorded.stored in
    let kept = kept_row run key recorded.row ops s1 calls idle recorded.taken in
    (
      now,
      subst (λ id. get_run_sync id s2.disk ≡ ok now) (sym named) found,
      recorded_again again key digest given s2 now later (record {
        row = recorded.row;
        taken = rw same kept;
        digest_is = recorded.digest_is;
        stored = found;
      }),
    )
