-- ===== src/Store/Revisions/History.antt =====
-- The revision of a Run over a history of operations, and what it refuses.
use dsh_base_agent.Prelude.{
  ◌≤◌, ◌≡◌, refl, ap, ◌∙◌, subst, String, string_eq, nat_eq, Option, none, some, List, arith, ok,
  Error, eq_of_beq,
}
use dsh_base_agent.Prelude.Lists.{All}
use dsh_base_agent.Models.{RunRecord}
use dsh_base_agent.Sql.{fetch_one, has_key}
use dsh_base_agent.Sql.Rows.{All-fetch_one, fetch_one-fits}
use dsh_base_agent.Store.Tables.{RunRow, Db, run_key}
use dsh_base_agent.Store.Connection.{SqliteControlStore}
use dsh_base_agent.Store.Statements.{get_run_sync, payload_or}
use dsh_base_agent.Store.Operation.{Operation, perform_all}
use dsh_base_agent.Store.Keeps.{Holds}
use dsh_base_agent.Store.Frames.Runs.{OnRuns}
use dsh_base_agent.Store.Preservation.{KeptByStatements}
use dsh_base_agent.Store.Preservation.Runs.{OnRuns-kept}
use dsh_base_agent.Store.Preservation.Calls.{Anything, IsCall, Holds-perform_all}
use dsh_base_agent.Store.Consistency.Operations.{perform_all-IsConsistent}
use dsh_base_agent.Store.Consistency.{IsConsistent, AgreesRun}
use dsh_base_agent.Store.Revisions.{Succeeds, Later}
use dsh_base_agent.Store.Revisions.Statements.{
  Later-refl, Later-update_run, Later-update_run_sync, Later-insert_run,
}

pub Later-kept : (before : List RunRow) → KeptByStatements Anything (OnRuns (Later before))
Later-kept before =
    OnRuns-kept (Later before) Anything (λ run e counted _. Later-update_run before run e counted)
      (λ run e counted _. Later-update_run_sync before run e counted) (Later-insert_run before)

-- `get_run` returns the payload of the row of the Run.
pub row_of_run :
    (id : String) (db : Db) (run : RunRecord)
    → get_run_sync id db ≡ ok run
    → (row : RunRow) × (fetch_one (has_key run_key id) db.runs ≡ some row) × (row.payload ≡ run)
unfolding get_run_sync
row_of_run id db run h = found (fetch_one (has_key run_key id) db.runs) refl h
  where
    found :
        (o : Option RunRow)
        → fetch_one (has_key run_key id) db.runs ≡ o
        → payload_or (λ row. row.payload) Error.run_not_found o ≡ ok run
        → (row : RunRow) × (fetch_one (has_key run_key id) db.runs ≡ some row) × (row.payload ≡ run)
    found none e k = cc
    found (some row) e k = (row, e, cc)

-- A stored Run has the identifier under which it is found.
pub run_id-get_run_sync :
    (id : String) (db : Db) (run : RunRecord)
    → IsConsistent db
    → get_run_sync id db ≡ ok run
    → run.run_id ≡ id
run_id-get_run_sync id db run consistent h =
    let (row, found, is) = row_of_run id db run h in
    let agrees = All-fetch_one AgreesRun (has_key run_key id) db.runs consistent.runs.agree found in
    subst (λ r. r.run_id ≡ id) is
      (agrees.id ∙ eq_of_beq row.run_id id (fetch_one-fits (has_key run_key id) db.runs found))

pub run_of_row :
    (id : String) (db : Db) (row : RunRow)
    → fetch_one (has_key run_key id) db.runs ≡ some row
    → get_run_sync id db ≡ ok row.payload
unfolding get_run_sync
run_of_row id db row h = rw h refl

pub in_working_of :
    (P : Db → Type 0) (disk : Db) (pending : Option Db)
    → pending ≡ none
    → P disk
    → P (elim pending [ none ↦ disk | some db ↦ db ])
in_working_of P disk none e h = h
in_working_of P disk (some db) e h = cc

abbrev Grown : RunRecord → RunRecord → Type 0
Grown run run' = (run.revision ≤ run'.revision) × (run.revision ≡ run'.revision → run ≡ run')

Grown-payload :
    (row row' : RunRow)
    → AgreesRun row
    → AgreesRun row'
    → Succeeds row row'
    → Grown row.payload row'.payload
Grown-payload row row' a a' s = (
  omega (arith, a.revision, a'.revision, s.no_older),
  λ e. ap (λ r. r.payload) (s.same (omega (arith, a.revision, a'.revision))),
)

Later-row :
    (ops : List Operation) (s : SqliteControlStore)
    → All IsCall ops
    → s.pending ≡ none
    → Later s.disk.runs (perform_all ops s).disk.runs
Later-row ops s calls closed =
    (Holds-perform_all (Later-kept s.disk.runs) ops calls s (
      let start : OnRuns (Later s.disk.runs) s.disk = record { rows = Later-refl s.disk.runs } in
      record {
        on_disk = start;
        in_working = in_working_of (OnRuns (Later s.disk.runs)) s.disk s.pending closed start;
      })).on_disk.rows

-- Over any calls of an open store, whichever of them raise: a committed Run is never lost, its
-- revision never decreases, and a Run read twice at one revision is the same record.
pub revisions_grow :
    (ops : List Operation) (s : SqliteControlStore) (id : String) (run : RunRecord)
    → All IsCall ops
    → Holds IsConsistent s
    → s.pending ≡ none
    → get_run_sync id s.disk ≡ ok run
    → (run' : RunRecord) × (get_run_sync id (perform_all ops s).disk ≡ ok run')
      × (run.revision ≤ run'.revision)
      × (run.revision ≡ run'.revision → run ≡ run')
revisions_grow ops s id run calls consistent closed h =
    let (row, found, is) = row_of_run id s.disk run h in
    let (row', found', grown) = Later-row ops s calls closed id row found in
    let after = (perform_all-IsConsistent ops s consistent).on_disk in
    let g : Grown run row'.payload =
      subst (λ r. Grown r row'.payload) is
        (Grown-payload row row'
          (All-fetch_one AgreesRun (has_key run_key id) s.disk.runs consistent.on_disk.runs.agree
            found)
          (All-fetch_one AgreesRun (has_key run_key id) (perform_all ops s).disk.runs
            after.runs.agree found')
          grown) in
    (row'.payload, run_of_row id (perform_all ops s).disk row' found', g.0, g.1)
