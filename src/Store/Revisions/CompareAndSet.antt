-- ===== src/Store/Revisions/CompareAndSet.antt =====
-- `replace_run` is an atomic compare-and-set on the map from identifiers to Runs.
use mathlib.Core.Option
use dsh_base_agent.Prelude.{
  ℕ, ◌+◌, ◌≡◌, refl, ap, ◌∙◌, String, string_eq, nat_eq, true, false, Option, none, some, List,
  arith, Result, ok, err, Error, revision_conflict, value_error, ◌==◌, eq_of_beq, beq_comm,
  Bool-cases, inl, inr, if◌then◌else◌,
}
use dsh_base_agent.Models.{RunRecord}
use dsh_base_agent.Sql.{fetch_one, has_key, update}
use dsh_base_agent.Sql.Rows.{All-fetch_one, fetch_one-fits, fetch_one-update}
use dsh_base_agent.Sql.Keys.{rowcount-keyed}
use dsh_base_agent.Store.Tables.{RunRow, Db, run_key}
use dsh_base_agent.Store.Connection.{SqliteControlStore, update_one}
use dsh_base_agent.Store.Statements.{run_at}
use dsh_base_agent.Store.Runs.{replace_run}
use dsh_base_agent.Store.Consistency.{IsConsistent, AgreesRun}

-- what `get_run` finds
abbrev pub view : Db → String → Option RunRecord
view db id = Option.map (λ row. row.payload) (fetch_one (has_key run_key id) db.runs)

-- a register for each identifier
abbrev pub set_if :
    RunRecord
    → ℕ
    → (String → Option RunRecord)
    → Option RunRecord
    → Result Error (Unit {0}) × (String → Option RunRecord)
set_if run e runs none = (err revision_conflict, runs)
set_if run e runs (some old) =
    if old.revision == e
    then (ok tt, λ id. if run.run_id == id then some run else runs id)
    else (err revision_conflict, runs)

abbrev pub compare_and_set :
    RunRecord
    → ℕ
    → (String → Option RunRecord)
    → Result Error (Unit {0}) × (String → Option RunRecord)
compare_and_set run e runs =
    if run.revision == e + 1 then set_if run e runs (runs run.run_id) else (err value_error, runs)

abbrev payload_of : Option RunRow → Option RunRecord
payload_of = Option.map (λ row. row.payload)

-- The map after an UPDATE that hits the row of its key.
module _ (run : RunRecord) (e : ℕ) (f : RunRow → RunRow) (rows : List RunRow)
    (keeps : (r : RunRow) → run_key (f r) ≡ run_key r)
    (sets : (r : RunRow) → (f r).payload ≡ run) where
  fetched :
      (id : String)
      → fetch_one (has_key run_key id) (update (run_at run.run_id e) f rows)
        ≡ Option.map
            (λ r. if run_at run.run_id e r then f r else r)
            (fetch_one (has_key run_key id) rows)
  fetched id =
      fetch_one-update (has_key run_key id) (run_at run.run_id e) f
        (λ r. ap (λ k. k == id) (keeps r)) rows

  hit :
      (row : RunRow)
      → fetch_one (has_key run_key run.run_id) rows ≡ some row
      → row.revision ≡ e
      → payload_of (fetch_one (has_key run_key run.run_id) (update (run_at run.run_id e) f rows))
        ≡ some run
  hit row found at =
      rw (fetched run.run_id) (
        ground (arith, found, at, fetch_one-fits (has_key run_key run.run_id) rows found, sets row))

  missed :
      (id : String)
      → (run.run_id == id) ≡ false
      → (o : Option RunRow) → fetch_one (has_key run_key id) rows ≡ o
      → payload_of (fetch_one (has_key run_key id) (update (run_at run.run_id e) f rows))
        ≡ payload_of (fetch_one (has_key run_key id) rows)
  missed id other none found = rw (fetched id) (ground (arith, found))
  missed id other (some row) found =
      let fits = eq_of_beq row.run_id id (fetch_one-fits (has_key run_key id) rows found) in
      let skipped : (row.run_id == run.run_id) ≡ false = rw fits (beq_comm id run.run_id ∙ other) in
      rw (fetched id) (ground (arith, found, skipped))

  view_update :
      (row : RunRow)
      → fetch_one (has_key run_key run.run_id) rows ≡ some row
      → row.revision ≡ e
      → (id : String)
      → payload_of (fetch_one (has_key run_key id) (update (run_at run.run_id e) f rows))
        ≡ (if run.run_id == id then some run else payload_of (fetch_one (has_key run_key id) rows))
  view_update row found at id = elim (Bool-cases (run.run_id == id)) [
    | inl same ↦ rw same (rw (← eq_of_beq run.run_id id same) (hit row found at))
    | inr other ↦ rw other (missed id other (fetch_one (has_key run_key id) rows) refl)
  ]

module _ (run : RunRecord) (e : ℕ) (s : SqliteControlStore) (open_ : s.connected ≡ true)
    (idle : s.pending ≡ none) (h : IsConsistent s.disk) where
  cases :
      (o : Option RunRow)
      → fetch_one (has_key run_key run.run_id) s.disk.runs ≡ o
      → ((replace_run run e s).0 ≡ (compare_and_set run e (view s.disk)).0)
        × ((id : String)
            → view (replace_run run e s).1.disk id ≡ (compare_and_set run e (view s.disk)).1 id)
  unfolding replace_run update_one
  cases none found =
      let count =
        rowcount-keyed run_key run.run_id (λ row. row.revision == e) s.disk.runs h.runs.keyed in
      (ground (arith, count, found), λ id. ground (arith, count, found))
  cases (some row) found =
      let count =
        rowcount-keyed run_key run.run_id (λ row. row.revision == e) s.disk.runs h.runs.keyed in
      let agrees =
        All-fetch_one AgreesRun (has_key run_key run.run_id) s.disk.runs h.runs.agree found in
      (
        ground (arith, count, found, agrees.revision),
        λ id. elim (Bool-cases (row.revision == e)) [
          | inl at ↦ ground (
            arith,
            count,
            found,
            agrees.revision,
            at,
            view_update run e
                (λ r. record r {
                  tenant_id = run.tenant_id;
                  status = run.status;
                  revision = run.revision;
                  payload = run;
                })
                s.disk.runs (λ _. refl) (λ _. refl) row found (eq_of_beq row.revision e at) id,
          )
          | inr stale ↦ ground (arith, count, found, agrees.revision, stale)
        ],
      )

-- On an open store with no transaction left open, `replace_run` raises exactly when the
-- compare-and-set on the map from identifiers to stored Runs does, and with the same error; after
-- it the map of the committed Runs is the one that the compare-and-set leaves.
pub replace_run-compare_and_set :
    (run : RunRecord) (e : ℕ) (s : SqliteControlStore)
    → s.connected ≡ true
    → s.pending ≡ none
    → IsConsistent s.disk
    → ((replace_run run e s).0 ≡ (compare_and_set run e (view s.disk)).0)
      × ((id : String)
          → view (replace_run run e s).1.disk id ≡ (compare_and_set run e (view s.disk)).1 id)
replace_run-compare_and_set run e s connected idle h =
    cases run e s connected idle h (fetch_one (has_key run_key run.run_id) s.disk.runs) refl
