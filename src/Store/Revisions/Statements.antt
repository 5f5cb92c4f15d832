-- ===== src/Store/Revisions/Statements.antt =====
-- Each statement takes the table of Runs to a later one.
use mathlib.Core.Option
use dsh_base_agent.Prelude.{
  ℕ, ◌+◌, ◌≡◌, refl, ◌∙◌, ap, String, List, arith, string_eq, nat_eq, ◌==◌, and_true, eq_of_beq,
  Bool-cases, inl, inr, if◌then◌else◌,
}
use dsh_base_agent.Models.{RunRecord}
use dsh_base_agent.Sql.{has_key, update, insert}
use dsh_base_agent.Sql.Rows.{fetch_one-update, fetch_one-insert}
use dsh_base_agent.Store.Tables.{RunRow, Db, run_key}
use dsh_base_agent.Store.Statements.{run_at, run_row, update_run, update_run_sync, insert_run}
use dsh_base_agent.Store.Keeps.{OnOk-one_row, OnOk-insert, Keeps}
use dsh_base_agent.Store.Frames.Runs.{OnRuns}
use dsh_base_agent.Store.Revisions.{Succeeds, Later}

pub Later-refl : (rows : List RunRow) → Later rows rows
Later-refl rows id row h = (row, h, record { no_older = omega arith; same = λ _. refl })

-- An UPDATE at a revision that sets the next one.
succeed :
    (run_id : String) (expected : ℕ) (f : RunRow → RunRow) (before row : RunRow)
    → ((r : RunRow) → (f r).revision ≡ expected + 1)
    → Succeeds before row
    → Succeeds before (if run_at run_id expected row then f row else row)
succeed run_id expected f before row grows s = elim (Bool-cases (run_at run_id expected row)) [
  | inl hit ↦
      let old : row.revision ≡ expected =
        eq_of_beq row.revision expected
          (and_true (has_key run_key run_id row) (row.revision == expected) hit).1 in
      rw hit (record {
        no_older = omega (arith, s.no_older, grows row);
        same = λ e. absurd (omega (arith, s.no_older, grows row));
      })
  | inr miss ↦ rw miss s
]

pub Later-update :
    (run_id : String) (expected : ℕ) (f : RunRow → RunRow) (before rows : List RunRow)
    → ((r : RunRow) → run_key (f r) ≡ run_key r)
    → ((r : RunRow) → (f r).revision ≡ expected + 1)
    → Later before rows
    → Later before (update (run_at run_id expected) f rows)
Later-update run_id expected f before rows keeps grows later id row h =
    let (row', found, s) = later id row h in
    (
      (if run_at run_id expected row' then f row' else row'),
      fetch_one-update (has_key run_key id) (run_at run_id expected) f
            (λ r. ap (λ k. k == id) (keeps r)) rows
          ∙ ap (Option.map (λ r. if run_at run_id expected r then f r else r)) found,
      succeed run_id expected f row row' grows s,
    )

Later-insert :
    (before rows : List RunRow) (r : RunRow) → Later before rows → Later before (insert r rows)
Later-insert before rows r later id row h =
    let (row', found, s) = later id row h in
    (row', fetch_one-insert (has_key run_key id) r rows ∙ rw found refl, s)

module _ (before : List RunRow) where
  abbrev pub RunsLater : Db → Type 0
  RunsLater = OnRuns (Later before)

  module _ (run : RunRecord) (expected : ℕ) (counted : run.revision ≡ expected + 1) where
    pub Later-update_run : Keeps RunsLater (update_run run expected)
    unfolding update_run
    Later-update_run = record {
      at = λ db h. OnOk-one_row RunsLater _ _ (record {
        rows = Later-update run.run_id expected _ before db.runs (λ _. refl) (λ _. counted) h.rows;
      });
    }

    pub Later-update_run_sync : Keeps RunsLater (update_run_sync run expected)
    unfolding update_run_sync
    Later-update_run_sync = record {
      at = λ db h. OnOk-one_row RunsLater _ _ (record {
        rows = Later-update run.run_id expected _ before db.runs (λ _. refl) (λ _. counted) h.rows;
      });
    }

  pub Later-insert_run : (run : RunRecord) → Keeps RunsLater (insert_run run)
  unfolding insert_run
  Later-insert_run run = record {
    at = λ db h.
        OnOk-insert _ RunsLater _ _
          (λ _. record { rows = Later-insert before db.runs (run_row run) h.rows });
  }
