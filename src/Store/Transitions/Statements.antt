-- ===== src/Store/Transitions/Statements.antt =====
-- A statement that replaces a Run by one that is a step ahead takes the table of Runs along steps.
use mathlib.Core.Option
use dsh_base_agent.Prelude.{
  ℕ, ◌+◌, ◌≡◌, refl, ◌∙◌, ap, sym, subst, String, List, arith, string_eq, nat_eq, ◌==◌, and_true,
  eq_of_beq, some_eq, some, true, Bool-cases, inl, inr, if◌then◌else◌,
}
use dsh_base_agent.Models.{RunRecord}
use dsh_base_agent.Sql.{fetch_one, has_key, update, insert}
use dsh_base_agent.Sql.Rows.{fetch_one-update, fetch_one-insert, fetch_one-fits}
use dsh_base_agent.Store.Tables.{RunRow, run_key}
use dsh_base_agent.Store.Statements.{run_at, run_row, update_run, update_run_sync, insert_run}
use dsh_base_agent.Store.Keeps.{OnOk-one_row, OnOk-insert, Keeps}
use dsh_base_agent.Store.Frames.Runs.{OnRuns}
use dsh_base_agent.Store.Transitions.{Steps, Reaches, IsAhead}

module _ (Step : RunRecord → RunRecord → Type 0) where
  pub Reaches-refl : (rows : List RunRow) → Reaches Step rows rows
  Reaches-refl rows id row h = (row, h, Steps.stay)

  Reaches-insert :
      (before rows : List RunRow) (r : RunRow)
      → Reaches Step before rows
      → Reaches Step before (insert r rows)
  Reaches-insert before rows r reaches id row h =
      let (row', found, s) = reaches id row h in
      (row', fetch_one-insert (has_key run_key id) r rows ∙ rw found refl, s)

  IsAhead-insert :
      (run : RunRecord) (e : ℕ) (rows : List RunRow) (r : RunRow)
      → IsAhead Step run e rows
      → IsAhead Step run e (insert r rows)
  IsAhead-insert run e rows r (row, found, step) =
      (row, fetch_one-insert (has_key run_key run.run_id) r rows ∙ rw found refl, step)

  -- An UPDATE of the row of `run` at revision `e`.
  module _ (run : RunRecord) (e : ℕ) (f : RunRow → RunRow) (rows : List RunRow)
      (keeps : (r : RunRow) → run_key (f r) ≡ run_key r)
      (grows : (r : RunRow) → (f r).revision ≡ e + 1) (sets : (r : RunRow) → (f r).payload ≡ run)
      (ahead : IsAhead Step run e rows) where
    fetched :
        (id : String)
        → fetch_one (has_key run_key id) (update (run_at run.run_id e) f rows)
          ≡ Option.map
              (λ r. if run_at run.run_id e r then f r else r)
              (fetch_one (has_key run_key id) rows)
    fetched id =
        fetch_one-update (has_key run_key id) (run_at run.run_id e) f
          (λ r. ap (λ k. k == id) (keeps r)) rows

    -- the row that the UPDATE changes is the one that `run` is ahead of
    stepped :
        (id : String) (row : RunRow)
        → fetch_one (has_key run_key id) rows ≡ some row
        → run_at run.run_id e row ≡ true
        → Step row.payload run
    stepped id row found hit =
        let both = and_true (has_key run_key run.run_id row) (row.revision == e) hit in
        let own = eq_of_beq row.run_id run.run_id both.0 in
        let fits = eq_of_beq row.run_id id (fetch_one-fits (has_key run_key id) rows found) in
        let here : fetch_one (has_key run_key run.run_id) rows ≡ some row =
          subst (λ k. fetch_one (has_key run_key k) rows ≡ some row) (sym fits ∙ own) found in
        let same : ahead.0 ≡ row = some_eq _ _ (sym ahead.1 ∙ here) in
        subst (λ r. Step r.payload run) same
          (ahead.2 (ap (λ r. r.revision) same ∙ eq_of_beq row.revision e both.1))

    Reaches-update :
        (before : List RunRow)
        → Reaches Step before rows
        → Reaches Step before (update (run_at run.run_id e) f rows)
    Reaches-update before reaches id row h =
        let (row', found, s) = reaches id row h in
        (
          (if run_at run.run_id e row' then f row' else row'),
          fetched id ∙ ap (Option.map (λ r. if run_at run.run_id e r then f r else r)) found,
          elim (Bool-cases (run_at run.run_id e row')) [
            | inl hit ↦ rw hit (
                subst (Steps Step row.payload) (sym (sets row'))
                  (Steps.move s (stepped id row' found hit)))
            | inr miss ↦ rw miss s
          ],
        )

    IsAhead-update : IsAhead Step run e (update (run_at run.run_id e) f rows)
    IsAhead-update = (
      (if run_at run.run_id e ahead.0 then f ahead.0 else ahead.0),
      fetched run.run_id ∙ ap (Option.map (λ r. if run_at run.run_id e r then f r else r)) ahead.1,
      elim (Bool-cases (run_at run.run_id e ahead.0)) [
        | inl hit ↦ rw hit (λ at. absurd (omega (arith, grows ahead.0, at)))
        | inr miss ↦ rw miss ahead.2
      ],
    )

  -- the steps from `before`, and that the Run to be written is still ahead
  abbrev pub Underway : List RunRow → RunRecord → ℕ → List RunRow → Type 0
  Underway before run e rows = Reaches Step before rows × IsAhead Step run e rows

  module _ (before : List RunRow) (run : RunRecord) (e : ℕ) (counted : run.revision ≡ e + 1) where
    pub Underway-update_run : Keeps (OnRuns (Underway before run e)) (update_run run e)
    unfolding update_run
    Underway-update_run = record {
      at = λ db h. OnOk-one_row (OnRuns (Underway before run e)) _ _ (record {
        rows = (
          Reaches-update run e _ db.runs (λ _. refl) (λ _. counted) (λ _. refl) h.rows.1 before
              h.rows.0,
          IsAhead-update run e _ db.runs (λ _. refl) (λ _. counted) (λ _. refl) h.rows.1,
        );
      });
    }

    pub Underway-update_run_sync : Keeps (OnRuns (Underway before run e)) (update_run_sync run e)
    unfolding update_run_sync
    Underway-update_run_sync = record {
      at = λ db h. OnOk-one_row (OnRuns (Underway before run e)) _ _ (record {
        rows = (
          Reaches-update run e _ db.runs (λ _. refl) (λ _. counted) (λ _. refl) h.rows.1 before
              h.rows.0,
          IsAhead-update run e _ db.runs (λ _. refl) (λ _. counted) (λ _. refl) h.rows.1,
        );
      });
    }

  pub Underway-insert_run :
      (before : List RunRow) (ahead : RunRecord) (e : ℕ) (run : RunRecord)
      → Keeps (OnRuns (Underway before ahead e)) (insert_run run)
  unfolding insert_run
  Underway-insert_run before ahead e run = record {
    at = λ db h. OnOk-insert _ (OnRuns (Underway before ahead e)) _ _ (λ _. record {
      rows = (
        Reaches-insert before db.runs (run_row run) h.rows.0,
        IsAhead-insert ahead e db.runs (run_row run) h.rows.1,
      );
    });
  }

  pub Reaches-insert_run :
      (before : List RunRow) (run : RunRecord)
      → Keeps (OnRuns (Reaches Step before)) (insert_run run)
  unfolding insert_run
  Reaches-insert_run before run = record {
    at = λ db h.
        OnOk-insert _ (OnRuns (Reaches Step before)) _ _
          (λ _. record { rows = Reaches-insert before db.runs (run_row run) h.rows });
  }
