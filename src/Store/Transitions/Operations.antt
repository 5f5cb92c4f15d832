-- ===== src/Store/Transitions/Operations.antt =====
-- A call that writes a Run one step ahead of the stored one takes the stored Runs along steps.
use dsh_base_agent.Prelude.{ℕ, ◌≡◌, subst, List}
use dsh_base_agent.Models.{RunRecord}
use dsh_base_agent.Store.Tables.{RunRow}
use dsh_base_agent.Store.Connection.{SqliteControlStore}
use dsh_base_agent.Store.Statements.{update_run, update_run_sync}
use dsh_base_agent.Store.Operation.{Operation, perform}
use dsh_base_agent.Store.Keeps.{Keeps, Holds}
use dsh_base_agent.Store.Frames.Runs.{OnRuns}
use dsh_base_agent.Store.Preservation.{KeptByStatements}
use dsh_base_agent.Store.Preservation.Runs.{OnRuns-kept}
use dsh_base_agent.Store.Preservation.Calls.{IsPermitted, Holds-permitted}
use dsh_base_agent.Store.Transitions.{Reaches, IsAhead}
use dsh_base_agent.Store.Transitions.Statements.{
  Underway, Underway-update_run, Underway-update_run_sync, Underway-insert_run, Reaches-insert_run,
}

-- the Run that is written, at the revision that is expected
abbrev pub IsThis : RunRecord → ℕ → RunRecord → ℕ → Type 0
IsThis run e run' e' = (run ≡ run') × (e ≡ e')

abbrev pub Nothing : RunRecord → ℕ → Type 0
Nothing run e = ⊥

module _ (Step : RunRecord → RunRecord → Type 0) where
  Underway-kept :
      (before : List RunRow) (run : RunRecord) (e : ℕ)
      → KeptByStatements (IsThis run e) (OnRuns (Underway Step before run e))
  Underway-kept before run e =
      OnRuns-kept (Underway Step before run e) (IsThis run e)
        (λ run' e' counted (a, b).
          subst (λ r. Keeps (OnRuns (Underway Step before run e)) (update_run r e')) a
            (subst (λ n. Keeps (OnRuns (Underway Step before run e)) (update_run run n)) b
              (Underway-update_run Step before run e (cc (counted, a, b)))))
        (λ run' e' counted (a, b).
          subst (λ r. Keeps (OnRuns (Underway Step before run e)) (update_run_sync r e')) a
            (subst (λ n. Keeps (OnRuns (Underway Step before run e)) (update_run_sync run n)) b
              (Underway-update_run_sync Step before run e (cc (counted, a, b)))))
        (Underway-insert_run Step before run e)

  Reaches-kept : (before : List RunRow) → KeptByStatements Nothing (OnRuns (Reaches Step before))
  Reaches-kept before =
      OnRuns-kept (Reaches Step before) Nothing (λ run e counted c. absurd c)
        (λ run e counted c. absurd c) (Reaches-insert_run Step before)

  -- The call writes `run` at revision `e`.
  pub Reaches-writes :
      (before : List RunRow) (run : RunRecord) (e : ℕ) (op : Operation)
      → IsPermitted (IsThis run e) op
      → (s : SqliteControlStore) → Holds (OnRuns (Reaches Step before)) s
      → Holds (OnRuns (IsAhead Step run e)) s
      → Holds (OnRuns (Reaches Step before)) (perform op s).1
  Reaches-writes before run e op permitted s h ahead =
      let after = Holds-permitted (Underway-kept before run e) op permitted s (record {
        on_disk = record { rows = (h.on_disk.rows, ahead.on_disk.rows) };
        in_working = record { rows = (h.in_working.rows, ahead.in_working.rows) };
      }) in
      record {
        on_disk = record { rows = after.on_disk.rows.0 };
        in_working = record { rows = after.in_working.rows.0 };
      }

  -- The call writes over no stored Run.
  pub Reaches-others :
      (before : List RunRow) (op : Operation)
      → IsPermitted Nothing op
      → (s : SqliteControlStore) → Holds (OnRuns (Reaches Step before)) s
      → Holds (OnRuns (Reaches Step before)) (perform op s).1
  Reaches-others before op permitted s h = Holds-permitted (Reaches-kept before) op permitted s h
