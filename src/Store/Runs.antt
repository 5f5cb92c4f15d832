-- ===== src/Store/Runs.antt =====
-- The operations of `SqliteControlStore` on standalone Runs.
use dsh_base_agent.Prelude.{
  ℕ, ◌+◌, String, Bool, true, Option, none, some, List, [], ◌∷◌, map, ok, value_error, ◌==◌, ◌!=◌,
  nat_eq, raise_if,
}
use dsh_base_agent.Prelude.Lists.{any}
use dsh_base_agent.Models.{RunRecord, RunStatus, run_status_eq}
use dsh_base_agent.Sql.{fetch_all}
use dsh_base_agent.Store.Tables.{IdempotencyRow}
use dsh_base_agent.Store.Connection.{
  Exec, Tx, ◌>>=◌, ◌>>◌, pure, gets, transaction, update_one, query, checked,
}
use dsh_base_agent.Store.Statements.{get_run_sync, insert_run, set_run}
use dsh_base_agent.Store.Conversations.{find_prior, replay_prior, insert_idempotency_of}

unfoldable pub create_or_replay :
    RunRecord → Option String → String → Option IdempotencyRow → Tx (RunRecord × Bool)
create_or_replay run key digest (some prior) = replay_prior prior digest
create_or_replay run key digest none = do
  insert_run run
  insert_idempotency_of run key digest
  pure (run, true)

unfoldable pub create_run : RunRecord → Option String → String → Exec (RunRecord × Bool)
unfolding create_or_replay
create_run run key digest =
    transaction
      (do prior ← gets (find_prior run.tenant_id key); create_or_replay run key digest prior)

unfoldable pub get_run : String → Exec RunRecord
get_run run_id = query (get_run_sync run_id)

unfoldable pub list_runs : List RunStatus → Exec (List RunRecord)
list_runs [] = query (λ db. ok (map (λ row. row.payload) db.runs))
list_runs (status ∷ rest) = query (λ db. ok (
    map (λ row. row.payload)
      (fetch_all (λ row. any (λ s. row.status == s) (status ∷ rest)) db.runs)))

-- The UPDATE of `replace_run` is that of `_set_run`.
unfoldable pub replace_run : RunRecord → ℕ → Exec (Unit {0})
replace_run run expected =
    checked (raise_if (run.revision != expected + 1) value_error)
      (update_one (set_run run expected))
