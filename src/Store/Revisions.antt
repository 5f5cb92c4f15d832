-- ===== src/Store/Revisions.antt =====
-- Optimistic concurrency: the revision of a stored Run.
pub mod Statements
pub mod CompareAndSet
pub mod History
pub mod LostUpdate
use dsh_base_agent.Prelude.{ℕ, ◌≤◌, ◌≡◌, String, string_eq, some, List}
use dsh_base_agent.Sql.{fetch_one, has_key}
use dsh_base_agent.Store.Tables.{RunRow, Db, run_key}

-- A row as it became: no older revision, and the same record at the same revision.
pub record Succeeds (before after : RunRow) : Type 0 where
  pub no_older : before.revision ≤ after.revision
  pub same : before.revision ≡ after.revision → before ≡ after

-- Every row of `before` is still there, as it became.
abbrev pub Later : List RunRow → List RunRow → Type 0
Later before after =
    (id : String) (row : RunRow)
    → fetch_one (has_key run_key id) before ≡ some row
    → (row' : RunRow) × (fetch_one (has_key run_key id) after ≡ some row') × Succeeds row row'
