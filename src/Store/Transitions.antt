-- ===== src/Store/Transitions.antt =====
-- The changes of a stored Run as steps of a relation between Run records.
pub mod Statements
pub mod Operations
use dsh_base_agent.Prelude.{ℕ, ◌≡◌, String, string_eq, some, List}
use dsh_base_agent.Models.{RunRecord}
use dsh_base_agent.Sql.{fetch_one, has_key}
use dsh_base_agent.Store.Tables.{RunRow, run_key}

-- zero or more steps
pub data Steps (Step : RunRecord → RunRecord → Type 0) : RunRecord → RunRecord → Type 0 where
  stay : {run : RunRecord} → Steps Step run run
  move : {a b c : RunRecord} → Steps Step a b → Step b c → Steps Step a c

module _ (Step : RunRecord → RunRecord → Type 0) where
  -- Each Run that is stored before is stored after, and steps lead from the one to the other.
  abbrev pub Reaches : List RunRow → List RunRow → Type 0
  Reaches before after =
      (id : String) (row : RunRow)
      → fetch_one (has_key run_key id) before ≡ some row
      → (row' : RunRow) × (fetch_one (has_key run_key id) after ≡ some row')
        × Steps Step row.payload row'.payload

  -- Where the stored Run still has revision `e`, `run` is one step ahead of it.
  abbrev pub IsAhead : RunRecord → ℕ → List RunRow → Type 0
  IsAhead run e rows =
      (row : RunRow) × (fetch_one (has_key run_key run.run_id) rows ≡ some row)
      × (row.revision ≡ e → Step row.payload run)
