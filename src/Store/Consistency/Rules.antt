-- ===== src/Store/Consistency/Rules.antt =====
-- Each statement keeps the well-formedness.
use dsh_base_agent.Prelude.{
  ℕ, ◌≡◌, refl, ap, ◌∙◌, String, Bool, true, List, arith, string_eq, nat_eq, ◌==◌,
}
use dsh_base_agent.Prelude.Lists.{any}
use dsh_base_agent.Models.{RunRecord, action_status_eq}
use dsh_base_agent.Sql.{has_key, update}
use dsh_base_agent.Sql.Rows.{any-update, any-insert, All-map}
use dsh_base_agent.Sql.Keys.{IsTable, IsTable-insert, IsTable-update}
use dsh_base_agent.Store.Tables.{RunRow, Db, run_key}
use dsh_base_agent.Store.Statements.{run_at, run_row, update_run, update_run_sync, insert_run}
use dsh_base_agent.Store.Keeps.{OnOk-one_row, OnOk-insert, Keeps}
use dsh_base_agent.Store.Consistency.{AgreesRun, IsConsistent}

-- A change of the Runs that loses no `run_id` keeps the foreign keys to `runs`.
abbrev pub Extends : List RunRow → List RunRow → Type 0
Extends before after =
    (id : String) → any (has_key run_key id) before ≡ true → any (has_key run_key id) after ≡ true

pub set_runs :
    (db : Db) (runs : List RunRow)
    → IsConsistent db
    → IsTable run_key AgreesRun runs
    → Extends db.runs runs
    → IsConsistent (record db { runs = runs })
set_runs db runs h table extends = record {
  conversations = h.conversations;
  runs = table;
  run_attempts = h.run_attempts;
  attempts_of_runs = All-map _ _ (λ row. extends row.run_id) db.run_attempts h.attempts_of_runs;
  plans = h.plans;
  plans_of_runs = All-map _ _ (λ row. extends row.run_id) db.plans h.plans_of_runs;
  one_plan = h.one_plan;
  required_actions = h.required_actions;
  actions_of_runs = All-map _ _ (λ row. extends row.run_id) db.required_actions h.actions_of_runs;
  one_pending_action = h.one_pending_action;
  events_of_runs = All-map _ _ (λ e. extends e.run_id) db.run_events h.events_of_runs;
  artifacts_of_runs = All-map _ _ (λ a. extends a.run_id) db.artifacts h.artifacts_of_runs;
}

pub update-Extends :
    (test : RunRow → Bool) (f : RunRow → RunRow) (runs : List RunRow)
    → ((row : RunRow) → run_key (f row) ≡ run_key row)
    → Extends runs (update test f runs)
update-Extends test f runs keeps id there =
    any-update (has_key run_key id) test f (λ row. ap (λ k. k == id) (keeps row)) runs ∙ there

module _ (run : RunRecord) (expected : ℕ) where
  pub Keeps-update_run : Keeps IsConsistent (update_run run expected)
  unfolding update_run
  Keeps-update_run = record {
    at = λ db h. OnOk-one_row IsConsistent _ _ (
        set_runs db _ h
          (IsTable-update run_key AgreesRun run.run_id (λ row. row.revision == expected) _ db.runs
            (λ row. refl) (λ row e. record { id = e; status = refl; revision = refl }) h.runs)
          (update-Extends (run_at run.run_id expected) _ db.runs (λ row. refl)));
  }

  pub Keeps-update_run_sync : Keeps IsConsistent (update_run_sync run expected)
  unfolding update_run_sync
  Keeps-update_run_sync = record {
    at = λ db h. OnOk-one_row IsConsistent _ _ (
        set_runs db _ h
          (IsTable-update run_key AgreesRun run.run_id (λ row. row.revision == expected) _ db.runs
            (λ row. refl) (λ row e. record { id = e; status = refl; revision = refl }) h.runs)
          (update-Extends (run_at run.run_id expected) _ db.runs (λ row. refl)));
  }

pub Keeps-insert_run : (run : RunRecord) → Keeps IsConsistent (insert_run run)
unfolding insert_run
Keeps-insert_run run = record {
  at = λ db h. OnOk-insert _ IsConsistent (any (has_key run_key run.run_id) db.runs) _ (λ fresh.
      set_runs db _ h
        (IsTable-insert run_key AgreesRun (run_row run) db.runs fresh
          (record { id = refl; status = refl; revision = refl }) h.runs)
        (λ id there.
          any-insert (has_key run_key id) (run_row run) db.runs ∙ ground (arith, there)));
}
