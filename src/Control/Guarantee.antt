-- ===== src/Control/Guarantee.antt =====
-- What an operation of the control plane does to the stored Runs, whatever the other tasks do
-- between its calls, as long as they keep to the same rules.
use dsh_base_agent.Prelude.{
  ℕ, ◌≡◌, refl, sym, ap, ◌∙◌, subst, String, string_eq, some, List, [], ◌∷◌, ok, ◌==◌, eq_refl,
  eq_of_beq, Bool-cases, inl, inr, ◌≤◌, arith,
}
use dsh_base_agent.Models.{RunRecord}
use dsh_base_agent.Sql.{fetch_one, has_key}
use dsh_base_agent.Sql.Rows.{All-fetch_one, fetch_one-fits}
use dsh_base_agent.Store.Tables.{RunRow, run_key}
use dsh_base_agent.Store.Connection.{SqliteControlStore, working}
use dsh_base_agent.Store.Statements.{get_run_sync}
use dsh_base_agent.Store.Operation.{Operation, perform}
use dsh_base_agent.Store.Keeps.{Holds}
use dsh_base_agent.Store.Frames.Runs.{OnRuns}
use dsh_base_agent.Store.Consistency.{IsConsistent, AgreesRun}
use dsh_base_agent.Store.Consistency.Operations.{perform-IsConsistent}
use dsh_base_agent.Store.Preservation.Calls.{IsCall, IsPermitted, Holds-perform}
use dsh_base_agent.Store.Revisions.{Later}
use dsh_base_agent.Store.Revisions.History.{Later-kept, row_of_run}
use dsh_base_agent.Store.Settled.{IsSettled, perform-IsSettled}
use dsh_base_agent.Store.Transitions.{Reaches, IsAhead}
use dsh_base_agent.Store.Transitions.Operations.{IsThis, Nothing, Reaches-writes, Reaches-others}
use dsh_base_agent.Control.Lifecycle.{Step}

-- a well-formed store between two calls
pub record IsSound (s : SqliteControlStore) : Type 0 where
  pub consistent : Holds IsConsistent s
  pub settled : IsSettled s

-- From `s` to `s'` the store stays sound, no Run is lost or changed without a new revision, and
-- each Run that is stored goes along the steps of its life.
pub record Advances (s s' : SqliteControlStore) : Type 0 where
  pub sound : IsSound s → IsSound s'
  pub later :
      (before : List RunRow) → Holds (OnRuns (Later before)) s → Holds (OnRuns (Later before)) s'
  pub reaches :
      (before : List RunRow)
      → Holds (OnRuns (Reaches Step before)) s
      → Holds (OnRuns (Reaches Step before)) s'

pub Advances-refl : (s : SqliteControlStore) → Advances s s
Advances-refl s = record { sound = λ h. h; later = λ before h. h; reaches = λ before h. h }

pub Advances-trans :
    (s s' s'' : SqliteControlStore) → Advances s s' → Advances s' s'' → Advances s s''
Advances-trans s s' s'' a b = record {
  sound = λ h. b.sound (a.sound h);
  later = λ before h. b.later before (a.later before h);
  reaches = λ before h. b.reaches before (a.reaches before h);
}

-- What the other tasks do advances every sound store.
abbrev pub IsFair : (SqliteControlStore → SqliteControlStore) → Type 0
IsFair task = (s : SqliteControlStore) → IsSound s → Advances s (task s)

-- The Run was read, and its row has not gone back since.
pub record Known (run : RunRecord) (s : SqliteControlStore) : Type 0 where
  pub row : RunRow
  pub id : row.run_id ≡ run.run_id
  pub revision : row.revision ≡ run.revision
  pub payload : row.payload ≡ run
  pub later : Holds (OnRuns (Later (row ∷ []))) s

pub Known-Advances :
    (run : RunRecord) (s s' : SqliteControlStore) → Advances s s' → Known run s → Known run s'
Known-Advances run s s' a k = record {
  row = k.row;
  id = k.id;
  revision = k.revision;
  payload = k.payload;
  later = a.later (k.row ∷ []) k.later;
}

-- A Run that is one step after the one that was read is ahead of the stored one.
IsAhead-known :
    (run run' : RunRecord) (row : RunRow) (rows : List RunRow)
    → row.run_id ≡ run.run_id
    → row.revision ≡ run.revision
    → row.payload ≡ run
    → run'.run_id ≡ run.run_id
    → Later (row ∷ []) rows
    → Step run run'
    → IsAhead Step run' run.revision rows
IsAhead-known run run' row rows id revision payload own later step =
    let first : fetch_one (has_key run_key row.run_id) (row ∷ []) ≡ some row =
      rw (eq_refl row.run_id) refl in
    let (row', found, s) = later row.run_id row first in
    (
      row',
      subst (λ k. fetch_one (has_key run_key k) rows ≡ some row') (id ∙ sym own) found,
      λ at.
          subst (λ r. Step r run') (sym payload ∙ ap (λ r. r.payload) (s.same (revision ∙ sym at)))
            step,
    )

IsPermitted-IsCall :
    (Permit : RunRecord → ℕ → Type 0) (op : Operation) → IsPermitted Permit op → IsCall op
IsPermitted-IsCall Permit Operation.initialize p = p
IsPermitted-IsCall Permit op p = tt

pub perform-IsSound :
    (op : Operation) → IsCall op → (s : SqliteControlStore) → IsSound s → IsSound (perform op s).1
perform-IsSound op c s h = record {
  consistent = perform-IsConsistent op s h.consistent;
  settled = perform-IsSettled op c s h.settled;
}

-- a call that writes over no stored Run
pub perform-Advances :
    (op : Operation)
    → IsPermitted Nothing op
    → (s : SqliteControlStore) → Advances s (perform op s).1
perform-Advances op p s =
    let c = IsPermitted-IsCall Nothing op p in
    record {
      sound = perform-IsSound op c s;
      later = λ before h. Holds-perform (Later-kept before) op c s h;
      reaches = λ before h. Reaches-others Step before op p s h;
    }

-- a call that writes a Run one step after one that was read
pub perform-writes :
    (run run' : RunRecord) (op : Operation)
    → IsPermitted (IsThis run' run.revision) op
    → run'.run_id ≡ run.run_id
    → Step run run'
    → (s : SqliteControlStore) → Known run s
    → Advances s (perform op s).1
perform-writes run run' op p own step s k =
    let c = IsPermitted-IsCall (IsThis run' run.revision) op p in
    record {
      sound = perform-IsSound op c s;
      later = λ before h. Holds-perform (Later-kept before) op c s h;
      reaches = λ before h. Reaches-writes Step before run' run.revision op p s h (record {
        on_disk = record {
          rows =
              IsAhead-known run run' k.row s.disk.runs k.id k.revision k.payload own
                k.later.on_disk.rows step;
        };
        in_working = record {
          rows =
              IsAhead-known run run' k.row (working s).runs k.id k.revision k.payload own
                k.later.in_working.rows step;
        };
      });
    }

-- a row that is found goes on from itself
Later-found :
    (row : RunRow) (rows : List RunRow)
    → fetch_one (has_key run_key row.run_id) rows ≡ some row
    → Later (row ∷ []) rows
Later-found row rows found id row' h = elim (Bool-cases (row.run_id == id)) [
  | inl same ↦
      let is : row ≡ row' = ground (arith, h, same) in
      let at : fetch_one (has_key run_key id) rows ≡ some row =
        subst (λ k. fetch_one (has_key run_key k) rows ≡ some row) (eq_of_beq row.run_id id same)
          found in
      (
        row,
        at,
        record {
          no_older = subst (λ r. r.revision ≤ row.revision) is (omega arith);
          same = λ _. sym is;
        },
      )
  | inr other ↦ absurd (ground (arith, h, other))
]

-- what stands in a row that is found is known
pub Known-row :
    (row : RunRow) (s : SqliteControlStore)
    → IsSound s
    → AgreesRun row
    → fetch_one (has_key run_key row.run_id) (working s).runs ≡ some row
    → Known row.payload s
Known-row row s sound agrees found =
    let later = Later-found row (working s).runs found in
    record {
      row = row;
      id = sym agrees.id;
      revision = sym agrees.revision;
      payload = refl;
      later = record {
        on_disk = record { rows = subst (λ db. Later (row ∷ []) db.runs) sound.settled later };
        in_working = record { rows = later };
      };
    }

-- what `get_run` returns is known
pub Known-get_run :
    (id : String) (s : SqliteControlStore) (run : RunRecord)
    → IsSound s
    → get_run_sync id (working s) ≡ ok run
    → Known run s
Known-get_run id s run sound h =
    let rows = (working s).runs in
    let (row, found, is) = row_of_run id (working s) run h in
    let agrees =
      All-fetch_one AgreesRun (has_key run_key id) rows sound.consistent.in_working.runs.agree
        found in
    let fits = eq_of_beq row.run_id id (fetch_one-fits (has_key run_key id) rows found) in
    subst (λ r. Known r s) is
      (Known-row row s sound agrees
        (subst (λ k. fetch_one (has_key run_key k) rows ≡ some row) (sym fits) found))
