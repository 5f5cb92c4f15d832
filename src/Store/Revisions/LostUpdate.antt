-- ===== src/Store/Revisions/LostUpdate.antt =====
-- Two writers that read the same revision cannot both write.
use dsh_base_agent.Prelude.{
  ℕ, ◌+◌, ◌≡◌, refl, subst, String, string_eq, nat_eq, true, none, some, List, arith, Result, ok,
  err, Error, revision_conflict, eq_refl,
}
use dsh_base_agent.Prelude.Lists.{All}
use dsh_base_agent.Models.{RunRecord}
use dsh_base_agent.Store.Tables.{Db}
use dsh_base_agent.Store.Connection.{SqliteControlStore, update_one}
use dsh_base_agent.Store.Statements.{get_run_sync}
use dsh_base_agent.Store.Runs.{replace_run}
use dsh_base_agent.Store.Operation.{Operation, report, perform, perform_all}
use dsh_base_agent.Store.Keeps.{Holds}
use dsh_base_agent.Store.Preservation.Calls.{IsCall}
use dsh_base_agent.Store.Consistency.{IsConsistent}
use dsh_base_agent.Store.Consistency.Operations.{perform-IsConsistent}
use dsh_base_agent.Store.Revisions.CompareAndSet.{view, replace_run-compare_and_set}
use dsh_base_agent.Store.Revisions.History.{revisions_grow}

-- An open store over a well-formed file, with no transaction left open.
pub record IsReady (s : SqliteControlStore) : Type 0 where
  pub connected : s.connected ≡ true
  pub idle : s.pending ≡ none
  pub consistent : Holds IsConsistent s

view-get_run :
    (db : Db) (id : String) (run : RunRecord) → view db id ≡ some run → get_run_sync id db ≡ ok run
unfolding get_run_sync
view-get_run db id run h = ground arith

get_run-view :
    (db : Db) (id : String) (run : RunRecord) → get_run_sync id db ≡ ok run → view db id ≡ some run
unfolding get_run_sync
get_run-view db id run h = ground arith

pub report_state : {A : Type 0} (r : Result Error A × SqliteControlStore) → (report r).1 ≡ r.1
report_state (ok a, s) = refl
report_state (err e, s) = refl

-- What a successful `replace_run` leaves.
module _ (run : RunRecord) (e : ℕ) (s : SqliteControlStore) (ready : IsReady s)
    (done : (replace_run run e s).0 ≡ ok tt) where
  counted : run.revision ≡ e + 1
  unfolding replace_run
  counted = ground arith

  stored : get_run_sync run.run_id (replace_run run e s).1.disk ≡ ok run
  stored =
      let cas =
        replace_run-compare_and_set run e s ready.connected ready.idle ready.consistent.on_disk in
      view-get_run (replace_run run e s).1.disk run.run_id run
        (ground (arith, cas.0, cas.1 run.run_id, eq_refl run.run_id))

  replace_run-IsConsistent : Holds IsConsistent (replace_run run e s).1
  unfolding perform
  replace_run-IsConsistent =
      subst (Holds IsConsistent) (report_state (replace_run run e s))
        (perform-IsConsistent (Operation.replace_run run e) s ready.consistent)

  closed : (replace_run run e s).1.pending ≡ none
  unfolding replace_run update_one
  closed = ground (arith, ready.idle)

-- After a successful replace_run, and after any further calls that leave the store open and no
-- transaction open, another replace_run of the same Run at the same expected revision raises
-- RevisionConflictError. At both replacements the committed database and what the connection sees
-- are well formed.
pub replace_run-replace_run :
    (a b : RunRecord) (e : ℕ) (s : SqliteControlStore) (ops : List Operation)
    → IsReady s
    → a.run_id ≡ b.run_id
    → b.revision ≡ e + 1
    → (replace_run a e s).0 ≡ ok tt
    → All IsCall ops
    → IsReady (perform_all ops (replace_run a e s).1)
    → (replace_run b e (perform_all ops (replace_run a e s).1)).0 ≡ err revision_conflict
replace_run-replace_run a b e s ops ready same next done calls later =
    let s1 = (replace_run a e s).1 in
    let s2 = perform_all ops s1 in
    let (run, found, no_older, _) =
      revisions_grow ops s1 a.run_id a calls (replace_run-IsConsistent a e s ready done)
        (closed a e s ready done) (stored a e s ready done) in
    let cas =
      replace_run-compare_and_set b e s2 later.connected later.idle later.consistent.on_disk in
    let seen : view s2.disk b.run_id ≡ some run =
      rw (← same) (get_run-view s2.disk a.run_id run found) in
    ground (arith, cas.0, seen, next, no_older, counted a e s ready done)
