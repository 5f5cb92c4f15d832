-- ===== src/Control/Guarantees/Recover.antt =====
-- The guarantee of `_recover_startup`.
use dsh_base_agent.Prelude.{
  ℕ, ◌≡◌, refl, String, string_eq, Bool, true, false, Option, none, some, List, [], ◌∷◌, map,
  Result, ok, err, Error, arith, ◌==◌, eq_refl, beq_comm, Eq, if◌then◌else◌, Bool-cases, inl, inr,
}
use dsh_base_agent.Prelude.Lists.{any, All, All-any}
use dsh_base_agent.Prelude.Sets.{All-map, All-both}
use dsh_base_agent.Models.{RunRecord, RunStatus, run_status_eq, RunAttempt}
use dsh_base_agent.Sql.{fetch_one, fetch_all, has_key, IsKeyed}
use dsh_base_agent.Store.Tables.{run_key}
use dsh_base_agent.Store.Connection.{SqliteControlStore, working, query}
use dsh_base_agent.Store.Operation.{Operation}
use dsh_base_agent.Store.Runs.{list_runs}
use dsh_base_agent.Store.Attempts.{get_attempt}
use dsh_base_agent.Store.Consistency.{AgreesRun}
use dsh_base_agent.Control.Failures.{Failure}
use dsh_base_agent.Control.Calls.{Env, World, then_plane, raised, await, call, ◌>>=◌}
use dsh_base_agent.Control.Settle.{failed_run}
use dsh_base_agent.Control.Execute.{
  interrupt, interrupted_attempt, restart_message, recover_run, recover_runs, recover_startup,
}
use dsh_base_agent.Control.Lifecycle.{Move}
use dsh_base_agent.Control.Guarantee.{
  IsSound, Advances, Advances-refl, Advances-trans, Known, Known-Advances, Known-row,
}
use dsh_base_agent.Control.Rules.{IsFairEnv, Guarantees, Guarantees-write}
use dsh_base_agent.Control.Guarantees.Shared.{guarantee_rules, report_rules}

module _ (run : RunRecord) (kept : (run.status == RunStatus.cancelled) ≡ false) where
  write_failed :
      (now : ℕ)
      → Guarantees
          (some run)
          (call (Operation.replace_run (failed_run run restart_message now) run.revision))
  write_failed now =
      Guarantees-write run (failed_run run restart_message now) _ (refl, refl) refl
        (record {
          submitted = refl;
          counted = omega arith;
          attempted = omega arith;
          moved = Move.fail kept;
        })

  write_interrupted :
      (attempt : RunAttempt) (now : ℕ)
      → Guarantees (some run) (
          call (
            Operation.settle_attempt
              (failed_run run restart_message now)
              (interrupted_attempt attempt restart_message now)
              run.revision
              attempt.revision
              none
              none
              none))
  write_interrupted attempt now =
      Guarantees-write run (failed_run run restart_message now) _ (refl, refl) refl
        (record {
          submitted = refl;
          counted = omega arith;
          attempted = omega arith;
          moved = Move.fail kept;
        })

  Guarantees-interrupt :
      (now : ℕ) (active : Option String) → Guarantees (some run) (interrupt run now active)
  unfolding interrupt get_attempt
  Guarantees-interrupt now none = write_failed now
  Guarantees-interrupt now (some attempt_id) = search (report_rules, write_interrupted) depth 20

  Guarantees-recover_run : Guarantees (some run) (recover_run run)
  unfolding recover_run
  Guarantees-recover_run = search (report_rules, Guarantees-interrupt) depth 40

-- with a unique key each row is the one that is found under its key
All-found :
    {R K : Type 0} ⦃e : Eq K⦄ (key : R → K) (rows : List R)
    → IsKeyed key rows
    → All (λ r. fetch_one (has_key key (key r)) rows ≡ some r) rows
All-found key [] keyed = tt
All-found key (x ∷ xs) keyed = (
  rw (eq_refl (key x)) refl,
  All-map (λ r (other, found). ground (arith, other, beq_comm (key x) (key r), found)) xs
      (All-both _ _ xs (All-any (has_key key (key x)) xs keyed.0) (All-found key xs keyed.1)),
)

All-listed :
    {R A : Type 0} (P : R → Type 0) (Q : A → Type 0) (p : R → Bool) (f : R → A) (rows : List R)
    → ((r : R) → P r → p r ≡ true → Q (f r))
    → All P rows
    → All Q (map f (fetch_all p rows))
All-listed P Q p f [] h a = tt
All-listed P Q p f (r ∷ rs) h a = elim (Bool-cases (p r)) [
  | inl e ↦ rw e (h r a.0 e, All-listed P Q p f rs h a.1)
  | inr e ↦ rw e (All-listed P Q p f rs h a.1)
]

-- a Run that was read and was not cancelled then
abbrev Recoverable : RunRecord → SqliteControlStore → Type 0
Recoverable run s = Known run s × ((run.status == RunStatus.cancelled) ≡ false)

abbrev unsettled : List RunStatus
unsettled = RunStatus.queued ∷ RunStatus.running ∷ []

unsettled_kept :
    (status : RunStatus)
    → any (λ s. status == s) unsettled ≡ true
    → (status == RunStatus.cancelled) ≡ false
unsettled_kept RunStatus.queued h = refl
unsettled_kept RunStatus.running h = refl
unsettled_kept RunStatus.waiting h = refl
unsettled_kept RunStatus.succeeded h = refl
unsettled_kept RunStatus.failed h = refl
unsettled_kept RunStatus.cancelled h = cc

abbrev OnListed : Result Failure (List RunRecord) → SqliteControlStore → Type 0
OnListed (ok runs) s = All (λ run. Recoverable run s) runs
OnListed (err e) s = Unit

connected_case :
    (connected : Bool) (runs : List RunRecord) (e : Error) (s : SqliteControlStore)
    → All (λ run. Recoverable run s) runs
    → (let after : Result Error (List RunRecord) × SqliteControlStore =
          if connected then (ok runs, s) else (err e, s) in
        OnListed (raised after.0) after.1)
connected_case true runs e s known = known
connected_case false runs e s known = tt

listed :
    (s : SqliteControlStore)
    → IsSound s
    → OnListed (raised (list_runs unsettled s).0) (list_runs unsettled s).1
unfolding list_runs query
listed s sound =
    let table = sound.consistent.in_working.runs in
    connected_case s.connected _ _ s (
      All-listed
        (λ row.
          (fetch_one (has_key run_key row.run_id) (working s).runs ≡ some row) × AgreesRun row)
        (λ run. Recoverable run s) _ (λ row. row.payload) (working s).runs
        (λ row (found, agrees) h.
          (Known-row row s sound agrees found, rw agrees.status (unsettled_kept row.status h)))
        (All-both _ _ (working s).runs (All-found run_key (working s).runs table.keyed)
          table.agree))

Guarantees-list_runs : Guarantees none (await (list_runs unsettled))
unfolding list_runs
Guarantees-list_runs = search guarantee_rules

module _ (env : Env) (fair : IsFairEnv env) where
  then_rest :
      (rest : List RunRecord) (r : Result Failure (Unit {0})) (w : World)
      → ((w' : World)
          → IsSound w'.control_store
          → All (λ run. Recoverable run w'.control_store) rest
          → Advances w'.control_store (recover_runs rest env w').1.control_store)
      → IsSound w.control_store
      → All (λ run. Recoverable run w.control_store) rest
      → Advances w.control_store (then_plane (r, w) (λ _. recover_runs rest) env).1.control_store
  then_rest rest (ok _) w go sound known = go w sound known
  then_rest rest (err e) w go sound known = Advances-refl w.control_store

  recover_runs-Advances :
      (runs : List RunRecord) (w : World)
      → IsSound w.control_store
      → All (λ run. Recoverable run w.control_store) runs
      → Advances w.control_store (recover_runs runs env w).1.control_store
  unfolding recover_runs ◌>>=◌
  recover_runs-Advances [] w sound known = Advances-refl w.control_store
  recover_runs-Advances (run ∷ rest) w sound ((k, kept), others) =
      let a = (Guarantees-recover_run run kept).at env w fair sound k in
      Advances-trans _ _ _ a (
        then_rest rest (recover_run run env w).0 (recover_run run env w).1
          (recover_runs-Advances rest) (a.sound sound)
          (All-map (λ r (known, still). (Known-Advances r _ _ a known, still)) rest others))

  then_recover :
      (r : Result Failure (List RunRecord)) (w : World)
      → IsSound w.control_store
      → OnListed r w.control_store
      → Advances w.control_store (then_plane (r, w) recover_runs env).1.control_store
  then_recover (ok runs) w sound known = recover_runs-Advances runs w sound known
  then_recover (err e) w sound known = Advances-refl w.control_store

pub Guarantees-recover_startup : Guarantees none recover_startup
unfolding recover_startup await ◌>>=◌
Guarantees-recover_startup = record {
  at = λ env w fair sound k.
      let first = fair w.steps w.control_store sound in
      let a = Guarantees-list_runs.at env w fair sound tt in
      let read = await (list_runs unsettled) env w in
      Advances-trans _ _ _ a (
        then_recover env fair read.0 read.1 (a.sound sound)
          (listed (env.others w.steps w.control_store) (first.sound sound)));
}
