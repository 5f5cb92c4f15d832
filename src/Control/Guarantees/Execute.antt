-- ===== src/Control/Guarantees/Execute.antt =====
-- The guarantees of `_execute` and of `_recover_startup`.
use dsh_base_agent.Prelude.{
  ℕ, ◌≡◌, refl, String, Bool, true, false, Option, none, some, Result, ok, err, arith, ◌!=◌,
  lease_lost, if◌then◌else◌,
}
use dsh_base_agent.Models.{RunRecord, RunStatus, run_status_eq, RunPhase, RunAttempt, WorkLease}
use dsh_base_agent.Store.Connection.{SqliteControlStore}
use dsh_base_agent.Store.Runs.{get_run}
use dsh_base_agent.Control.Failures.{Failure}
use dsh_base_agent.Control.Calls.{
  Env, World, Plane, then_plane, handled_by, pure, raise, await, handling, utc_now, ◌>>=◌,
}
use dsh_base_agent.Control.Execute.{
  Turn, start, finish, settle_exception, on_exception, unless_lease_lost, prepare, prepare_queued,
  check_agent, execute_prepared, execute, started_run,
}
use dsh_base_agent.Control.Lifecycle.{Move}
use dsh_base_agent.Control.Guarantee.{
  IsSound, Advances, Advances-refl, Advances-trans, Known, Known-Advances,
}
use dsh_base_agent.Control.Rules.{
  IsFairEnv, Guarantees, Guarantees-pure, Guarantees-raise, Guarantees-ask, Guarantees-handling,
  Guarantees-write, OnFound,
}
use dsh_base_agent.Control.Sequence.{
  Guarantees-bind, Guarantees-read, Guarantees-weaken, Finds-get_run,
}
use dsh_base_agent.Control.Guarantees.Shared.{guarantee_rules, report_rules}
use dsh_base_agent.Control.Guarantees.Settle.{
  Guarantees-settle_planning, Guarantees-settle_success, Guarantees-settle_failure,
}

Move-begin :
    (s : RunStatus) (p : RunPhase) → (s != RunStatus.queued) ≡ false → Move s p RunStatus.running p
Move-begin RunStatus.queued p h = Move.begin
Move-begin RunStatus.running p h = cc
Move-begin RunStatus.waiting p h = cc
Move-begin RunStatus.succeeded p h = cc
Move-begin RunStatus.failed p h = cc
Move-begin RunStatus.cancelled p h = cc

module _ (run : RunRecord) (attempt : RunAttempt) (lease : Option WorkLease) where
  Guarantees-finish : (turn : Turn) → Guarantees none (finish run attempt turn lease)
  unfolding finish
  Guarantees-finish (Turn.responded output reason) =
      Guarantees-settle_success run attempt lease output reason
  Guarantees-finish (Turn.proposed plan output reason) =
      Guarantees-settle_planning run attempt lease plan output reason
  Guarantees-finish (Turn.broken failure) = Guarantees-raise none failure
  Guarantees-finish Turn.asked = Guarantees-pure none tt

  Guarantees-unless_lease_lost :
      (m : Plane (Unit {0})) (failure : Failure)
      → Guarantees none m
      → Guarantees none (unless_lease_lost m failure)
  Guarantees-unless_lease_lost m (Failure.store lease_lost) g = Guarantees-pure none tt
  Guarantees-unless_lease_lost m failure g = g

  Guarantees-settle_exception :
      (failure : Failure) → Guarantees none (settle_exception run attempt lease failure)
  unfolding settle_exception
  Guarantees-settle_exception failure = Guarantees-bind none _ _ (Guarantees-ask none _) λ message.
      Guarantees-handling none _ _ (Guarantees-settle_failure run attempt lease message.0 message.1)
        (λ e. Guarantees-unless_lease_lost (raise e) e (Guarantees-raise none e))

  Guarantees-on_exception :
      (failure : Failure) → Guarantees none (on_exception run attempt lease failure)
  Guarantees-on_exception failure =
      Guarantees-unless_lease_lost _ failure (Guarantees-settle_exception failure)

-- the start of a queued Run
module _ (run_id : String) (current : RunRecord)
    (queued : (current.status != RunStatus.queued) ≡ false) where
  Guarantees-start :
      (attempt_id : String) (now : ℕ) (attempt : RunAttempt) (lease : Option WorkLease)
      → Guarantees
          (some current)
          (start run_id current (started_run current attempt_id now) attempt lease)
  unfolding start
  Guarantees-start attempt_id now attempt lease =
      Guarantees-bind (some current) _ _
        (Guarantees-write current (started_run current attempt_id now) _ (refl, refl) refl
          (record {
            submitted = refl;
            counted = omega arith;
            attempted = omega arith;
            moved = Move-begin current.status current.phase queued;
          }))
        (λ _. search report_rules depth 12)

  Guarantees-attempt :
      (turn : Turn) (lease : Option WorkLease) (created : ℕ)
      → Guarantees (some current) (execute_prepared run_id turn lease (some (current, created)))
  unfolding execute_prepared
  Guarantees-attempt turn lease created =
      Guarantees-bind (some current) _ _ (search guarantee_rules) λ attempt_id.
        Guarantees-bind (some current) _ _ (search guarantee_rules) λ session.
          Guarantees-bind (some current) _ _ (search guarantee_rules) λ now.
            Guarantees-handling (some current) _ _
              (Guarantees-bind (some current) _ _ (Guarantees-start attempt_id now _ lease)
                (λ _. Guarantees-weaken current _ (Guarantees-finish _ _ lease turn)))
              (λ e. Guarantees-weaken current _ (Guarantees-on_exception _ _ lease e))

-- what `prepare` returns: a Run that is known, and was queued
abbrev Prepared : Option (RunRecord × ℕ) → SqliteControlStore → Type 0
Prepared none s = Unit
Prepared (some (current, created)) s =
    Known current s × ((current.status != RunStatus.queued) ≡ false)

abbrev OnPrepared : Result Failure (Option (RunRecord × ℕ)) → SqliteControlStore → Type 0
OnPrepared (ok o) s = Prepared o s
OnPrepared (err e) s = Unit

Guarantees-check_agent :
    (known : Option RunRecord) (current : RunRecord) → Guarantees known (check_agent current)
unfolding check_agent
Guarantees-check_agent known current = search report_rules depth 12

abbrev with_time : RunRecord → Unit {0} → Plane (Option (RunRecord × ℕ))
with_time current _ = utc_now >>= λ created. pure (some (current, created))

module _ (env : Env) (fair : IsFairEnv env) where
  module _ (current : RunRecord) where
    after_check :
        (r : Result Failure (Unit {0})) (w : World)
        → Known current w.control_store
        → (current.status != RunStatus.queued) ≡ false
        → OnPrepared
            (then_plane (r, w) (with_time current) env).0
            (then_plane (r, w) (with_time current) env).1.control_store
    unfolding ◌>>=◌
    after_check (ok _) w k queued = (k, queued)
    after_check (err e) w k queued = tt

    queued_case :
        (b : Bool) (w : World)
        → (current.status != RunStatus.queued) ≡ b
        → IsSound w.control_store
        → Known current w.control_store
        → (let m : Plane (Option (RunRecord × ℕ)) =
              if b then pure none else check_agent current >>= with_time current in
            OnPrepared (m env w).0 (m env w).1.control_store)
    unfolding ◌>>=◌
    queued_case true w h sound k = tt
    queued_case false w h sound k =
        let a = (Guarantees-check_agent (some current) current).at env w fair sound k in
        after_check (check_agent current env w).0 (check_agent current env w).1
          (Known-Advances current _ _ a k) h

  after_read :
      (r : Result Failure RunRecord) (w : World)
      → IsSound w.control_store
      → OnFound some r w.control_store
      → OnPrepared
          (then_plane (r, w) prepare_queued env).0
          (then_plane (r, w) prepare_queued env).1.control_store
  unfolding prepare_queued
  after_read (ok current) w sound k =
      queued_case current (current.status != RunStatus.queued) w refl sound k
  after_read (err e) w sound k = tt

  swallowed :
      (r : Result Failure (Option (RunRecord × ℕ))) (w : World)
      → OnPrepared r w.control_store
      → OnPrepared
          (handled_by (λ e. pure none) env (r, w)).0
          (handled_by (λ e. pure none) env (r, w)).1.control_store
  unfolding ◌>>=◌
  swallowed (ok o) w k = k
  swallowed (err e) w k = tt

  prepare_found :
      (run_id : String) (w : World)
      → IsSound w.control_store
      → OnPrepared
          (handling (prepare run_id) (λ e. pure none) env w).0
          (handling (prepare run_id) (λ e. pure none) env w).1.control_store
  unfolding prepare ◌>>=◌
  prepare_found run_id w sound =
      let finds = Finds-get_run run_id in
      let read = await (get_run run_id) env w in
      let w' = (then_plane read prepare_queued env).1 in
      swallowed (then_plane read prepare_queued env).0 w' (
        after_read read.0 read.1 ((finds.advances env w fair sound).sound sound)
          (finds.found env w fair sound))

  then_prepared :
      (run_id : String) (turn : Turn) (lease : Option WorkLease)
      (r : Result Failure (Option (RunRecord × ℕ))) (w : World)
      → IsSound w.control_store
      → OnPrepared r w.control_store
      → Advances w.control_store
          (then_plane (r, w) (execute_prepared run_id turn lease) env).1.control_store
  unfolding execute_prepared ◌>>=◌
  then_prepared run_id turn lease (ok none) w sound k = Advances-refl w.control_store
  then_prepared run_id turn lease (ok (some (current, created))) w sound (k, queued) =
      (Guarantees-attempt run_id current queued turn lease created).at env w fair sound k
  then_prepared run_id turn lease (err e) w sound k = Advances-refl w.control_store

Guarantees-prepare_queued :
    (known : Option RunRecord) (current : RunRecord) → Guarantees known (prepare_queued current)
unfolding prepare_queued
Guarantees-prepare_queued known current = search (guarantee_rules, Guarantees-check_agent) depth 12

Guarantees-prepare :
    (run_id : String) → Guarantees none (handling (prepare run_id) (λ e. pure none))
unfolding prepare
Guarantees-prepare run_id =
    Guarantees-handling none _ _
      (Guarantees-read none some _ _ (Finds-get_run run_id)
        (λ current. Guarantees-prepare_queued (some current) current))
      (λ e. Guarantees-pure none none)

pub Guarantees-execute :
    (run_id : String) (lease : Option WorkLease) (turn : Turn)
    → Guarantees none (execute run_id lease turn)
unfolding execute ◌>>=◌
Guarantees-execute run_id lease turn = record {
  at = λ env w fair sound k.
      let m = handling (prepare run_id) (λ e. pure none) in
      let a = (Guarantees-prepare run_id).at env w fair sound tt in
      Advances-trans _ _ _ a (
        then_prepared env fair run_id turn lease (m env w).0 (m env w).1 (a.sound sound)
          (prepare_found env fair run_id w sound));
}
