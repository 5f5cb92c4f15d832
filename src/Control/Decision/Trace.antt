-- ===== src/Control/Decision/Trace.antt =====
-- What an operation that returns has done to the store on the way, whatever the other tasks did
-- between its calls, as long as they are fair.
use dsh_base_agent.Prelude.{
  ℕ, ◌≡◌, refl, String, Bool, true, false, Option, none, some, Result, ok, err, Error, subst, arith,
  if◌then◌else◌,
}
use dsh_base_agent.Models.{PlanRecord}
use dsh_base_agent.Store.Connection.{SqliteControlStore, working, query}
use dsh_base_agent.Store.Operation.{Operation, perform}
use dsh_base_agent.Store.Plans.{get_plan, get_plan_sync}
use dsh_base_agent.Store.Preservation.Calls.{IsCall}
use dsh_base_agent.Control.Failures.{Failure}
use dsh_base_agent.Control.Calls.{
  Env, World, Plane, then_plane, raised, outcome, mapped, await, call, catching, ◌>>=◌, pure,
}
use dsh_base_agent.Control.Guarantee.{
  IsSound, Advances, Advances-refl, Advances-trans, perform-IsSound,
}
use dsh_base_agent.Control.Rules.{IsFairEnv, Guarantees}
use dsh_base_agent.Control.Decision.Results.{OnOk, Ensures}

abbrev pub OnReturn :
    {A : Type 0} → (A → SqliteControlStore → Type 0) → Result Failure A × World → Type 0
OnReturn Q (ok a, w) = Q a w.control_store
OnReturn Q (err e, w) = Unit

pub returned_from :
    {A : Type 0} (Q : A → SqliteControlStore → Type 0) (a : A) (r : Result Failure A × World)
    → r.0 ≡ ok a
    → OnReturn Q r
    → Q a r.1.control_store
returned_from Q a (ok b, w) h q = subst (λ r. OnReturn Q (r, w)) h q
returned_from Q a (err e, w) h q = absurd (ground (arith, h))

-- Called on a sound store to which `start` has advanced, `m` returns what `Q` says, with the store
-- after it.
pub record From (env : Env) (start : SqliteControlStore) {A : Type 0}
    (Q : A → SqliteControlStore → Type 0) (m : Plane A) : Type 0 where
  pub at :
      (w : World) → IsSound w.control_store → Advances start w.control_store → OnReturn Q (m env w)

module _ (env : Env) (fair : IsFairEnv env) {A : Type 0} (start : SqliteControlStore)
    (Q : A → SqliteControlStore → Type 0) where
  pub From-pure :
      (a : A) → ((s : SqliteControlStore) → Advances start s → Q a s) → From env start Q (pure a)
  unfolding ◌>>=◌
  From-pure a h = record { at = λ w sound here. h w.control_store here }

  then_from :
      {B : Type 0} (P : B → Type 0) (f : B → Plane A) (r : Result Failure B) (w : World)
      → OnOk P r
      → IsSound w.control_store
      → Advances start w.control_store
      → ((b : B) → P b → From env start Q (f b))
      → OnReturn Q (then_plane (r, w) f env)
  then_from P f (ok b) w p sound here h = (h b p).at w sound here
  then_from P f (err e) w p sound here h = tt

  -- an operation that writes over no Run, with what it ensures
  pub From-both :
      {B : Type 0} (P : B → Type 0) (m : Plane B) (f : B → Plane A)
      → Guarantees none m
      → Ensures env P m
      → ((b : B) → P b → From env start Q (f b))
      → From env start Q (m >>= f)
  unfolding ◌>>=◌
  From-both P m f g k h = record {
    at = λ w sound here.
        let a = g.at env w fair sound tt in
        then_from P f (m env w).0 (m env w).1 (k.at w) (a.sound sound) (Advances-trans _ _ _ here a)
          h;
  }

  any_result : {B : Type 0} (r : Result Failure B) → OnOk (λ _. Unit {0}) r
  any_result (ok b) = tt
  any_result (err e) = tt

  pub From-bind :
      {B : Type 0} (m : Plane B) (f : B → Plane A)
      → Guarantees none m
      → ((b : B) → From env start Q (f b))
      → From env start Q (m >>= f)
  From-bind m f g h =
      From-both (λ _. Unit) m f g (record { at = λ w. any_result (m env w).0 }) (λ b _. h b)

  -- `get_plan`, with the store in which it finds the plan
  module _ (run_id : String) (f : PlanRecord → Plane A)
      (h : (plan : PlanRecord) (read : SqliteControlStore)
        → Advances start read
        → get_plan_sync run_id (working read) ≡ ok plan
        → From env read Q (f plan)) where
    read_plan :
        (read : SqliteControlStore) (steps : ℕ) (connected : Bool) (closed : Error)
        (r : Result Error PlanRecord)
        → IsSound read
        → Advances start read
        → get_plan_sync run_id (working read) ≡ r
        → (let after : Result Error PlanRecord × SqliteControlStore =
              if connected then (r, read) else (err closed, read) in
            OnReturn Q (
              then_plane (raised after.0, record { control_store = after.1; steps = steps }) f env))
    read_plan read steps true closed (ok plan) sound here found =
        (h plan read here found).at _ sound (Advances-refl read)
    read_plan read steps true closed (err e) sound here found = tt
    read_plan read steps false closed r sound here found = tt

    pub From-get_plan : From env start Q (await (get_plan run_id) >>= f)
    unfolding ◌>>=◌ get_plan query
    From-get_plan = record {
      at = λ w sound here.
          let a = fair w.steps w.control_store sound in
          read_plan (env.others w.steps w.control_store) _ _ _ _ (a.sound sound)
            (Advances-trans _ _ _ here a) refl;
    }

  -- a call that writes: what follows starts from the store after it
  module _ (op : Operation) (is_call : IsCall op) (handled : Error → Bool) (e : Failure)
      (f : Unit {0} → Plane A)
      (h : (before : SqliteControlStore)
        → IsSound before
        → Advances start before
        → (perform op before).0 ≡ none
        → From env (perform op before).1 Q (f tt)) where
    written :
        (before : SqliteControlStore) (steps : ℕ) (o : Option Error)
        → IsSound before
        → Advances start before
        → (perform op before).0 ≡ o
        → OnReturn Q (
            then_plane
              (
                mapped handled e (raised (outcome o)),
                record { control_store = (perform op before).1; steps = steps },
              )
              f
              env)
    written before steps none sound here returned =
        (h before sound here returned).at _ (perform-IsSound op is_call before sound)
          (Advances-refl _)
    written before steps (some error) sound here returned = raises (handled error)
      where
        raises :
            (b : Bool)
            → OnReturn Q (
                then_plane
                  (
                    if b then err e else err (Failure.store error),
                    record { control_store = (perform op before).1; steps = steps },
                  )
                  f
                  env)
        raises true = tt
        raises false = tt

    pub From-write : From env start Q (catching handled e (call op) >>= f)
    unfolding ◌>>=◌ call
    From-write = record {
      at = λ w sound here.
          let a = fair w.steps w.control_store sound in
          written (env.others w.steps w.control_store) _ _ (a.sound sound)
            (Advances-trans _ _ _ here a) refl;
    }
