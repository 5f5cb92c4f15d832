-- ===== src/Control/Rules.antt =====
-- The guarantee of an operation from those of its parts, one rule for each way to build one.
use dsh_base_agent.Prelude.{
  ◌≡◌, refl, subst, Bool, true, false, Option, none, some, Result, ok, err, Error, arith,
  if◌then◌else◌, ℕ,
}
use dsh_base_agent.Models.{RunRecord}
use dsh_base_agent.Store.Connection.{SqliteControlStore, Exec, query}
use dsh_base_agent.Store.Tables.{Db}
use dsh_base_agent.Store.Operation.{Operation}
use dsh_base_agent.Store.Preservation.Calls.{IsPermitted}
use dsh_base_agent.Store.Transitions.Operations.{IsThis, Nothing}
use dsh_base_agent.Control.Failures.{Failure}
use dsh_base_agent.Control.Calls.{
  Env, World, Plane, pure, raise, await, catching, handling, handled_by, call, ask, new_id, utc_now,
  ◌>>=◌, raise_if, or_raise,
}
use dsh_base_agent.Control.Lifecycle.{Step}
use dsh_base_agent.Control.Guarantee.{
  IsSound, Advances, Advances-refl, Advances-trans, IsFair, Known, Known-Advances, perform-Advances,
  perform-writes,
}

-- the other tasks are fair at every step
abbrev pub IsFairEnv : Env → Type 0
IsFairEnv env = (n : ℕ) → IsFair (env.others n)

abbrev pub Knows : Option RunRecord → SqliteControlStore → Type 0
Knows none s = Unit
Knows (some run) s = Known run s

pub Knows-Advances :
    (known : Option RunRecord) (s s' : SqliteControlStore)
    → Advances s s'
    → Knows known s
    → Knows known s'
Knows-Advances none s s' a k = tt
Knows-Advances (some run) s s' a k = Known-Advances run s s' a k

-- Called when `known` was read before, the operation advances the store.
pub record Guarantees {A : Type 0} (known : Option RunRecord) (m : Plane A) : Type 0 where
  pub at :
      (env : Env) (w : World)
      → IsFairEnv env
      → IsSound w.control_store
      → Knows known w.control_store
      → Advances w.control_store (m env w).1.control_store

abbrev pub OnFound :
    {A : Type 0} → (A → Option RunRecord) → Result Failure A → SqliteControlStore → Type 0
OnFound about (ok a) s = Knows (about a) s
OnFound about (err e) s = Unit

-- The operation reads the Run that its result is about.
pub record Finds {A : Type 0} (about : A → Option RunRecord) (m : Plane A) : Type 0 where
  pub advances :
      (env : Env) (w : World)
      → IsFairEnv env
      → IsSound w.control_store
      → Advances w.control_store (m env w).1.control_store
  pub found :
      (env : Env) (w : World)
      → IsFairEnv env
      → IsSound w.control_store
      → OnFound about (m env w).0 (m env w).1.control_store

module _ {A : Type 0} (known : Option RunRecord) where
  pub Guarantees-pure : (a : A) → Guarantees known (pure a)
  unfolding ◌>>=◌
  Guarantees-pure a = record { at = λ env w fair sound k. Advances-refl w.control_store }

  pub Guarantees-raise : (e : Failure) → Guarantees known (raise {A = A} e)
  unfolding ◌>>=◌
  Guarantees-raise e = record { at = λ env w fair sound k. Advances-refl w.control_store }

  pub Guarantees-ask : (f : Env → A) → Guarantees known (ask f)
  unfolding ◌>>=◌
  Guarantees-ask f = record { at = λ env w fair sound k. Advances-refl w.control_store }

  or_raise_case :
      (o : Option A) (e : Failure) (env : Env) (w : World)
      → Advances w.control_store (or_raise o e env w).1.control_store
  unfolding or_raise
  or_raise_case none e env w = Advances-refl w.control_store
  or_raise_case (some a) e env w = Advances-refl w.control_store

  pub Guarantees-or_raise : (o : Option A) (e : Failure) → Guarantees known (or_raise o e)
  Guarantees-or_raise o e = record { at = λ env w fair sound k. or_raise_case o e env w }

  -- a call that reads, or one that writes over no Run
  pub Guarantees-await :
      (m : Exec A) → ((s : SqliteControlStore) → Advances s (m s).1) → Guarantees known (await m)
  unfolding ◌>>=◌
  Guarantees-await m advances = record {
    at = λ env w fair sound k.
        Advances-trans _ _ _ (fair w.steps w.control_store sound)
          (advances (env.others w.steps w.control_store));
  }

  query_state : (read : Db → Result Error A) (s : SqliteControlStore) → s ≡ (query read s).1
  unfolding query
  query_state read s = ground arith

  pub Guarantees-query : (read : Db → Result Error A) → Guarantees known (await (query read))
  Guarantees-query read =
      Guarantees-await (query read) (λ s. subst (Advances s) (query_state read s) (Advances-refl s))

  pub Guarantees-catching :
      (handled : Error → Bool) (e : Failure) (m : Plane A)
      → Guarantees known m
      → Guarantees known (catching handled e m)
  unfolding ◌>>=◌
  Guarantees-catching handled e m g = record { at = λ env w fair sound k. g.at env w fair sound k }

  handled_case :
      (handler : Failure → Plane A) (env : Env) (r : Result Failure A) (w : World)
      → IsFairEnv env
      → IsSound w.control_store
      → Knows known w.control_store
      → ((e : Failure) → Guarantees known (handler e))
      → Advances w.control_store (handled_by handler env (r, w)).1.control_store
  handled_case handler env (ok a) w fair sound k h = Advances-refl w.control_store
  handled_case handler env (err e) w fair sound k h = (h e).at env w fair sound k

  pub Guarantees-handling :
      (m : Plane A) (handler : Failure → Plane A)
      → Guarantees known m
      → ((e : Failure) → Guarantees known (handler e))
      → Guarantees known (handling m handler)
  unfolding ◌>>=◌
  Guarantees-handling m handler g h = record {
    at = λ env w fair sound k.
        let a = g.at env w fair sound k in
        Advances-trans _ _ _ a (
          handled_case handler env (m env w).0 (m env w).1 fair (a.sound sound)
            (Knows-Advances known _ _ a k) h);
  }

  pub Guarantees-if :
      (b : Bool) (m n : Plane A)
      → (b ≡ true → Guarantees known m)
      → (b ≡ false → Guarantees known n)
      → Guarantees known (if b then m else n)
  Guarantees-if true m n g h = g refl
  Guarantees-if false m n g h = h refl

module _ (known : Option RunRecord) where
  pub Guarantees-new_id : Guarantees known new_id
  unfolding ◌>>=◌
  Guarantees-new_id = record { at = λ env w fair sound k. Advances-refl w.control_store }

  pub Guarantees-utc_now : Guarantees known utc_now
  unfolding ◌>>=◌
  Guarantees-utc_now = record { at = λ env w fair sound k. Advances-refl w.control_store }

  raise_if_case :
      (b : Bool) (e : Failure) (env : Env) (w : World)
      → Advances w.control_store (raise_if b e env w).1.control_store
  unfolding raise_if
  raise_if_case true e env w = Advances-refl w.control_store
  raise_if_case false e env w = Advances-refl w.control_store

  pub Guarantees-raise_if : (b : Bool) (e : Failure) → Guarantees known (raise_if b e)
  Guarantees-raise_if b e = record { at = λ env w fair sound k. raise_if_case b e env w }

  pub Guarantees-call : (op : Operation) → IsPermitted Nothing op → Guarantees known (call op)
  unfolding call ◌>>=◌
  Guarantees-call op p = record {
    at = λ env w fair sound k.
        Advances-trans _ _ _ (fair w.steps w.control_store sound)
          (perform-Advances op p (env.others w.steps w.control_store));
  }

-- a call that writes a Run one step after the one that was read
pub Guarantees-write :
    (run run' : RunRecord) (op : Operation)
    → IsPermitted (IsThis run' run.revision) op
    → run'.run_id ≡ run.run_id
    → Step run run'
    → Guarantees (some run) (call op)
unfolding call ◌>>=◌
Guarantees-write run run' op p own step = record {
  at = λ env w fair sound k.
      let first = fair w.steps w.control_store sound in
      Advances-trans _ _ _ first (
        perform-writes run run' op p own step (env.others w.steps w.control_store)
          (Known-Advances run _ _ first k));
}
