-- ===== src/Control/Sequence.antt =====
-- The guarantee of a sequence: what follows a reading knows the Run that was read, and what follows
-- a test knows its answer.
use dsh_base_agent.Prelude.{
  ◌≡◌, refl, String, Bool, true, false, Option, none, some, Result, ok, err, Error, if◌then◌else◌,
}
use dsh_base_agent.Models.{RunRecord}
use dsh_base_agent.Store.Connection.{SqliteControlStore, working, query}
use dsh_base_agent.Store.Statements.{get_run_sync}
use dsh_base_agent.Store.Runs.{get_run}
use dsh_base_agent.Control.Failures.{Failure, Principal}
use dsh_base_agent.Control.Calls.{
  Env, World, Plane, then_plane, raised, pure, await, ◌>>=◌, raise_if, or_raise,
}
use dsh_base_agent.Control.Shared.{owned_run}
use dsh_base_agent.Control.Guarantee.{
  IsSound, Advances, Advances-refl, Advances-trans, Known, Known-get_run,
}
use dsh_base_agent.Control.Rules.{
  IsFairEnv, Knows, Knows-Advances, Guarantees, OnFound, Finds, Guarantees-query, Guarantees-pure,
}

module _ {A B : Type 0} (known : Option RunRecord) where
  then_case :
      (f : A → Plane B) (env : Env) (r : Result Failure A) (w : World)
      → ((a : A) → r ≡ ok a → Guarantees known (f a))
      → IsFairEnv env
      → IsSound w.control_store
      → Knows known w.control_store
      → Advances w.control_store (then_plane (r, w) f env).1.control_store
  then_case f env (ok a) w g fair sound k = (g a refl).at env w fair sound k
  then_case f env (err e) w g fair sound k = Advances-refl w.control_store

  pub Guarantees-bind :
      (m : Plane A) (f : A → Plane B)
      → Guarantees known m
      → ((a : A) → Guarantees known (f a))
      → Guarantees known (m >>= f)
  unfolding ◌>>=◌
  Guarantees-bind m f g h = record {
    at = λ env w fair sound k.
        let a = g.at env w fair sound k in
        Advances-trans _ _ _ a (
          then_case f env (m env w).0 (m env w).1 (λ x _. h x) fair (a.sound sound)
            (Knows-Advances known _ _ a k));
  }

  or_raise_then :
      (o : Option A) (e : Failure) (f : A → Plane B) (env : Env) (w : World)
      → ((a : A) → o ≡ some a → Guarantees known (f a))
      → IsFairEnv env
      → IsSound w.control_store
      → Knows known w.control_store
      → Advances w.control_store (then_plane (or_raise o e env w) f env).1.control_store
  unfolding or_raise
  or_raise_then none e f env w g fair sound k = Advances-refl w.control_store
  or_raise_then (some a) e f env w g fair sound k = (g a refl).at env w fair sound k

  -- `o` is not empty in what follows
  pub Guarantees-found :
      (o : Option A) (e : Failure) (f : A → Plane B)
      → ((a : A) → o ≡ some a → Guarantees known (f a))
      → Guarantees known (or_raise o e >>= f)
  unfolding ◌>>=◌
  Guarantees-found o e f g = record {
    at = λ env w fair sound k. or_raise_then o e f env w g fair sound k;
  }

module _ {B : Type 0} (known : Option RunRecord) where
  raise_if_then :
      (b : Bool) (e : Failure) (f : Unit {0} → Plane B) (env : Env) (w : World)
      → (b ≡ false → Guarantees known (f tt))
      → IsFairEnv env
      → IsSound w.control_store
      → Knows known w.control_store
      → Advances w.control_store (then_plane (raise_if b e env w) f env).1.control_store
  unfolding raise_if
  raise_if_then true e f env w g fair sound k = Advances-refl w.control_store
  raise_if_then false e f env w g fair sound k = (g refl).at env w fair sound k

  -- the test is false in what follows
  pub Guarantees-guarded :
      (b : Bool) (e : Failure) (f : Unit {0} → Plane B)
      → (b ≡ false → Guarantees known (f tt))
      → Guarantees known (raise_if b e >>= f)
  unfolding ◌>>=◌
  Guarantees-guarded b e f g = record {
    at = λ env w fair sound k. raise_if_then b e f env w g fair sound k;
  }

module _ {A B : Type 0} (known : Option RunRecord) (about : A → Option RunRecord) where
  found_then :
      (f : A → Plane B) (env : Env) (r : Result Failure A) (w : World)
      → ((a : A) → Guarantees (about a) (f a))
      → IsFairEnv env
      → IsSound w.control_store
      → OnFound about r w.control_store
      → Advances w.control_store (then_plane (r, w) f env).1.control_store
  found_then f env (ok a) w g fair sound k = (g a).at env w fair sound k
  found_then f env (err e) w g fair sound k = Advances-refl w.control_store

  -- the Run that is read is known in what follows
  pub Guarantees-read :
      (m : Plane A) (f : A → Plane B)
      → Finds about m
      → ((a : A) → Guarantees (about a) (f a))
      → Guarantees known (m >>= f)
  unfolding ◌>>=◌
  Guarantees-read m f finds g = record {
    at = λ env w fair sound k.
        let a = finds.advances env w fair sound in
        Advances-trans _ _ _ a (
          found_then f env (m env w).0 (m env w).1 g fair (a.sound sound)
            (finds.found env w fair sound));
  }

module _ (id : String) (s : SqliteControlStore) (sound : IsSound s) where
  got : (r : Result Error RunRecord) → get_run_sync id (working s) ≡ r → OnFound some (raised r) s
  got (ok run) h = Known-get_run id s run sound h
  got (err e) h = tt

  connected_case :
      (connected : Bool) (closed : Error)
      → (let after : Result Error RunRecord × SqliteControlStore =
            if connected then (get_run_sync id (working s), s) else (err closed, s) in
          OnFound some (raised after.0) after.1)
  connected_case true closed = got (get_run_sync id (working s)) refl
  connected_case false closed = tt

pub Finds-get_run : (id : String) → Finds some (await (get_run id))
unfolding ◌>>=◌ get_run query
Finds-get_run id = record {
  advances = λ env w fair sound. (Guarantees-query none (get_run_sync id)).at env w fair sound tt;
  found = λ env w fair sound.
      let s = env.others w.steps w.control_store in
      connected_case id s ((fair w.steps w.control_store sound).sound sound) s.connected _;
}

-- a test of the Run that is read
module _ (test : RunRecord → Bool) (e : Failure) where
  if_passed :
      (b : Bool) (run : RunRecord) (env : Env) (w : World)
      → Known run w.control_store
      → OnFound some
          (then_plane (raise_if b e env w) (λ _. pure run) env).0
          (then_plane (raise_if b e env w) (λ _. pure run) env).1.control_store
  unfolding raise_if ◌>>=◌
  if_passed true run env w k = tt
  if_passed false run env w k = k

  then_tested :
      (env : Env) (r : Result Failure RunRecord) (w : World)
      → OnFound some r w.control_store
      → OnFound some
          (then_plane (r, w) (λ run. raise_if (test run) e >>= λ _. pure run) env).0
          (then_plane (r, w) (λ run. raise_if (test run) e >>= λ _. pure run) env).1.control_store
  unfolding ◌>>=◌
  then_tested env (ok run) w k = if_passed (test run) run env w k
  then_tested env (err raised_before) w k = tt

  Finds-tested :
      (m : Plane RunRecord)
      → Finds some m
      → Finds some (m >>= λ run. raise_if (test run) e >>= λ _. pure run)
  unfolding ◌>>=◌
  Finds-tested m finds = record {
    advances = λ env w fair sound.
        (Guarantees-bind none m (λ run. raise_if (test run) e >>= λ _. pure run)
            (record { at = λ env w fair sound k. finds.advances env w fair sound })
            (λ run. Guarantees-guarded none (test run) e _ (λ _. Guarantees-pure none run))).at
          env w fair sound tt;
    found =
        λ env w fair sound. then_tested env (m env w).0 (m env w).1 (finds.found env w fair sound);
  }

pub Finds-owned_run : (principal : Principal) (id : String) → Finds some (owned_run principal id)
unfolding owned_run
Finds-owned_run principal id = Finds-tested _ _ (await (get_run id)) (Finds-get_run id)

-- what was read is not needed
pub Finds-nothing :
    {A : Type 0} (about : A → Option RunRecord) (m : Plane A) → Finds about m → Finds (λ _. none) m
Finds-nothing {A = A} about m finds = record {
  advances = finds.advances;
  found = λ env w fair sound. forgotten (m env w).0 (m env w).1.control_store;
}
  where
    forgotten : (r : Result Failure A) (s : SqliteControlStore) → OnFound (λ _. none) r s
    forgotten (ok a) s = tt
    forgotten (err e) s = tt

pub Guarantees-weaken :
    {A : Type 0} (run : RunRecord) (m : Plane A) → Guarantees none m → Guarantees (some run) m
Guarantees-weaken run m g = record { at = λ env w fair sound k. g.at env w fair sound tt }
