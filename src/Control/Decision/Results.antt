-- ===== src/Control/Decision/Results.antt =====
-- What an operation of the control plane ensures when it returns, by rules for the ways to build
-- one.
use dsh_base_agent.Prelude.{◌≡◌, refl, Bool, true, false, Result, ok, err}
use dsh_base_agent.Control.Failures.{Failure}
use dsh_base_agent.Control.Calls.{Env, World, Plane, then_plane, ◌>>=◌, pure, raise_if}

abbrev pub OnOk : {A : Type 0} → (A → Type 0) → Result Failure A → Type 0
OnOk Q (ok a) = Q a
OnOk Q (err e) = Unit

-- what the operation returns, if it returns
pub record Ensures (env : Env) {A : Type 0} (Q : A → Type 0) (m : Plane A) : Type 0 where
  pub at : (w : World) → OnOk Q (m env w).0

module _ (env : Env) {A : Type 0} (Q : A → Type 0) where
  ensured :
      {B : Type 0} (P : B → Type 0) (f : B → Plane A) (r : Result Failure B) (w : World)
      → OnOk P r
      → ((b : B) → P b → Ensures env Q (f b))
      → OnOk Q (then_plane (r, w) f env).0
  ensured P f (ok b) w p h = (h b p).at w
  ensured P f (err e) w p h = tt

  -- with what the first operation ensures
  pub Ensures-both :
      {B : Type 0} (P : B → Type 0) (m : Plane B) (f : B → Plane A)
      → Ensures env P m
      → ((b : B) → P b → Ensures env Q (f b))
      → Ensures env Q (m >>= f)
  unfolding ◌>>=◌
  Ensures-both P m f k h = record { at = λ w. ensured P f (m env w).0 (m env w).1 (k.at w) h }

  pub Ensures-pure : (a : A) → Q a → Ensures env Q (pure a)
  unfolding ◌>>=◌
  Ensures-pure a q = record { at = λ w. q }

-- a test that lets what follows go on
pub Ensures-raise_if :
    (env : Env) (b : Bool) (e : Failure) → Ensures env (λ _. b ≡ false) (raise_if b e)
unfolding raise_if
Ensures-raise_if env true e = record { at = λ w. tt }
Ensures-raise_if env false e = record { at = λ w. refl }

pub Ensures-last :
    (env : Env) (Q : Type 0) (b : Bool) (e : Failure) → Q → Ensures env (λ _. Q) (raise_if b e)
unfolding raise_if
Ensures-last env Q true e q = record { at = λ w. tt }
Ensures-last env Q false e q = record { at = λ w. q }
