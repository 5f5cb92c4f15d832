-- ===== src/Control/Calls.antt =====
-- Operations of the control plane as calls of the store. Between two calls other tasks run: each
-- `await` of the store begins with what they have done to it.
use dsh_base_agent.Prelude.{
  ℕ, ◌+◌, String, List, Bool, true, false, Option, none, some, Result, ok, err, Error,
  if◌then◌else◌,
}
use dsh_base_agent.Models.{Json}
use dsh_base_agent.Control.UserInput.{UserQuestion, UserAnswer}
use dsh_base_agent.Store.Connection.{SqliteControlStore, Exec}
use dsh_base_agent.Store.Operation.{Operation, perform}
use dsh_base_agent.Control.Failures.{Failure, Principal, Agent, PlanApprovalResponse}

-- What an operation does not decide. `others n` is what the other tasks do to the store before the
-- n-th step, `new_id n` and `utc_now n` what is drawn there. The rest is the registry of Agents
-- and the code of other libraries: the authorizer, which returns the class of what it raises,
-- hashing, the parsing and the dumps of pydantic, the formatting of
-- `f"session_{run_id}_{number}"`, and the class of an exception with its text.
pub record Env : Type 0 where
  pub others : ℕ → SqliteControlStore → SqliteControlStore
  pub new_id : ℕ → String
  pub utc_now : ℕ → ℕ
  pub agents : String → Option Agent
  pub authorize_run : Principal → Agent → Option String
  pub sha256 : String → String
  pub digest : Json → String
  pub workflow_script : String
  pub parse_plan_response : Json → Option PlanApprovalResponse
  pub session_id : String → ℕ → String
  pub parse_questions : Option Json → Option (List UserQuestion)
  pub parse_answers : Json → Option (List UserAnswer)
  pub answers_json : List UserAnswer → Json
  pub message_of : Failure → String × String

pub record World : Type 0 where
  pub control_store : SqliteControlStore
  pub steps : ℕ

abbrev pub Plane : Type 0 → Type 0
Plane A = Env → World → Result Failure A × World

abbrev pub then_plane :
    {A B : Type 0} → Result Failure A × World → (A → Plane B) → Env → Result Failure B × World
then_plane (ok a, w) f env = f a env w
then_plane (err e, w) f env = (err e, w)

unfoldable pub pure : {A : Type 0} → A → Plane A
pure a env w = (ok a, w)

unfoldable pub raise : {A : Type 0} → Failure → Plane A
raise e env w = (err e, w)

abbrev next_step : World → SqliteControlStore → World
next_step w s = record w { control_store = s; steps = w.steps + 1 }

abbrev pub raised : {A : Type 0} → Result Error A → Result Failure A
raised (ok a) = ok a
raised (err e) = err (Failure.store e)

-- `await self.store.m(...)`
unfoldable pub await : {A : Type 0} → Exec A → Plane A
await m env w =
    let after = m (env.others w.steps w.control_store) in (raised after.0, next_step w after.1)

-- `except handled as exc: raise failure from exc`, for errors of the store
abbrev pub mapped : {A : Type 0} → (Error → Bool) → Failure → Result Failure A → Result Failure A
mapped handled failure (ok a) = ok a
mapped handled failure (err (Failure.store e)) =
    if handled e then err failure else err (Failure.store e)
mapped handled failure (err e) = err e

unfoldable pub catching : {A : Type 0} → (Error → Bool) → Failure → Plane A → Plane A
catching handled failure m env w = let after = m env w in (mapped handled failure after.0, after.1)

-- `except` clauses for every exception, with a handler
abbrev pub handled_by :
    {A : Type 0} → (Failure → Plane A) → Env → Result Failure A × World → Result Failure A × World
handled_by handler env (ok a, w) = (ok a, w)
handled_by handler env (err e, w) = handler e env w

unfoldable pub handling : {A : Type 0} → Plane A → (Failure → Plane A) → Plane A
handling m handler env w = handled_by handler env (m env w)

abbrev pub outcome : Option Error → Result Error (Unit {0})
outcome none = ok tt
outcome (some e) = err e

-- a call that writes, whose result is not used
unfoldable pub call : Operation → Plane (Unit {0})
unfolding await
call op = await (λ s. let after = perform op s in (outcome after.0, after.1))

unfoldable pub ask : {A : Type 0} → (Env → A) → Plane A
ask f env w = (ok (f env), w)

unfoldable pub new_id : Plane String
new_id env w = (ok (env.new_id w.steps), record w { steps = w.steps + 1 })

unfoldable pub utc_now : Plane ℕ
utc_now env w = (ok (env.utc_now w.steps), record w { steps = w.steps + 1 })

infixl 5 ◌>>=◌ ◌>>◌
unfoldable pub ◌>>=◌ : {A B : Type 0} → Plane A → (A → Plane B) → Plane B
unfolding pure raise await catching handling call ask new_id utc_now
◌>>=◌ m f env w = then_plane (m env w) f env

abbrev pub ◌>>◌ : {B : Type 0} → Plane (Unit {0}) → Plane B → Plane B
m >> k = m >>= λ _. k

-- `if bad: raise failure`
unfoldable pub raise_if : Bool → Failure → Plane (Unit {0})
raise_if true failure env w = (err failure, w)
raise_if false failure env w = (ok tt, w)

unfoldable pub or_raise : {A : Type 0} → Option A → Failure → Plane A
or_raise none failure env w = (err failure, w)
or_raise (some a) failure env w = (ok a, w)
