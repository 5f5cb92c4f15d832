-- ===== src/Control/Access.antt =====
-- Who may see and change a Run.
use dsh_base_agent.Prelude.{
  ◌+◌, ◌≡◌, refl, sym, subst, some_eq, String, string_eq, Bool, true, ◌||◌, Option, none, some, ok,
  err, ◌!=◌, arith,
}
use dsh_base_agent.Models.{RunRecord}
use dsh_base_agent.Store.Connection.{working, query}
use dsh_base_agent.Store.Statements.{get_run_sync}
use dsh_base_agent.Store.Runs.{get_run}
use dsh_base_agent.Control.Failures.{Failure, Principal}
use dsh_base_agent.Control.Calls.{Env, World, Plane, ◌>>=◌, raise_if}
use dsh_base_agent.Control.Shared.{owned_run}
use dsh_base_agent.Control.Cancel.{cancel}
use dsh_base_agent.Control.Retry.{retry}
use dsh_base_agent.Control.Decide.{resolve_plan_action}
use dsh_base_agent.Control.Resume.{view, resume}
use dsh_base_agent.Control.Requests.{Request, handle}

-- the principal of a request on a stored Run, and that Run
abbrev pub asks : Request → Option (Principal × String)
asks (Request.view principal run_id) = some (principal, run_id)
asks (Request.cancel principal run_id) = some (principal, run_id)
asks (Request.retry principal run_id) = some (principal, run_id)
asks (Request.resume principal run_id _ _ _) = some (principal, run_id)
asks (Request.resolve_plan_action principal run_id _) = some (principal, run_id)
asks _ = none

abbrev pub is_foreign : Principal → RunRecord → Bool
is_foreign principal run =
    run.tenant_id != principal.tenant_id || run.principal_id != principal.principal_id

-- the world once the other tasks have gone on and the Run has been read
abbrev pub after_read : Env → World → World
after_read env w = record w {
  control_store = env.others w.steps w.control_store;
  steps = w.steps + 1;
}

module _ (env : Env) (w : World) (principal : Principal) (run_id : String) (run : RunRecord)
    (connected : (env.others w.steps w.control_store).connected ≡ true)
    (stored : get_run_sync run_id (working (env.others w.steps w.control_store)) ≡ ok run)
    (foreign : is_foreign principal run ≡ true) where
  owned_run-foreign :
      owned_run principal run_id env w ≡ (err Failure.run_access_denied, after_read env w)
  unfolding owned_run ◌>>=◌ get_run query raise_if
  owned_run-foreign = ground (arith, connected, stored, foreign)

  then_denied :
      {A : Type 0} (f : RunRecord → Plane A)
      → (owned_run principal run_id >>= f) env w ≡ (err Failure.run_access_denied, after_read env w)
  unfolding ◌>>=◌
  then_denied f = rw owned_run-foreign refl

  then_done :
      {A B : Type 0} (f : RunRecord → Plane A) (g : A → Plane B)
      → ((owned_run principal run_id >>= f) >>= g) env w
        ≡ (err Failure.run_access_denied, after_read env w)
  unfolding ◌>>=◌
  then_done f g = rw owned_run-foreign refl

  by_owner :
      (request : Principal × String → Request) {p : Principal} {id : String}
      → handle (request (principal, run_id)) env w
        ≡ (err Failure.run_access_denied, after_read env w)
      → (let x : Option (Principal × String) = some (p, id) in x) ≡ some (principal, run_id)
      → handle (request (p, id)) env w ≡ (err Failure.run_access_denied, after_read env w)
  by_owner request denied h =
      subst (λ x. handle (request x) env w ≡ (err Failure.run_access_denied, after_read env w))
        (sym (some_eq _ _ h)) denied

  -- A request on a Run of another tenant or principal raises RunAccessDenied and makes no call but
  -- the one that reads the Run: the store stays as the other tasks left it.
  pub handle-foreign :
      (request : Request)
      → asks request ≡ some (principal, run_id)
      → handle request env w ≡ (err Failure.run_access_denied, after_read env w)
  unfolding handle view cancel retry resume resolve_plan_action
  handle-foreign (Request.view p id) h = by_owner (λ x. Request.view x.0 x.1) (then_done _ _) h
  handle-foreign (Request.cancel p id) h = by_owner (λ x. Request.cancel x.0 x.1) (then_done _ _) h
  handle-foreign (Request.retry p id) h = by_owner (λ x. Request.retry x.0 x.1) (then_done _ _) h
  handle-foreign (Request.resume p id action_id expected response) h =
      by_owner (λ x. Request.resume x.0 x.1 action_id expected response) (then_done _ _) h
  handle-foreign (Request.resolve_plan_action p id response) h =
      by_owner (λ x. Request.resolve_plan_action x.0 x.1 response) (then_done _ _) h
  handle-foreign (Request.create_conversation p agent_id metadata) h = cc
  handle-foreign (Request.submit_to_conversation p id input key metadata) h = cc
  handle-foreign (Request.submit p agent_id input key metadata) h = cc
  handle-foreign (Request.execute id lease turn) h = cc
  handle-foreign (Request.set_dispatch_state id state lease) h = cc
  handle-foreign Request.recover_startup h = cc
