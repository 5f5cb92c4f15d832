-- ===== src/Control/Lives.antt =====
-- Histories of requests and the lives of the stored Runs.
use dsh_base_agent.Prelude.{ℕ, ◌≡◌, sym, subst, String, string_eq, none, List, [], ◌∷◌, ok}
use dsh_base_agent.Models.{RunRecord, run_phase_eq}
use dsh_base_agent.Store.Statements.{get_run_sync}
use dsh_base_agent.Store.Frames.Runs.{OnRuns}
use dsh_base_agent.Store.Revisions.History.{row_of_run, run_of_row}
use dsh_base_agent.Store.Transitions.{Steps, Reaches}
use dsh_base_agent.Store.Transitions.Statements.{Reaches-refl}
use dsh_base_agent.Control.Calls.{Env, World, Plane, ◌>>=◌, pure}
use dsh_base_agent.Control.Requests.{Request, handle, serve}
use dsh_base_agent.Control.Lifecycle.{Step}
use dsh_base_agent.Control.Guarantee.{IsSound, IsFair, Advances, Advances-refl, Advances-trans}
use dsh_base_agent.Control.Rules.{IsFairEnv, Guarantees, Guarantees-pure}
use dsh_base_agent.Control.Sequence.{Guarantees-bind}
use dsh_base_agent.Control.Guarantees.Retry.{Guarantees-retry}
use dsh_base_agent.Control.Guarantees.Cancel.{Guarantees-cancel}
use dsh_base_agent.Control.Guarantees.Decide.{Guarantees-resolve_plan_action}
use dsh_base_agent.Control.Guarantees.Resume.{Guarantees-view, Guarantees-resume}
use dsh_base_agent.Control.Guarantees.Settle.{Guarantees-set_dispatch_state}
use dsh_base_agent.Control.Guarantees.Submit.{
  Guarantees-create_conversation, Guarantees-submit_to_conversation, Guarantees-submit,
}
use dsh_base_agent.Control.Guarantees.Execute.{Guarantees-execute}
use dsh_base_agent.Control.Guarantees.Recover.{Guarantees-recover_startup}

Guarantees-done :
    {A : Type 0} (m : Plane A) → Guarantees none m → Guarantees none (m >>= λ _. pure tt)
Guarantees-done m g = Guarantees-bind none m _ g (λ _. Guarantees-pure none tt)

pub Guarantees-handle : (request : Request) → Guarantees none (handle request)
unfolding handle
Guarantees-handle (Request.create_conversation principal agent_id metadata) =
    Guarantees-done _ (Guarantees-create_conversation principal agent_id metadata)
Guarantees-handle (Request.submit_to_conversation principal id input key metadata) =
    Guarantees-done _ (Guarantees-submit_to_conversation principal id input key metadata)
Guarantees-handle (Request.submit principal agent_id input key metadata) =
    Guarantees-done _ (Guarantees-submit principal agent_id input key metadata)
Guarantees-handle (Request.view principal run_id) =
    Guarantees-done _ (Guarantees-view principal run_id)
Guarantees-handle (Request.cancel principal run_id) =
    Guarantees-done _ (Guarantees-cancel principal run_id)
Guarantees-handle (Request.retry principal run_id) =
    Guarantees-done _ (Guarantees-retry principal run_id)
Guarantees-handle (Request.resume principal run_id action_id expected response) =
    Guarantees-done _ (Guarantees-resume principal run_id action_id expected response)
Guarantees-handle (Request.resolve_plan_action principal run_id response) =
    Guarantees-done _ (Guarantees-resolve_plan_action principal run_id response none none)
Guarantees-handle (Request.execute run_id lease turn) = Guarantees-execute run_id lease turn
Guarantees-handle (Request.set_dispatch_state attempt_id state lease) =
    Guarantees-done _ (Guarantees-set_dispatch_state attempt_id state lease)
Guarantees-handle Request.recover_startup = Guarantees-recover_startup

-- A request is a fair task for the others.
pub handle-IsFair :
    (request : Request) (env : Env) (steps : ℕ)
    → IsFairEnv env
    → IsFair
        (λ s. (handle request env (record { control_store = s; steps = steps })).1.control_store)
handle-IsFair request env steps fair s sound =
    (Guarantees-handle request).at env (record { control_store = s; steps = steps }) fair sound tt

pub serve-Advances :
    (requests : List Request) (env : Env) (w : World)
    → IsFairEnv env
    → IsSound w.control_store
    → Advances w.control_store (serve requests env w).control_store
unfolding serve
serve-Advances [] env w fair sound = Advances-refl w.control_store
serve-Advances (request ∷ rest) env w fair sound =
    let a = (Guarantees-handle request).at env w fair sound tt in
    Advances-trans _ _ _ a (serve-Advances rest env (handle request env w).1 fair (a.sound sound))

-- Whatever requests are made, and whatever other fair tasks do to the store between any two of
-- their calls: a stored Run is never lost, and steps of the life of a Run lead from the stored
-- record to the one that is stored afterwards.
pub serve-Steps :
    (requests : List Request) (env : Env) (w : World) (id : String) (run : RunRecord)
    → IsFairEnv env
    → IsSound w.control_store
    → get_run_sync id w.control_store.disk ≡ ok run
    → (run' : RunRecord) × (get_run_sync id (serve requests env w).control_store.disk ≡ ok run')
      × Steps Step run run'
serve-Steps requests env w id run fair sound stored =
    let s = w.control_store in
    let start : OnRuns (Reaches Step s.disk.runs) s.disk = record {
      rows = Reaches-refl Step s.disk.runs;
    } in
    let after = (serve-Advances requests env w fair sound).reaches s.disk.runs (record {
      on_disk = start;
      in_working = subst (OnRuns (Reaches Step s.disk.runs)) (sym sound.settled) start;
    }) in
    let (row, found, is) = row_of_run id s.disk run stored in
    let (row', found', steps) = after.on_disk.rows id row found in
    (
      row'.payload,
      run_of_row id (serve requests env w).control_store.disk row' found',
      subst (λ r. Steps Step r row'.payload) is steps,
    )
