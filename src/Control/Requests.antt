-- ===== src/Control/Requests.antt =====
-- The requests that the API and the Worker make of the control plane, the recovery at a start of the
-- process, and histories of them.
use dsh_base_agent.Prelude.{ℕ, String, Option, none, List, [], ◌∷◌}
use dsh_base_agent.Models.{Json, DispatchState, WorkLease}
use dsh_base_agent.Control.Failures.{Principal, PlanApprovalResponse}
use dsh_base_agent.Control.Calls.{Env, World, Plane, ◌>>=◌, pure}
use dsh_base_agent.Control.Submit
use dsh_base_agent.Control.Cancel
use dsh_base_agent.Control.Retry
use dsh_base_agent.Control.Decide
use dsh_base_agent.Control.Resume
use dsh_base_agent.Control.Settle
use dsh_base_agent.Control.Execute
use dsh_base_agent.Control.Execute.{Turn}

pub data Request : Type 0 where
  create_conversation : Principal → String → Option Json → Request
  submit_to_conversation : Principal → String → String → Option String → Option Json → Request
  submit : Principal → String → String → Option String → Option Json → Request
  view cancel retry : Principal → String → Request
  resume : Principal → String → String → ℕ → Json → Request
  resolve_plan_action : Principal → String → PlanApprovalResponse → Request
  execute : String → Option WorkLease → Turn → Request
  set_dispatch_state : String → DispatchState → Option WorkLease → Request
  recover_startup : Request

-- what a request returns is left out
abbrev pub done : {A : Type 0} → Plane A → Plane (Unit {0})
done m = m >>= λ _. pure tt

unfoldable pub handle : Request → Plane (Unit {0})
handle (Request.create_conversation principal agent_id metadata) =
    done (Submit.create_conversation principal agent_id metadata)
handle (Request.submit_to_conversation principal id input key metadata) =
    done (Submit.submit_to_conversation principal id input key metadata)
handle (Request.submit principal agent_id input key metadata) =
    done (Submit.submit principal agent_id input key metadata)
handle (Request.view principal run_id) = done (Resume.view principal run_id)
handle (Request.cancel principal run_id) = done (Cancel.cancel principal run_id)
handle (Request.retry principal run_id) = done (Retry.retry principal run_id)
handle (Request.resume principal run_id action_id expected response) =
    done (Resume.resume principal run_id action_id expected response)
handle (Request.resolve_plan_action principal run_id response) =
    done (Decide.resolve_plan_action principal run_id response none none)
handle (Request.execute run_id lease turn) = Execute.execute run_id lease turn
handle (Request.set_dispatch_state attempt_id state lease) =
    done (Settle.set_dispatch_state attempt_id state lease)
handle Request.recover_startup = Execute.recover_startup

-- requests one after another, whatever each of them raises
unfoldable pub serve : List Request → Env → World → World
serve [] env w = w
serve (request ∷ rest) env w = serve rest env (handle request env w).1
