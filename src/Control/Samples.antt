-- ===== src/Control/Samples.antt =====
-- A small environment, principals and records for the tests.
use dsh_base_agent.Prelude.{
  ℕ, zero, suc, String, ◌==◌, string_eq, false, none, some, [], ◌∷◌, if◌then◌else◌,
}
use dsh_base_agent.Models.{
  Json, RunRecord, RunStatus, RunPhase, PlanRecord, PlanStatus, PlanApprovalDecision,
}
use dsh_base_agent.Store.Connection.{SqliteControlStore}
use dsh_base_agent.Store.Operation.{Operation, new_store, perform_all}
use dsh_base_agent.Store.Samples.{run, begin}
use dsh_base_agent.Control.Failures.{Principal, Agent, PlanApprovalResponse}
use dsh_base_agent.Control.Calls.{Env, World}
use dsh_base_agent.Control.Execute.{Turn}
use dsh_base_agent.Control.Requests.{Request, handle}

abbrev pub name : ℕ → String
name zero = "n"
name (suc n) = String.◌∷◌ "i" (name n)

abbrev pub orders : Agent
orders = record {
  name = "orders";
  version = "1.0.0";
  fingerprint = "f0";
  plan_react = none;
  allow_user_input = false;
}

-- no other task does anything
abbrev pub quiet : Env
quiet = record {
  others = λ n s. s;
  new_id = name;
  utc_now = λ n. n;
  agents = λ id. if id == "orders" then some orders else none;
  authorize_run = λ principal agent. none;
  sha256 = λ text. "d";
  digest = λ value. "d";
  workflow_script = "return";
  parse_plan_response = λ value. none;
  session_id = λ run_id n. run_id;
  parse_questions = λ value. none;
  parse_answers = λ value. none;
  answers_json = λ answers. Json.null;
  message_of = λ failure. ("Error", "Error: failed");
}

abbrev pub alice : Principal
alice = record { tenant_id = "acme"; principal_id = "alice" }

abbrev pub mallory : Principal
mallory = record { tenant_id = "acme"; principal_id = "mallory" }

abbrev pub proposal : PlanRecord
proposal = record {
  plan_id = "plan_1";
  run_id = "run_1";
  status = PlanStatus.pending;
  revision = 1;
  summary = "find it";
  steps = [];
  requested_tools = [];
  workflow_id = "w";
  workflow_version = "1";
  workflow_script_sha256 = "d";
  workflow_args = Json.null;
  workflow_args_sha256 = "d";
  plan_sha256 = "d";
  decided_by = none;
  decision_comment = none;
  decided_at = none;
  created_at = 1;
  updated_at = 1;
}

abbrev pub decision : PlanApprovalDecision → PlanApprovalResponse
decision choice = record {
  decision = choice;
  plan_id = "plan_1";
  plan_revision = 1;
  plan_sha256 = "d";
  comment = none;
}

abbrev pub planned : RunRecord
planned = record run { phase = RunPhase.planning }

abbrev pub rejected : RunRecord
rejected = record run {
  phase = RunPhase.waiting_approval;
  status = RunStatus.cancelled;
  revision = 4;
}

abbrev pub storing : RunRecord → SqliteControlStore
storing r = perform_all (Operation.initialize ∷ Operation.create_run r none "digest" ∷ []) new_store

abbrev pub over : SqliteControlStore → World
over s = record { control_store = s; steps = 0 }

abbrev pub propose : Request
propose = Request.execute "run_1" none (Turn.proposed proposal "planned" none)

abbrev pub approve : Request
approve = Request.resolve_plan_action alice "run_1" (decision PlanApprovalDecision.approve)

abbrev pub reject : Request
reject = Request.resolve_plan_action alice "run_1" (decision PlanApprovalDecision.reject)

-- Between any two calls another task cancels the Run.
abbrev pub busy : Env
busy = record quiet {
  others = λ n s.
      (handle (Request.cancel alice "run_1") quiet
        (record { control_store = s; steps = n })).1.control_store;
}

-- an attempt that was started in the store alone
abbrev pub started : SqliteControlStore
started =
    perform_all (Operation.initialize ∷ Operation.create_run run none "digest" ∷ begin ∷ [])
      new_store
