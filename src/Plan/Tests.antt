-- ===== src/Plan/Tests.antt =====
-- The theorems on plans at a plan of two steps.
use dsh_base_agent.Prelude.{
  ℕ, ◌≡◌, ◌↔◌, ◌≢◌, refl, String, string_eq, ◌==◌, Option, none, some, [], ◌∷◌, map, ok, err,
  if◌then◌else◌,
}
use dsh_base_agent.Prelude.Text.{len, is_space, lstrip, rstrip, strip}
use dsh_base_agent.Models.{PlanStep, PlanRecord, Json, Fields, PlanApprovalDecision}
use dsh_base_agent.Control.Failures.{Principal, PlanApprovalResponse}
use dsh_base_agent.Control.Decide.{decided_plan}
use dsh_base_agent.Plan.Errors.{cyclic, out_of_fuel}
use dsh_base_agent.Plan.Acyclic.{resolve, assert_acyclic}
use dsh_base_agent.Plan.Rounds.{assert_acyclic-ends}
use dsh_base_agent.Plan.Ranks.{IsRanked}
use dsh_base_agent.Plan.Acceptance.{assert_acyclic_iff}
use dsh_base_agent.Plan.Proposal.{
  PlanReact, PlanProposal, check_size, check_step, check_steps, check_tools, validate_proposal,
}
use dsh_base_agent.Plan.Compile.{
  CompiledWorkflow, workflow_args_of, plan_of, compiled_workflow, compile_plan,
}
use dsh_base_agent.Plan.Integrity.{compile_plan-compiled_workflow, compiled_workflow-plan_sha256}
use dsh_base_agent.Store.Samples.{run}
use dsh_base_agent.Plan.Validity.{IsValidPlan, validate_proposal-IsValidPlan}
use dsh_base_agent.Plan.Revalidation.{validate_proposal-again}

-- what the tests compute with
abbrev program : Unit {0}
unfolding len is_space lstrip rstrip strip resolve assert_acyclic check_size check_step check_steps
    check_tools validate_proposal
program = tt

abbrev read : PlanStep
read = record { step_id = "read"; task = "Read the file"; depends_on = [] }

abbrev write : PlanStep
write = record { step_id = "write"; task = "Write the report"; depends_on = "read" ∷ [] }

abbrev looping : PlanStep
looping = record { step_id = "read"; task = "Read the file"; depends_on = "write" ∷ [] }

-- a step is named by its identifier
abbrev dump : PlanStep → Json
dump step = Json.str step.step_id

abbrev model_validate : Json → Option PlanStep
model_validate (Json.str name) =
    if name == "read" then some read else (if name == "write" then some write else none)
model_validate _ = none

abbrev config : PlanReact
config = record {
  workflow_id = "plan-react-dag";
  workflow_version = "1.0.0";
  max_steps = 12;
  max_task_chars = 4000;
}

abbrev proposal : PlanProposal
proposal = record { summary = "Report"; steps = write ∷ read ∷ []; requested_tools = "fs" ∷ [] }

accepted :
    validate_proposal model_validate " Report "
      (map dump (write ∷ read ∷ []))
      ("fs " ∷ "fs" ∷ [])
      config
      ("fs" ∷ "net" ∷ [])
    ≡ ok proposal
unfolding program
accepted = refl

refused : assert_acyclic (write ∷ looping ∷ []) ≡ err cyclic
unfolding program
refused = refl

-- the dictionary has one entry for two steps of one identifier
one_entry : assert_acyclic (read ∷ read ∷ []) ≡ err cyclic
unfolding program
one_entry = refl

assert_acyclic-ends_example : assert_acyclic (write ∷ looping ∷ []) ≢ err out_of_fuel
assert_acyclic-ends_example = assert_acyclic-ends (write ∷ looping ∷ [])

assert_acyclic_iff_example :
    (assert_acyclic (write ∷ read ∷ []) ≡ ok tt)
    ↔ ((rank : String → ℕ) × IsRanked rank (write ∷ read ∷ []))
assert_acyclic_iff_example =
    assert_acyclic_iff (write ∷ read ∷ []) (refl, (refl, tt)) ((refl, tt), (tt, tt))

validate_proposal-IsValidPlan_example : IsValidPlan config ("fs" ∷ "net" ∷ []) proposal
validate_proposal-IsValidPlan_example =
    validate_proposal-IsValidPlan model_validate " Report " (map dump (write ∷ read ∷ []))
      ("fs " ∷ "fs" ∷ []) config ("fs" ∷ "net" ∷ []) proposal accepted

proposal-IsValidPlan : IsValidPlan config ("fs" ∷ []) proposal
unfolding program
proposal-IsValidPlan =
    validate_proposal-IsValidPlan model_validate " Report " (map dump (write ∷ read ∷ []))
      ("fs " ∷ "fs" ∷ []) config ("fs" ∷ []) proposal refl

validate_proposal-again_example :
    validate_proposal model_validate "Report"
      (map dump (write ∷ read ∷ []))
      ("fs" ∷ [])
      config
      ("fs" ∷ [])
    ≡ ok proposal
validate_proposal-again_example =
    validate_proposal-again model_validate dump config ("fs" ∷ []) proposal proposal-IsValidPlan
      (refl, (refl, tt))

-- reads a step back from the JSON that `model_dump` writes
abbrev model_validate_json : Json → Option PlanStep
model_validate_json (Json.obj (Fields.field _ name _)) = model_validate name
model_validate_json _ = none

-- a digest that keeps the first field
abbrev digest : Json → String
digest (Json.obj (Fields.field _ (Json.str text) _)) = text
digest _ = ""

abbrev text_digest : String → String
text_digest text = text

abbrev plan : PlanRecord
plan = plan_of "script" text_digest digest run config proposal "plan_1" 20

abbrev workflow : CompiledWorkflow
workflow = record {
  workflow_id = "plan-react-dag";
  workflow_version = "1.0.0";
  script = "script";
  script_sha256 = "script";
  args = workflow_args_of config run.input proposal;
  args_sha256 = "plan-react-dag";
}

abbrev approver : Principal
approver = record { tenant_id = "acme"; principal_id = "alice" }

abbrev approval : PlanApprovalResponse
approval = record {
  decision = PlanApprovalDecision.approve;
  plan_id = "plan_1";
  plan_revision = 1;
  plan_sha256 = plan.plan_sha256;
  comment = none;
}

compile_plan-compiled_workflow_example :
    (w : CompiledWorkflow) × (compile_plan "script" text_digest digest model_validate_json run
        (some config)
        ("fs" ∷ [])
        proposal
        "plan_1"
        20
      ≡ ok (plan, w))
    × (compiled_workflow "script" text_digest digest (decided_plan plan approver approval 40)
        ≡ ok w)
    × (w.args ≡ workflow_args_of config run.input proposal)
compile_plan-compiled_workflow_example =
    compile_plan-compiled_workflow "script" text_digest digest model_validate_json run config
      ("fs" ∷ []) proposal "plan_1" 20 approver approval 40 proposal-IsValidPlan (refl, (refl, tt))

-- the same plan under another identifier
abbrev stored : PlanRecord
stored = plan_of "script" text_digest digest run config proposal "plan_2" 30

plan-compiles : compiled_workflow "script" text_digest digest plan ≡ ok workflow
unfolding compiled_workflow
plan-compiles = refl

stored-compiles : compiled_workflow "script" text_digest digest stored ≡ ok workflow
unfolding compiled_workflow
stored-compiles = refl

compiled_workflow-plan_sha256_example :
    (workflow ≡ workflow)
    × (plan.run_id ≡ stored.run_id)
    × (plan.requested_tools ≡ stored.requested_tools)
compiled_workflow-plan_sha256_example =
    compiled_workflow-plan_sha256 "script" text_digest digest plan stored workflow workflow
      plan-compiles stored-compiles refl (λ _. refl) (λ _. refl)
