-- ===== src/Plan/Compile.antt =====
-- `compile_plan` and `compiled_workflow` of control/plan_react.py.
use dsh_base_agent.Prelude.{
  ℕ, String, string_eq, Option, none, List, [], ◌∷◌, map, Result, ok, ◌>>=◌, ◌>>◌, raise_if,
  or_raise, ◌!=◌,
}
use dsh_base_agent.Models.{PlanStep, PlanRecord, PlanStatus, RunRecord, Json, Items, Fields}
use dsh_base_agent.Plan.Errors.{PlanError, not_enabled, script_changed, args_changed, plan_changed}
use dsh_base_agent.Plan.Proposal.{PlanReact, PlanProposal, validate_proposal}

pub record CompiledWorkflow : Type 0 where
  pub workflow_id : String
  pub workflow_version : String
  pub script : String
  pub script_sha256 : String
  pub args : Json
  pub args_sha256 : String

abbrev pub items : {A : Type 0} → (A → Json) → List A → Items
items f [] = Items.nil
items f (x ∷ xs) = Items.cons (f x) (items f xs)

abbrev pub texts : List String → Json
texts xs = Json.arr (items Json.str xs)

-- `item.model_dump(mode="json")`
abbrev pub step_json : PlanStep → Json
step_json step = Json.obj (
    Fields.field "step_id" (Json.str step.step_id) (
      Fields.field "task" (Json.str step.task)
        (Fields.field "depends_on" (texts step.depends_on) Fields.end)))

abbrev pub step_args : PlanStep → Json
step_args step = Json.obj (
    Fields.field "stepId" (Json.str step.step_id) (
      Fields.field "task" (Json.str step.task)
        (Fields.field "dependsOn" (texts step.depends_on) Fields.end)))

abbrev pub workflow_args_of : PlanReact → String → PlanProposal → Json
workflow_args_of config input p = Json.obj (
    Fields.field "workflowId" (Json.str config.workflow_id) (
      Fields.field "workflowVersion" (Json.str config.workflow_version) (
        Fields.field "originalInput" (Json.str input) (
          Fields.field "approvedTools" (texts p.requested_tools)
            (Fields.field "steps" (Json.arr (items step_args p.steps)) Fields.end)))))

-- what the hash of a plan covers
abbrev pub semantic :
    String → String → List PlanStep → List String → String → String → String → String → Json
semantic run_id summary steps tools workflow_id version script_sha256 args_sha256 = Json.obj (
    Fields.field "run_id" (Json.str run_id) (
      Fields.field "summary" (Json.str summary) (
        Fields.field "steps" (Json.arr (items step_json steps)) (
          Fields.field "requested_tools" (texts tools) (
            Fields.field "workflow_id" (Json.str workflow_id) (
              Fields.field "workflow_version" (Json.str version) (
                Fields.field "workflow_script_sha256" (Json.str script_sha256)
                  (Fields.field "workflow_args_sha256" (Json.str args_sha256) Fields.end))))))))

abbrev pub semantic_of : PlanRecord → Json
semantic_of plan =
    semantic plan.run_id plan.summary plan.steps plan.requested_tools plan.workflow_id
      plan.workflow_version plan.workflow_script_sha256 plan.workflow_args_sha256

-- `workflow_script` is the text `_WORKFLOW_SCRIPT`; `text_digest` is SHA-256 of a text and `digest`
-- that of the canonical JSON text of a value.
module _ (workflow_script : String) (text_digest : String → String) (digest : Json → String) where
  unfoldable pub compiled_workflow : PlanRecord → Result PlanError CompiledWorkflow
  compiled_workflow plan = do
    let script_sha256 = text_digest workflow_script
    let args_sha256 = digest plan.workflow_args
    raise_if (script_sha256 != plan.workflow_script_sha256) script_changed
    raise_if (args_sha256 != plan.workflow_args_sha256) args_changed
    raise_if (digest (semantic_of plan) != plan.plan_sha256) plan_changed
    ok (record {
      workflow_id = plan.workflow_id;
      workflow_version = plan.workflow_version;
      script = workflow_script;
      script_sha256 = script_sha256;
      args = plan.workflow_args;
      args_sha256 = args_sha256;
    })

  -- the record that `compile_plan` builds; its identifier and time are drawn by pydantic
  abbrev pub plan_of : RunRecord → PlanReact → PlanProposal → String → ℕ → PlanRecord
  plan_of run config p plan_id now =
      let args = workflow_args_of config run.input p in
      record {
        plan_id = plan_id;
        run_id = run.run_id;
        status = PlanStatus.pending;
        revision = 1;
        summary = p.summary;
        steps = p.steps;
        requested_tools = p.requested_tools;
        workflow_id = config.workflow_id;
        workflow_version = config.workflow_version;
        workflow_script_sha256 = text_digest workflow_script;
        workflow_args = args;
        workflow_args_sha256 = digest args;
        plan_sha256 = digest (
            semantic run.run_id p.summary p.steps p.requested_tools config.workflow_id
              config.workflow_version (text_digest workflow_script) (digest args));
        decided_by = none;
        decision_comment = none;
        decided_at = none;
        created_at = now;
        updated_at = now;
      }

  module _ (model_validate : Json → Option PlanStep) where
    -- `plan_react` and `available_tools` are those of the registered Agent.
    unfoldable pub compile_plan :
        RunRecord
        → Option PlanReact
        → List String
        → PlanProposal
        → String
        → ℕ
        → Result PlanError (PlanRecord × CompiledWorkflow)
    unfolding compiled_workflow validate_proposal
    compile_plan run plan_react available_tools proposal plan_id now = do
      config ← or_raise plan_react not_enabled
      p ←
          validate_proposal model_validate proposal.summary (map step_json proposal.steps)
            proposal.requested_tools config available_tools
      workflow ← compiled_workflow (plan_of run config p plan_id now)
      ok (plan_of run config p plan_id now, workflow)
