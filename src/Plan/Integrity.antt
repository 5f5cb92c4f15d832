-- ===== src/Plan/Integrity.antt =====
-- What is approved is what runs: `compile_plan` against `compiled_workflow`.
use dsh_base_agent.Prelude.{
  ℕ, ◌≡◌, refl, sym, ◌∙◌, String, string_eq, Option, some, List, [], ◌∷◌, ok, arith, raise_if, ◌!=◌,
  eq_of_beq, eq_refl, returned_then, then_returns, ok_eq,
}
use dsh_base_agent.Prelude.Lists.{All}
use dsh_base_agent.Models.{PlanStep, PlanRecord, RunRecord, Json}
use dsh_base_agent.Control.Failures.{Principal, PlanApprovalResponse}
use dsh_base_agent.Control.Decide.{decided_plan}
use dsh_base_agent.Plan.Errors.{PlanError}
use dsh_base_agent.Plan.Proposal.{PlanReact, PlanProposal}
use dsh_base_agent.Plan.Validity.{IsValidPlan}
use dsh_base_agent.Plan.Revalidation.{validate_proposal-again}
use dsh_base_agent.Plan.Compile.{
  CompiledWorkflow, items, step_json, workflow_args_of, semantic_of, compiled_workflow, plan_of,
  compile_plan,
}

equal_texts : (a b : String) (e : PlanError) → raise_if (a != b) e ≡ ok tt → a ≡ b
equal_texts a b e h = eq_of_beq a b (ground (arith, h))

same_text : (a : String) (e : PlanError) → raise_if (a != a) e ≡ ok tt
same_text a e = ground (arith, eq_refl a)

texts-injective : (xs ys : List String) → items Json.str xs ≡ items Json.str ys → xs ≡ ys
texts-injective [] [] h = refl
texts-injective [] (y ∷ ys) h = cc
texts-injective (x ∷ xs) [] h = cc
texts-injective (x ∷ xs) (y ∷ ys) h = cc (h, texts-injective xs ys (cc h))

module _ (script : String) (text_digest : String → String) (digest : Json → String) where
  -- what `compiled_workflow` returns
  record IsCompiled (plan : PlanRecord) (w : CompiledWorkflow) : Type 0 where
    hashed : digest (semantic_of plan) ≡ plan.plan_sha256
    args_hashed : digest plan.workflow_args ≡ plan.workflow_args_sha256
    is : w ≡ record {
      workflow_id = plan.workflow_id;
      workflow_version = plan.workflow_version;
      script = script;
      script_sha256 = text_digest script;
      args = plan.workflow_args;
      args_sha256 = digest plan.workflow_args;
    }

  compiled_workflow-IsCompiled :
      (plan : PlanRecord) (w : CompiledWorkflow)
      → compiled_workflow script text_digest digest plan ≡ ok w
      → IsCompiled plan w
  unfolding compiled_workflow
  compiled_workflow-IsCompiled plan w h =
      let (script_same, h1) = returned_then _ _ h in
      let (args_same, h2) = returned_then _ _ h1 in
      let (plan_same, h3) = returned_then _ _ h2 in
      record {
        hashed = equal_texts _ _ _ plan_same;
        args_hashed = equal_texts _ _ _ args_same;
        is = sym (ok_eq _ w h3);
      }

  abbrev workflow_of : PlanRecord → CompiledWorkflow
  workflow_of plan = record {
    workflow_id = plan.workflow_id;
    workflow_version = plan.workflow_version;
    script = script;
    script_sha256 = text_digest script;
    args = plan.workflow_args;
    args_sha256 = digest plan.workflow_args;
  }

  compiled_workflow-plan_of :
      (run : RunRecord) (config : PlanReact) (p : PlanProposal) (plan_id : String) (now : ℕ)
      → compiled_workflow script text_digest digest
          (plan_of script text_digest digest run config p plan_id now)
        ≡ ok (workflow_of (plan_of script text_digest digest run config p plan_id now))
  unfolding compiled_workflow
  compiled_workflow-plan_of run config p plan_id now =
      then_returns _ _ (same_text (text_digest script) _) (
        then_returns _ _ (same_text (digest (workflow_args_of config run.input p)) _) (
          then_returns _ _
            (same_text (plan_of script text_digest digest run config p plan_id now).plan_sha256 _)
            refl))

  -- Two stored plans with one plan hash that both compile run the same Workflow with the same
  -- arguments, for the same Run and with the same tools, unless the digest collides on them.
  pub compiled_workflow-plan_sha256 :
      (p q : PlanRecord) (v w : CompiledWorkflow)
      → compiled_workflow script text_digest digest p ≡ ok v
      → compiled_workflow script text_digest digest q ≡ ok w
      → p.plan_sha256 ≡ q.plan_sha256
      → (digest (semantic_of p) ≡ digest (semantic_of q) → semantic_of p ≡ semantic_of q)
      → (digest p.workflow_args ≡ digest q.workflow_args → p.workflow_args ≡ q.workflow_args)
      → (v ≡ w) × (p.run_id ≡ q.run_id) × (p.requested_tools ≡ q.requested_tools)
  compiled_workflow-plan_sha256 p q v w one two same distinct distinct_args =
      let h = compiled_workflow-IsCompiled p v one in
      let k = compiled_workflow-IsCompiled q w two in
      let covered = distinct (h.hashed ∙ same ∙ sym k.hashed) in
      let args_sha256 : p.workflow_args_sha256 ≡ q.workflow_args_sha256 = cc covered in
      let args = distinct_args (h.args_hashed ∙ args_sha256 ∙ sym k.args_hashed) in
      (
        cc (h.is, k.is, covered, args),
        cc covered,
        texts-injective p.requested_tools q.requested_tools (cc covered),
      )

  -- A valid plan whose steps pydantic reads back is compiled without an error, and once it is
  -- decided on, by whom and whenever, the Workflow that the Worker compiles from the decided record
  -- is the same one, whose arguments hold the input of the Run and the plan.
  pub compile_plan-compiled_workflow :
      (model_validate : Json → Option PlanStep) (run : RunRecord) (config : PlanReact)
      (available : List String) (p : PlanProposal) (plan_id : String) (now : ℕ)
      (principal : Principal) (response : PlanApprovalResponse) (decided_at : ℕ)
      → IsValidPlan config available p
      → All (λ x. model_validate (step_json x) ≡ some x) p.steps
      → (w : CompiledWorkflow) × (compile_plan script text_digest digest model_validate run
            (some config)
            available
            p
            plan_id
            now
          ≡ ok (plan_of script text_digest digest run config p plan_id now, w))
        × (compiled_workflow script text_digest digest (
              decided_plan
                (plan_of script text_digest digest run config p plan_id now)
                principal
                response
                decided_at)
            ≡ ok w)
        × (w.args ≡ workflow_args_of config run.input p)
  unfolding compile_plan compiled_workflow
  compile_plan-compiled_workflow model_validate run config available p plan_id now principal
        response decided_at v read =
      let compiled = compiled_workflow-plan_of run config p plan_id now in
      (
        workflow_of (plan_of script text_digest digest run config p plan_id now),
        rw (validate_proposal-again model_validate step_json config available p v read)
            (rw compiled refl),
        compiled,
        refl,
      )
