-- ===== src/Plan/Proposal.antt =====
-- `PlanReact` of sdk/plan_react.py, and `validate_proposal` of control/plan_react.py.
use Prim.Native.Char.{Char, code}
use dsh_base_agent.Prelude.{
  ℕ, String, string_eq, nat_eq, Bool, true, not, ◌&&◌, ◌||◌, Option, none, some, List, [], ◌∷◌, map,
  Result, ok, ◌>>=◌, ◌>>◌, raise_if, in_order, or_raise, ◌!=◌, ltb, leb,
}
use dsh_base_agent.Prelude.Lists.{length, any, all}
use dsh_base_agent.Prelude.Sets.{mem, from_keys}
use dsh_base_agent.Prelude.Text.{len, is_empty, strip}
use dsh_base_agent.Models.{PlanStep, Json}
use dsh_base_agent.Plan.Errors.{
  PlanError, blank_summary, long_summary, step_count, invalid_step, duplicate_ids, long_task,
  duplicate_dependencies, self_dependency, unknown_dependency, blank_tool, unknown_tool,
  value_error,
}
use dsh_base_agent.Plan.Acyclic.{ids, assert_acyclic}

pub record PlanReact : Type 0 where
  pub workflow_id : String
  pub workflow_version : String
  pub max_steps : ℕ
  pub max_task_chars : ℕ

-- `[A-Za-z0-9_.-]`
abbrev pub is_id_char : Char → Bool
is_id_char c =
    let n = code c in
    (leb 65 n && leb n 90)
    || (leb 97 n && leb n 122)
    || (leb 48 n && leb n 57)
    || any (λ m. leb m n && leb n m) (95 ∷ 46 ∷ 45 ∷ [])

abbrev pub all_id_chars : String → Bool
all_id_chars String.[] = true
all_id_chars (String.◌∷◌ c s) = is_id_char c && all_id_chars s

unfoldable pub post_init : PlanReact → Result PlanError (Unit {0})
post_init config = in_order (
    raise_if (is_empty config.workflow_id || not (all_id_chars config.workflow_id)) value_error
    ∷ raise_if (is_empty (strip config.workflow_version)) value_error
    ∷ raise_if (not (leb 1 config.max_steps && leb config.max_steps 64)) value_error
    ∷ raise_if (not (leb 1 config.max_task_chars && leb config.max_task_chars 4000)) value_error
    ∷ [])

pub record PlanProposal : Type 0 where
  pub summary : String
  pub steps : List PlanStep
  pub requested_tools : List String

-- the body of the loop over the steps
unfoldable pub check_step : PlanReact → List String → PlanStep → Result PlanError (Unit {0})
check_step config known item = in_order (
    raise_if (ltb config.max_task_chars (len item.task)) long_task
    ∷ raise_if (length item.depends_on != length (from_keys item.depends_on)) duplicate_dependencies
    ∷ raise_if (mem item.step_id item.depends_on) self_dependency
    ∷ raise_if (not (all (λ d. mem d known) item.depends_on)) unknown_dependency
    ∷ [])

unfoldable pub check_steps : PlanReact → List String → List PlanStep → Result PlanError (Unit {0})
unfolding check_step
check_steps config known steps = in_order (map (check_step config known) steps)

-- `tuple(dict.fromkeys(item.strip() for item in requested_tools))`
abbrev pub normalize_tools : List String → List String
normalize_tools tools = from_keys (map strip tools)

-- the tests on the summary and the number of steps
unfoldable pub check_size : String → List Json → PlanReact → Result PlanError (Unit {0})
check_size summary steps config = in_order (
    raise_if (is_empty summary) blank_summary
    ∷ raise_if (ltb 8000 (len summary)) long_summary
    ∷ raise_if (not (leb 1 (length steps) && leb (length steps) config.max_steps)) step_count
    ∷ [])

unfoldable pub check_tools : List String → List String → Result PlanError (Unit {0})
check_tools tools available = in_order (
    raise_if (any is_empty tools) blank_tool
    ∷ raise_if (not (all (λ t. mem t available) tools)) unknown_tool
    ∷ [])

-- `PlanStep.model_validate` is pydantic's: the step that a JSON value denotes, if it is one.
module _ (model_validate : Json → Option PlanStep) where
  abbrev pub normalize_steps : List Json → Option (List PlanStep)
  normalize_steps [] = some []
  normalize_steps (x ∷ xs) = elim (model_validate x) [
    | none ↦ none
    | some step ↦ elim (normalize_steps xs) [ none ↦ none | some steps ↦ some (step ∷ steps) ]
  ]

  unfoldable pub validate_proposal :
      String → List Json → List String → PlanReact → List String → Result PlanError PlanProposal
  unfolding check_size check_steps check_tools
  validate_proposal summary steps requested_tools config available_tools = do
    let normalized_summary = strip summary
    check_size normalized_summary steps config
    normalized_steps ← or_raise (normalize_steps steps) invalid_step
    raise_if (length (ids normalized_steps) != length (from_keys (ids normalized_steps)))
        duplicate_ids
    check_steps config (ids normalized_steps) normalized_steps
    assert_acyclic normalized_steps
    check_tools (normalize_tools requested_tools) available_tools
    ok (record {
      summary = normalized_summary;
      steps = normalized_steps;
      requested_tools = normalize_tools requested_tools;
    })
