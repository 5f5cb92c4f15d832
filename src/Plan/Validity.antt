-- ===== src/Plan/Validity.antt =====
-- `validate_proposal` against a description of the plans that may run.
use dsh_base_agent.Prelude.{
  ℕ, suc, ◌≤◌, ◌≡◌, refl, ap, ◌∙◌, subst, String, string_eq, nat_eq, true, false, Option, none,
  some, List, [], ◌∷◌, map, Result, ok, err, raise_if, in_order, returned_then, returned_or, ok_eq,
  arith, ◌!=◌,
}
use dsh_base_agent.Prelude.Lists.{length, All, All-all, All-any}
use dsh_base_agent.Prelude.Sets.{
  mem, IsUnique, All-map, from_keys, IsUnique-from_keys, IsUnique-length, All-from_keys,
}
use dsh_base_agent.Prelude.Text.{len, is_empty, strip, strip_idem}
use dsh_base_agent.Models.{PlanStep, Json}
use dsh_base_agent.Plan.Errors.{PlanError}
use dsh_base_agent.Plan.Acyclic.{ids, assert_acyclic}
use dsh_base_agent.Plan.Ranks.{IsRanked}
use dsh_base_agent.Plan.Acceptance.{assert_acyclic_iff}
use dsh_base_agent.Plan.Proposal.{
  PlanReact, PlanProposal, check_size, check_step, check_steps, check_tools, normalize_tools,
  normalize_steps, validate_proposal,
}

-- A step alone: its task is short, and its dependencies are distinct steps of the plan.
pub record IsValidStep (config : PlanReact) (known : List String) (x : PlanStep) : Type 0 where
  pub short : len x.task ≤ config.max_task_chars
  pub distinct : IsUnique x.depends_on
  pub no_self : mem x.step_id x.depends_on ≡ false
  pub known_steps : All (λ d. mem d known ≡ true) x.depends_on

pub record IsValidPlan (config : PlanReact) (available : List String) (p : PlanProposal)
    : Type 0 where
  pub stripped : strip p.summary ≡ p.summary
  pub summary_size : (is_empty p.summary ≡ false) × (len p.summary ≤ 8000)
  pub step_count : (1 ≤ length p.steps) × (length p.steps ≤ config.max_steps)
  pub unique : IsUnique (ids p.steps)
  pub valid_steps : All (IsValidStep config (ids p.steps)) p.steps
  pub rank : String → ℕ
  pub ranked : IsRanked rank p.steps
  pub tools_unique : IsUnique p.requested_tools
  pub tools_stripped : map strip p.requested_tools ≡ p.requested_tools
  pub tools_named : All (λ t. is_empty t ≡ false) p.requested_tools
  pub tools_available : All (λ t. mem t available ≡ true) p.requested_tools

check_step-IsValidStep :
    (config : PlanReact) (known : List String) (x : PlanStep)
    → check_step config known x ≡ ok tt
    → IsValidStep config known x
unfolding check_step
check_step-IsValidStep config known x h = record {
  short = ground (arith, h);
  distinct = IsUnique-length x.depends_on (ground (arith, h));
  no_self = ground (arith, h);
  known_steps = All-all (λ d. mem d known) x.depends_on (ground (arith, h));
}

check_steps-IsValidStep :
    (config : PlanReact) (known : List String) (xs : List PlanStep)
    → check_steps config known xs ≡ ok tt
    → All (IsValidStep config known) xs
unfolding check_steps
check_steps-IsValidStep config known [] h = tt
check_steps-IsValidStep config known (x ∷ xs) h =
    let parts = first_ok (check_step config known x) (map (check_step config known) xs) h in
    (check_step-IsValidStep config known x parts.0, check_steps-IsValidStep config known xs parts.1)
  where
    first_ok :
        (r : Result PlanError (Unit {0})) (rs : List (Result PlanError (Unit {0})))
        → in_order (r ∷ rs) ≡ ok tt
        → (r ≡ ok tt) × (in_order rs ≡ ok tt)
    first_ok (ok _) rs h = (refl, h)
    first_ok (err e) rs h = cc

pair_of :
    (a : Option PlanStep) (rest : Option (List PlanStep)) {steps : List PlanStep}
    → (elim a [
      | none ↦ none
      | some step ↦ elim rest [ none ↦ none | some more ↦ some (step ∷ more) ]
    ])
      ≡ some steps
    → (step : PlanStep) × (more : List PlanStep) × (rest ≡ some more) × (step ∷ more ≡ steps)
pair_of none rest h = cc
pair_of (some step) none h = cc
pair_of (some step) (some more) h = (step, more, refl, cc)

length-normalize_steps :
    (mv : Json → Option PlanStep) (xs : List Json) {steps : List PlanStep}
    → normalize_steps mv xs ≡ some steps
    → length xs ≡ length steps
length-normalize_steps mv [] h = cc
length-normalize_steps mv (x ∷ xs) h =
    let (step, more, found, is) = pair_of (mv x) (normalize_steps mv xs) h in
    ap suc (length-normalize_steps mv xs found) ∙ ap length is

map_id : (f : String → String) (xs : List String) → All (λ x. f x ≡ x) xs → map f xs ≡ xs
map_id f [] a = refl
map_id f (x ∷ xs) a = cc (a.0, map_id f xs a.1)

All-stripped : (xs : List String) → All (λ x. strip x ≡ x) (map strip xs)
All-stripped [] = tt
All-stripped (x ∷ xs) = (strip_idem x, All-stripped xs)

size_of :
    (summary : String) (steps : List Json) (config : PlanReact)
    → check_size summary steps config ≡ ok tt
    → (is_empty summary ≡ false) × (len summary ≤ 8000)
unfolding check_size
size_of summary steps config h = (ground (arith, h), ground (arith, h))

count_of :
    (summary : String) (steps : List Json) (config : PlanReact) (normalized : List PlanStep)
    → check_size summary steps config ≡ ok tt
    → length steps ≡ length normalized
    → (1 ≤ length normalized) × (length normalized ≤ config.max_steps)
unfolding check_size
count_of summary steps config normalized h same = (ground (arith, h, same), ground (arith, h, same))

distinct_ids :
    (steps : List PlanStep) (e : PlanError)
    → raise_if (length (ids steps) != length (from_keys (ids steps))) e ≡ ok tt
    → IsUnique (ids steps)
distinct_ids steps e h = IsUnique-length (ids steps) (ground (arith, h))

tools_of :
    (tools available : List String)
    → check_tools tools available ≡ ok tt
    → All (λ t. is_empty t ≡ false) tools × All (λ t. mem t available ≡ true) tools
unfolding check_tools
tools_of tools available h = (
  All-any is_empty tools (ground (arith, h)),
  All-all (λ t. mem t available) tools (ground (arith, h)),
)

-- A plan that `validate_proposal` accepts is valid: its summary is stripped, not blank and of at
-- most 8000 characters, its steps are as many as the configuration allows, their identifiers are
-- distinct, each task is short enough, dependencies are distinct steps of the plan that a rank
-- puts before their step, and the tools are stripped, named, distinct and available.
pub validate_proposal-IsValidPlan :
    (model_validate : Json → Option PlanStep) (summary : String) (steps : List Json)
    (requested_tools : List String) (config : PlanReact) (available : List String)
    (p : PlanProposal)
    → validate_proposal model_validate summary steps requested_tools config available ≡ ok p
    → IsValidPlan config available p
unfolding validate_proposal
validate_proposal-IsValidPlan mv summary steps tools config available p h =
    let (size, h1) = returned_then (check_size (strip summary) steps config) _ h in
    let (normalized, found, h2) = returned_or (normalize_steps mv steps) _ _ h1 in
    let (distinct, h3) = returned_then _ _ h2 in
    let (checked, h4) = returned_then (check_steps config (ids normalized) normalized) _ h3 in
    let (acyclic, h5) = returned_then (assert_acyclic normalized) _ h4 in
    let (available_tools, done) =
      returned_then (check_tools (normalize_tools tools) available) _ h5 in
    let unique = distinct_ids normalized _ distinct in
    let valid = check_steps-IsValidStep config (ids normalized) normalized checked in
    let ranks =
      (assert_acyclic_iff normalized unique (All-map (λ x v. v.known_steps) normalized valid)).0
        acyclic in
    let offered = tools_of (normalize_tools tools) available available_tools in
    subst (IsValidPlan config available) (ok_eq _ _ done) (record {
      stripped = strip_idem summary;
      summary_size = size_of (strip summary) steps config size;
      step_count =
          count_of (strip summary) steps config normalized size
            (length-normalize_steps mv steps found);
      unique = unique;
      valid_steps = valid;
      rank = ranks.0;
      ranked = ranks.1;
      tools_unique = IsUnique-from_keys (map strip tools);
      tools_stripped =
          map_id strip (normalize_tools tools)
            (All-from_keys (λ x. strip x ≡ x) (map strip tools) (All-stripped tools));
      tools_named = offered.0;
      tools_available = offered.1;
    })
