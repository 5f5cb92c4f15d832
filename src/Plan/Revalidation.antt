-- ===== src/Plan/Revalidation.antt =====
-- A valid plan passes `validate_proposal` again, as `compile_plan` relies on.
use dsh_base_agent.Prelude.{
  ◌≡◌, refl, sym, ap, ◌∙◌, subst, String, string_eq, nat_eq, true, false, Option, some, List, [],
  ◌∷◌, map, ok, raise_if, then_returns, or_returns, arith, ◌!=◌,
}
use dsh_base_agent.Prelude.Lists.{length, length-map, All, all-All, any-All}
use dsh_base_agent.Prelude.Sets.{mem, IsUnique, All-map, from_keys, from_keys_of_IsUnique}
use dsh_base_agent.Prelude.Text.{is_empty, strip}
use dsh_base_agent.Models.{PlanStep, Json}
use dsh_base_agent.Plan.Errors.{PlanError}
use dsh_base_agent.Plan.Acyclic.{ids, assert_acyclic}
use dsh_base_agent.Plan.Acceptance.{assert_acyclic_iff}
use dsh_base_agent.Plan.Proposal.{
  PlanReact, PlanProposal, check_size, check_step, check_steps, check_tools, normalize_tools,
  normalize_steps, validate_proposal,
}
use dsh_base_agent.Plan.Validity.{IsValidStep, IsValidPlan}

IsValidStep-check_step :
    (config : PlanReact) (known : List String) (x : PlanStep)
    → IsValidStep config known x
    → check_step config known x ≡ ok tt
unfolding check_step
IsValidStep-check_step config known x v = ground (
  arith,
  v.short,
  v.no_self,
  ap length (from_keys_of_IsUnique x.depends_on v.distinct),
  all-All (λ d. mem d known) x.depends_on v.known_steps,
)

IsValidStep-check_steps :
    (config : PlanReact) (known : List String) (xs : List PlanStep)
    → All (IsValidStep config known) xs
    → check_steps config known xs ≡ ok tt
unfolding check_steps
IsValidStep-check_steps config known [] a = refl
IsValidStep-check_steps config known (x ∷ xs) a =
    rw (IsValidStep-check_step config known x a.0) (IsValidStep-check_steps config known xs a.1)

normalize_steps-dump :
    (mv : Json → Option PlanStep) (dump : PlanStep → Json) (xs : List PlanStep)
    → All (λ x. mv (dump x) ≡ some x) xs
    → normalize_steps mv (map dump xs) ≡ some xs
normalize_steps-dump mv dump [] a = refl
normalize_steps-dump mv dump (x ∷ xs) a = rw a.0 (rw (normalize_steps-dump mv dump xs a.1) refl)

size_again :
    (dump : PlanStep → Json) (config : PlanReact) (available : List String) (p : PlanProposal)
    → IsValidPlan config available p
    → check_size (strip p.summary) (map dump p.steps) config ≡ ok tt
unfolding check_size
size_again dump config available p v =
    rw v.stripped (rw (length-map dump p.steps) (ground (arith, v.summary_size, v.step_count)))

unique_again :
    (steps : List PlanStep) (e : PlanError)
    → IsUnique (ids steps)
    → raise_if (length (ids steps) != length (from_keys (ids steps))) e ≡ ok tt
unique_again steps e u = ground (arith, ap length (from_keys_of_IsUnique (ids steps) u))

tools_again :
    (tools available : List String)
    → All (λ t. is_empty t ≡ false) tools
    → All (λ t. mem t available ≡ true) tools
    → check_tools tools available ≡ ok tt
unfolding check_tools
tools_again tools available named there =
    ground (arith, any-All is_empty tools named, all-All (λ t. mem t available) tools there)

-- A valid plan whose steps pydantic reads back as they were written is accepted again, as it is:
-- the second validation, in `compile_plan`, never fails and changes nothing.
pub validate_proposal-again :
    (model_validate : Json → Option PlanStep) (dump : PlanStep → Json) (config : PlanReact)
    (available : List String) (p : PlanProposal)
    → IsValidPlan config available p
    → All (λ x. model_validate (dump x) ≡ some x) p.steps
    → validate_proposal model_validate p.summary
        (map dump p.steps)
        p.requested_tools
        config
        available
      ≡ ok p
unfolding validate_proposal
validate_proposal-again mv dump config available p v read =
    let same_tools =
      ap from_keys v.tools_stripped ∙ from_keys_of_IsUnique p.requested_tools v.tools_unique in
    then_returns (check_size (strip p.summary) (map dump p.steps) config) _
      (size_again dump config available p v)
      (or_returns (normalize_steps mv (map dump p.steps)) _ _
        (normalize_steps-dump mv dump p.steps read)
        (then_returns _ _ (unique_again p.steps _ v.unique) (
          then_returns (check_steps config (ids p.steps) p.steps) _
            (IsValidStep-check_steps config (ids p.steps) p.steps v.valid_steps)
            (then_returns (assert_acyclic p.steps) _
              ((assert_acyclic_iff p.steps v.unique
                  (All-map (λ x at. at.known_steps) p.steps v.valid_steps)).1
                (v.rank, v.ranked))
              (then_returns (check_tools (normalize_tools p.requested_tools) available) _
                (tools_again (normalize_tools p.requested_tools) available
                  (subst (All (λ t. is_empty t ≡ false)) (sym same_tools) v.tools_named)
                  (subst (All (λ t. mem t available ≡ true)) (sym same_tools) v.tools_available))
                (cc (v.stripped, same_tools)))))))
