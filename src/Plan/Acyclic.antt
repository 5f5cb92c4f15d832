-- ===== src/Plan/Acyclic.antt =====
-- `_assert_acyclic` of control/plan_react.py.
use dsh_base_agent.Prelude.{
  ℕ, zero, suc, String, string_eq, Bool, not, ◌&&◌, List, [], ◌∷◌, ◌++◌, map, Result, ok, err, ltb,
  if◌then◌else◌,
}
use dsh_base_agent.Prelude.Lists.{length, all}
use dsh_base_agent.Prelude.Sets.{filter, mem}
use dsh_base_agent.Models.{PlanStep}
use dsh_base_agent.Plan.Errors.{PlanError, cyclic, out_of_fuel}

abbrev pub id_of : PlanStep → String
id_of step = step.step_id

abbrev pub ids : List PlanStep → List String
ids steps = map id_of steps

-- `step_id not in resolved and required <= resolved`
abbrev pub is_ready : List String → PlanStep → Bool
is_ready resolved step =
    not (mem step.step_id resolved) && all (λ d. mem d resolved) step.depends_on

-- `dependencies` has one entry for each identifier, that of the last step with it. The order of the
-- entries does not matter, since the loop only makes sets of them.
abbrev pub dependencies : List PlanStep → List PlanStep
dependencies [] = []
dependencies (x ∷ xs) =
    let rest = dependencies xs in if mem x.step_id (ids xs) then rest else x ∷ rest

abbrev pub ready : List String → List PlanStep → List PlanStep
ready resolved steps = filter (is_ready resolved) steps

-- the body of the loop, after the test that not all steps are resolved
abbrev pub next_round : List PlanStep → Result PlanError (Unit {0}) → Result PlanError (Unit {0})
next_round [] rest = err cyclic
next_round (_ ∷ _) rest = rest

-- `while len(resolved) < len(steps)`, for a number of steps and the dictionary of them
unfoldable pub resolve : ℕ → ℕ → List PlanStep → List String → Result PlanError (Unit {0})
resolve zero count steps resolved = err out_of_fuel
resolve (suc fuel) count steps resolved =
    let rest = resolve fuel count steps (ids (ready resolved steps) ++ resolved) in
    if ltb (length resolved) count then next_round (ready resolved steps) rest else ok tt

unfoldable pub assert_acyclic : List PlanStep → Result PlanError (Unit {0})
unfolding resolve
assert_acyclic steps = resolve (suc (length steps)) (length steps) (dependencies steps) []
