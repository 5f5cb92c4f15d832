-- ===== src/Plan/Acceptance.antt =====
-- `_assert_acyclic` accepts the steps whose dependencies can be ranked, and no others.
use dsh_base_agent.Prelude.{
  ℕ, zero, suc, ◌+◌, ◌≤◌, ◌<◌, ◌≡◌, ◌≢◌, ◌↔◌, refl, String, string_eq, true, false, List, [], ◌∷◌,
  Result, ok, arith, Bool-cases, inl, inr, ltb,
}
use dsh_base_agent.Prelude.Lists.{length, All, all-All}
use dsh_base_agent.Prelude.Sets.{mem, IsUnique, All-map, All-both, All-at, All-key, filter-eq-nil}
use dsh_base_agent.Models.{PlanStep}
use dsh_base_agent.Plan.Errors.{PlanError}
use dsh_base_agent.Plan.Acyclic.{id_of, ids, is_ready, ready, next_round, resolve, assert_acyclic}
use dsh_base_agent.Plan.Rounds.{left, after_round, left-ready, left-nil, dependencies_of_IsUnique}
use dsh_base_agent.Plan.Ranks.{IsRanked, IsKnown, counted_after, resolve-IsRanked, none_filtered}

-- when nothing is ready, ranked steps with known dependencies are all resolved
module _ (rank : String → ℕ) (steps : List PlanStep) (resolved : List String)
    (ranked : IsRanked rank steps) (known : IsKnown steps) (stuck : ready resolved steps ≡ []) where
  one_more :
      (k : ℕ) (x : PlanStep)
      → All (λ y. rank y.step_id < k → mem y.step_id resolved ≡ true) steps
      → is_ready resolved x ≡ false
      → All (λ d. rank d < rank x.step_id) x.depends_on
      → All (λ d. mem d (ids steps) ≡ true) x.depends_on
      → rank x.step_id < suc k
      → mem x.step_id resolved ≡ true
  one_more k x before not_ready lower there bound =
      let lower_there =
        All-map
          (λ d (at : (rank d < rank x.step_id) × (mem d (ids steps) ≡ true)).
            All-key id_of (λ y. rank y < k → mem y resolved ≡ true) steps d before at.1
              (omega (arith, at.0, bound)))
          x.depends_on (All-both _ _ x.depends_on lower there) in
      ground (arith, not_ready, all-All (λ d. mem d resolved) x.depends_on lower_there)

  none_unresolved : (k : ℕ) → All (λ x. rank x.step_id < k → mem x.step_id resolved ≡ true) steps
  none_unresolved zero = All-map (λ x _ h. ground (arith, h)) steps ranked
  none_unresolved (suc k) =
      All-map (λ x at. one_more k x (none_unresolved k) at.0 at.1.0 at.1.1) steps
        (All-both _ _ steps (filter-eq-nil (is_ready resolved) steps stuck)
          (All-both _ _ steps ranked known))

  left-zero : left resolved steps ≡ 0
  left-zero =
      none_filtered (λ x. mem x.step_id resolved) steps
        (All-map (λ x k. k (omega arith)) steps
          (All-at (λ k x. rank x.step_id < k → mem x.step_id resolved ≡ true)
            (λ x. suc (rank x.step_id)) steps none_unresolved))

go_on :
    (taken : List PlanStep) (rest : Result PlanError (Unit {0}))
    → taken ≢ []
    → (1 ≤ length taken → rest ≡ ok tt)
    → next_round taken rest ≡ ok tt
go_on [] rest some_taken k = absurd (some_taken refl)
go_on (x ∷ xs) rest some_taken k = k (omega arith)

resolve-ranked :
    (fuel : ℕ) (steps : List PlanStep) (resolved : List String) (rank : String → ℕ)
    → IsUnique (ids steps)
    → IsRanked rank steps
    → IsKnown steps
    → length resolved + left resolved steps ≡ length steps
    → left resolved steps < fuel
    → resolve fuel (length steps) steps resolved ≡ ok tt
unfolding resolve
resolve-ranked zero steps resolved rank u ranked known counted enough =
    absurd (omega (arith, enough))
resolve-ranked (suc fuel) steps resolved rank u ranked known counted enough =
    let after = λ (some_taken : 1 ≤ length (ready resolved steps)).
      resolve-ranked fuel steps (after_round resolved steps) rank u ranked known
        (counted_after steps resolved u counted)
        (omega (arith, some_taken, enough, left-ready resolved steps u)) in
    elim (Bool-cases (ltb (length resolved) (length steps))) [
      | inr done ↦ rw done refl
      | inl again ↦ rw again (
          go_on (ready resolved steps)
            (resolve fuel (length steps) steps (after_round resolved steps))
            (λ stuck.
              ground (arith, again, counted, left-zero rank steps resolved ranked known stuck))
            after)
    ]

-- For steps with distinct identifiers whose dependencies are all steps, `_assert_acyclic` accepts
-- just when the identifiers have a rank that is lower for each dependency than for its step.
pub assert_acyclic_iff :
    (steps : List PlanStep)
    → IsUnique (ids steps)
    → IsKnown steps
    → (assert_acyclic steps ≡ ok tt) ↔ ((rank : String → ℕ) × IsRanked rank steps)
unfolding assert_acyclic
assert_acyclic_iff steps u known = rw (dependencies_of_IsUnique steps u) (
  resolve-IsRanked (suc (length steps)) steps [] (λ _. 0) 0 u
      (record { below = λ x h. cc; ordered = All-map (λ x _ h. cc) steps known })
      (omega (arith, left-nil steps)),
  λ at.
      resolve-ranked (suc (length steps)) steps [] at.0 u at.1 known (omega (arith, left-nil steps))
        (omega (arith, left-nil steps)),
)
