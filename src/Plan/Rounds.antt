-- ===== src/Plan/Rounds.antt =====
-- A round of `_assert_acyclic` resolves the steps that are ready, so it ends.
use dsh_base_agent.Prelude.{
  ℕ, zero, suc, ◌+◌, ◌≤◌, ◌<◌, ◌≡◌, ◌≢◌, refl, ap, String, string_eq, Bool, true, false, not, List,
  [], ◌∷◌, ◌++◌, Result, err, arith, Bool-cases, inl, inr, ltb,
}
use dsh_base_agent.Prelude.Lists.{length, All}
use dsh_base_agent.Prelude.Sets.{
  filter, mem, IsUnique, All-map, All-filter_kept, All-mem-filter, mem-append,
}
use dsh_base_agent.Models.{PlanStep}
use dsh_base_agent.Plan.Errors.{PlanError, out_of_fuel}
use dsh_base_agent.Plan.Acyclic.{
  id_of, ids, dependencies, is_ready, ready, next_round, resolve, assert_acyclic,
}

-- the steps that are left
abbrev pub is_left : List String → PlanStep → Bool
is_left resolved step = not (mem step.step_id resolved)

abbrev pub left : List String → List PlanStep → ℕ
left resolved steps = length (filter (is_left resolved) steps)

abbrev pub after_round : List String → List PlanStep → List String
after_round resolved steps = ids (ready resolved steps) ++ resolved

-- three filters of one list, by what holds at each element
length-filter-sum-le :
    (p q r : PlanStep → Bool) (xs : List PlanStep)
    → All (λ x. q x ≡ true → (p x ≡ true) × (r x ≡ false)) xs
    → All (λ x. r x ≡ true → p x ≡ true) xs
    → length (filter q xs) + length (filter r xs) ≤ length (filter p xs)
length-filter-sum-le p q r [] a b = omega arith
length-filter-sum-le p q r (x ∷ xs) a b =
    ground (arith, a.0, b.0, length-filter-sum-le p q r xs a.1 b.1)

length-filter-sum :
    (p q r : PlanStep → Bool) (xs : List PlanStep)
    → All (λ x. q x ≡ true → (p x ≡ true) × (r x ≡ false)) xs
    → All (λ x. q x ≡ false → r x ≡ p x) xs
    → length (filter q xs) + length (filter r xs) ≡ length (filter p xs)
length-filter-sum p q r [] a b = omega arith
length-filter-sum p q r (x ∷ xs) a b = ground (arith, a.0, b.0, length-filter-sum p q r xs a.1 b.1)

-- A step that is ready is left, and is resolved by the round.
pub taken-ready :
    (resolved : List String) (steps : List PlanStep)
    → All
        (λ x.
          is_ready resolved x ≡ true
          → (is_left resolved x ≡ true) × (is_left (after_round resolved steps) x ≡ false))
        steps
taken-ready resolved steps =
    All-map
      (λ x kept h.
        ground (arith, h, kept h, mem-append x.step_id (ids (ready resolved steps)) resolved))
      steps (All-filter_kept id_of (is_ready resolved) steps)

pub left-ready-le :
    (resolved : List String) (steps : List PlanStep)
    → length (ready resolved steps) + left (after_round resolved steps) steps ≤ left resolved steps
left-ready-le resolved steps =
    length-filter-sum-le (is_left resolved) (is_ready resolved)
      (is_left (after_round resolved steps)) steps (taken-ready resolved steps)
      (All-map
        (λ x _ h. ground (arith, h, mem-append x.step_id (ids (ready resolved steps)) resolved))
        steps (taken-ready resolved steps))

-- With distinct identifiers a round resolves no other step.
pub left-ready :
    (resolved : List String) (steps : List PlanStep)
    → IsUnique (ids steps)
    → length (ready resolved steps) + left (after_round resolved steps) steps ≡ left resolved steps
left-ready resolved steps u =
    length-filter-sum (is_left resolved) (is_ready resolved) (is_left (after_round resolved steps))
      steps (taken-ready resolved steps)
      (All-map
        (λ x only h.
          ground (arith, h, only, mem-append x.step_id (ids (ready resolved steps)) resolved))
        steps (All-mem-filter id_of (is_ready resolved) steps u))

pub left-nil : (steps : List PlanStep) → left [] steps ≡ length steps
left-nil [] = refl
left-nil (x ∷ xs) = ap suc (left-nil xs)

round-ends :
    (taken : List PlanStep) (rest : Result PlanError (Unit {0}))
    → (1 ≤ length taken → rest ≢ err out_of_fuel)
    → next_round taken rest ≢ err out_of_fuel
round-ends [] rest k h = cc
round-ends (x ∷ xs) rest k h = k (omega arith) h

-- With more fuel than steps are left, the loop ends.
resolve-ends :
    (fuel count : ℕ) (steps : List PlanStep) (resolved : List String)
    → left resolved steps < fuel
    → resolve fuel count steps resolved ≢ err out_of_fuel
unfolding resolve
resolve-ends zero count steps resolved enough h = omega (arith, enough)
resolve-ends (suc fuel) count steps resolved enough h =
    let rest = resolve fuel count steps (after_round resolved steps) in
    let ends = round-ends (ready resolved steps) rest (λ some_taken.
      resolve-ends fuel count steps (after_round resolved steps)
        (omega (arith, some_taken, enough, left-ready-le resolved steps))) in
    elim (Bool-cases (ltb (length resolved) count)) [
      | inr done ↦ cc (h, done)
      | inl again ↦ ends (cc (h, again))
    ]

length-dependencies-le : (steps : List PlanStep) → length (dependencies steps) ≤ length steps
length-dependencies-le [] = omega arith
length-dependencies-le (x ∷ xs) = ground (arith, length-dependencies-le xs)

-- Steps with distinct identifiers are the dictionary of them.
pub dependencies_of_IsUnique :
    (steps : List PlanStep) → IsUnique (ids steps) → dependencies steps ≡ steps
dependencies_of_IsUnique [] u = refl
dependencies_of_IsUnique (x ∷ xs) u = rw u.0 (ap (λ ys. x ∷ ys) (dependencies_of_IsUnique xs u.1))

-- The loop of `_assert_acyclic` ends for every list of steps: the fuel of the model, one more
-- than the number of steps, never runs out.
pub assert_acyclic-ends : (steps : List PlanStep) → assert_acyclic steps ≢ err out_of_fuel
unfolding assert_acyclic
assert_acyclic-ends steps =
    resolve-ends (suc (length steps)) (length steps) (dependencies steps) []
      (omega (arith, left-nil (dependencies steps), length-dependencies-le steps))
