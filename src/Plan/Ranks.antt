-- ===== src/Plan/Ranks.antt =====
-- What `_assert_acyclic` accepts has a rank that puts dependencies first.
use dsh_base_agent.Prelude.{
  ℕ, zero, suc, ◌+◌, ◌<◌, ◌≡◌, refl, String, string_eq, Bool, true, false, not, List, [], ◌∷◌,
  Result, ok, arith, Bool-cases, inl, inr, ltb, if◌then◌else◌,
}
use dsh_base_agent.Prelude.Lists.{length, length-append, length-map, All, All-all}
use dsh_base_agent.Prelude.Sets.{
  filter, mem, IsUnique, All-map, All-both, All-mem-filter, mem-append,
}
use dsh_base_agent.Models.{PlanStep}
use dsh_base_agent.Plan.Errors.{PlanError}
use dsh_base_agent.Plan.Acyclic.{id_of, ids, is_ready, ready, next_round, resolve}
use dsh_base_agent.Plan.Rounds.{left, after_round, left-ready}

-- Every dependency stands before its step.
abbrev pub IsRanked : (String → ℕ) → List PlanStep → Type 0
IsRanked rank steps = All (λ x. All (λ d. rank d < rank x.step_id) x.depends_on) steps

-- Every dependency is a step.
abbrev pub IsKnown : List PlanStep → Type 0
IsKnown steps = All (λ x. All (λ d. mem d (ids steps) ≡ true) x.depends_on) steps

-- Before round `n` the resolved steps are ranked below `n`, with their dependencies.
pub record IsResolved (steps : List PlanStep) (resolved : List String) (rank : String → ℕ) (n : ℕ)
    : Type 0 where
  pub below : (x : String) → mem x resolved ≡ true → rank x < n
  pub ordered :
      All
        (λ x.
          mem x.step_id resolved ≡ true
          → All (λ d. (mem d resolved ≡ true) × (rank d < rank x.step_id)) x.depends_on)
        steps

abbrev next_rank : List String → (String → ℕ) → ℕ → String → ℕ
next_rank resolved rank n x = if mem x resolved then rank x else n

-- a step's dependencies, when the step is resolved
abbrev IsOrderedAt : List String → (String → ℕ) → PlanStep → Type 0
IsOrderedAt resolved rank x =
    All (λ d. (mem d resolved ≡ true) × (rank d < rank x.step_id)) x.depends_on

module _ (steps : List PlanStep) (resolved : List String) (rank : String → ℕ) (n : ℕ)
    (h : IsResolved steps resolved rank n) where
  still_before :
      (x d : String)
      → mem x resolved ≡ true
      → (mem d resolved ≡ true) × (rank d < rank x)
      → (mem d (after_round resolved steps) ≡ true)
        × (next_rank resolved rank n d < next_rank resolved rank n x)
  still_before x d old at = (
    ground (arith, at.0, mem-append d (ids (ready resolved steps)) resolved),
    ground (arith, at.0, at.1, old),
  )

  newly_before :
      (x d : String)
      → mem x resolved ≡ false
      → mem d resolved ≡ true
      → (mem d (after_round resolved steps) ≡ true)
        × (next_rank resolved rank n d < next_rank resolved rank n x)
  newly_before x d new at = (
    ground (arith, at, mem-append d (ids (ready resolved steps)) resolved),
    ground (arith, at, new, h.below d at),
  )

  ordered_at :
      (x : PlanStep)
      → (mem x.step_id resolved ≡ true → IsOrderedAt resolved rank x)
      → (mem x.step_id (ids (ready resolved steps)) ≡ true → is_ready resolved x ≡ true)
      → mem x.step_id (after_round resolved steps) ≡ true
      → IsOrderedAt (after_round resolved steps) (next_rank resolved rank n) x
  ordered_at x before only now = elim (Bool-cases (mem x.step_id resolved)) [
    | inl old ↦ All-map (λ d. still_before x.step_id d old) x.depends_on (before old)
    | inr new ↦
        All-map (λ d. newly_before x.step_id d new) x.depends_on
          (All-all (λ d. mem d resolved) x.depends_on
            (ground
              (arith, new, only, now, mem-append x.step_id (ids (ready resolved steps)) resolved)))
  ]

  IsResolved-after :
      IsUnique (ids steps)
      → IsResolved steps (after_round resolved steps) (next_rank resolved rank n) (suc n)
  IsResolved-after u = record {
    below = λ x _. ground (arith, h.below x);
    ordered =
        All-map (λ x k. ordered_at x k.0 k.1) steps
          (All-both _ _ steps h.ordered (All-mem-filter id_of (is_ready resolved) steps u));
  }

-- at the end every step is resolved
none_left :
    (p : PlanStep → Bool) (xs : List PlanStep)
    → length (filter (λ x. not (p x)) xs) ≡ 0
    → All (λ x. p x ≡ true) xs
none_left p [] h = tt
none_left p (x ∷ xs) h = elim (Bool-cases (p x)) [
  | inl e ↦ (e, none_left p xs (ground (arith, h, e)))
  | inr e ↦ ground (arith, h, e)
]

pub none_filtered :
    (p : PlanStep → Bool) (xs : List PlanStep)
    → All (λ x. p x ≡ true) xs
    → length (filter (λ x. not (p x)) xs) ≡ 0
none_filtered p [] h = refl
none_filtered p (x ∷ xs) h = ground (arith, h.0, none_filtered p xs h.1)

IsRanked-at_end :
    (steps : List PlanStep) (resolved : List String) (rank : String → ℕ) (n : ℕ)
    → IsResolved steps resolved rank n
    → left resolved steps ≡ 0
    → IsRanked rank steps
IsRanked-at_end steps resolved rank n h done =
    All-map (λ x k. All-map (λ d at. at.1) x.depends_on (k.0 k.1)) steps
      (All-both _ _ steps h.ordered (none_left (λ x. mem x.step_id resolved) steps done))

ok_round :
    (taken : List PlanStep) (rest : Result PlanError (Unit {0}))
    → next_round taken rest ≡ ok tt
    → rest ≡ ok tt
ok_round [] rest h = cc
ok_round (x ∷ xs) rest h = h

pub counted_after :
    (steps : List PlanStep) (resolved : List String)
    → IsUnique (ids steps)
    → length resolved + left resolved steps ≡ length steps
    → length (after_round resolved steps) + left (after_round resolved steps) steps ≡ length steps
counted_after steps resolved u counted = omega (
  arith,
  counted,
  left-ready resolved steps u,
  length-append (ids (ready resolved steps)) resolved,
  length-map id_of (ready resolved steps),
)

pub resolve-IsRanked :
    (fuel : ℕ) (steps : List PlanStep) (resolved : List String) (rank : String → ℕ) (n : ℕ)
    → IsUnique (ids steps)
    → IsResolved steps resolved rank n
    → length resolved + left resolved steps ≡ length steps
    → resolve fuel (length steps) steps resolved ≡ ok tt
    → (rank : String → ℕ) × IsRanked rank steps
unfolding resolve
resolve-IsRanked zero steps resolved rank n u h counted accepted = cc
resolve-IsRanked (suc fuel) steps resolved rank n u h counted accepted =
    elim (Bool-cases (ltb (length resolved) (length steps))) [
      | inr done ↦ (rank, IsRanked-at_end steps resolved rank n h (ground (arith, done, counted)))
      | inl again ↦
          resolve-IsRanked fuel steps (after_round resolved steps) (next_rank resolved rank n)
            (suc n) u (IsResolved-after steps resolved rank n h u)
            (counted_after steps resolved u counted)
            (ok_round (ready resolved steps) _ (cc (accepted, again)))
    ]
