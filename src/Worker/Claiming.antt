-- ===== src/Worker/Claiming.antt =====
-- What the rounds of `_claim_available_work` do to the table of tasks, and that they end.
use dsh_base_agent.Prelude.{
  ℕ, zero, suc, ◌+◌, ◌<◌, ◌≡◌, refl, ap, Bool, true, false, not, ◌&&◌, ◌||◌, Option, none, some,
  List, [], ◌∷◌, ◌++◌, Result, ok, err, Error, arith, ltb, Bool-cases, ◌==◌, nat_eq, inl, inr,
}
use dsh_base_agent.Prelude.Lists.{length, length-append}
use dsh_base_agent.Prelude.Text.{is_empty, strip}
use dsh_base_agent.Models.{WorkLease}
use dsh_base_agent.Leases.Table.{Resource, lease_resource}
use dsh_base_agent.Leases.Claims.{Queue, claim_work, release_work_lease}
use dsh_base_agent.Worker.Config.{WorkerConfig}
use dsh_base_agent.Worker.Service.{
  Env, Service, Round, Ending, capacity, is_refused, released, release, start_task, claim,
  claim_round, after_round, claim_loop, claim_available_work,
}

-- the tasks after a round: one more if it was started, and then it was not refused
abbrev pub IsRound : WorkerConfig → List Resource → Result Error Round × Service → Type 0
IsRound c tasks (ok (Round.started lease), t) =
    (is_refused c tasks (lease_resource lease) ≡ false)
    × (t.tasks ≡ tasks ++ lease_resource lease ∷ [])
IsRound c tasks (ok Round.ended, t) = t.tasks ≡ tasks
IsRound c tasks (err e, t) = t.tasks ≡ tasks

released-IsRound :
    (c : WorkerConfig) (done : Result Error Bool × Queue) (n : ℕ) (tasks : List Resource)
    → IsRound c tasks (released done n tasks)
released-IsRound c (err e, queue) n tasks = refl
released-IsRound c (ok _, queue) n tasks = refl

start_task-IsRound :
    (c : WorkerConfig) (env : Env) (found : Result Error (Option WorkLease)) (s : Service)
    → IsRound c s.tasks (start_task c env found s)
unfolding start_task release
start_task-IsRound c env (err e) s = refl
start_task-IsRound c env (ok none) s = refl
start_task-IsRound c env (ok (some lease)) s =
    elim (Bool-cases (is_refused c s.tasks (lease_resource lease))) [
      | inl refused ↦ rw refused (released-IsRound c _ s.awaits s.tasks)
      | inr accepted ↦ rw accepted (accepted, refl)
    ]

pub claim_round-IsRound :
    (c : WorkerConfig) (env : Env) (s : Service) → IsRound c s.tasks (claim_round c env s)
unfolding claim_round
claim_round-IsRound c env s =
    start_task-IsRound c env (claim c env s).0
      (record s { queue = (claim c env s).1; awaits = suc s.awaits })

-- a result that is not an exception
abbrev pub IsOk : {A : Type 0} → Result Error A → Type 0
IsOk (ok _) = Unit
IsOk (err e) = ⊥

start_task-IsOk :
    (c : WorkerConfig) (env : Env) (found : Result Error (Option WorkLease)) (s : Service)
    → IsOk found
    → IsOk (start_task c env found s).0
unfolding start_task release release_work_lease
start_task-IsOk c env (err e) s valid = valid
start_task-IsOk c env (ok none) s valid = tt
start_task-IsOk c env (ok (some lease)) s valid =
    elim (Bool-cases (is_refused c s.tasks (lease_resource lease))) [
      | inl refused ↦ rw refused tt
      | inr accepted ↦ rw accepted tt
    ]

-- With the identifier of a Worker and a lease time, `claim_work` raises nothing.
claim-IsOk :
    (c : WorkerConfig) (env : Env) (s : Service)
    → (is_empty (strip c.worker_id) || c.lease_seconds == 0) ≡ false
    → IsOk (claim c env s).0
unfolding claim claim_work
claim-IsOk c env s valid = rw valid tt

-- a predicate on the tasks with which a loop ends that raised nothing
abbrev pub OnEnding : (List Resource → Type 0) → Ending → Type 0
OnEnding P none = Unit
OnEnding P (some (err e, t)) = ⊥
OnEnding P (some (ok _, t)) = P t.tasks

-- What each accepted task keeps, the loop keeps.
module _ (c : WorkerConfig) (env : Env) (P : List Resource → Type 0)
    (keeps : (tasks : List Resource) (key : Resource)
      → P tasks
      → is_refused c tasks key ≡ false
      → P (tasks ++ key ∷ []))
    (valid : (is_empty (strip c.worker_id) || c.lease_seconds == 0) ≡ false) where
  after_round-OnEnding :
      (claimed : Bool) (tasks : List Resource) (round : Result Error Round × Service)
      (loop : Service → Ending)
      → P tasks
      → IsRound c tasks round
      → IsOk round.0
      → ((t : Service) → P t.tasks → OnEnding P (loop t))
      → OnEnding P (after_round claimed round loop)
  after_round-OnEnding claimed tasks (err e, t) loop p r raised rest = raised
  after_round-OnEnding claimed tasks (ok Round.ended, t) loop p r returned rest = rw r p
  after_round-OnEnding claimed tasks (ok (Round.started lease), t) loop p r returned rest =
      rest t (rw r.1 (keeps tasks (lease_resource lease) p r.0))

  claim_round-IsOk : (s : Service) → IsOk (claim_round c env s).0
  unfolding claim_round
  claim_round-IsOk s =
      start_task-IsOk c env (claim c env s).0
        (record s { queue = (claim c env s).1; awaits = suc s.awaits }) (claim-IsOk c env s valid)

  pub claim_loop-OnEnding :
      (fuel : ℕ) (claimed : Bool) (s : Service)
      → P s.tasks
      → OnEnding P (claim_loop c env fuel claimed s)
  unfolding claim_loop
  claim_loop-OnEnding zero claimed s p = tt
  claim_loop-OnEnding (suc fuel) claimed s p =
      elim (Bool-cases (ltb (length s.tasks) (capacity c) && not (env.stopping s.awaits))) [
        | inl on ↦ rw on (
            after_round-OnEnding claimed s.tasks (claim_round c env s) (claim_loop c env fuel true)
              p (claim_round-IsRound c env s) (claim_round-IsOk s) (claim_loop-OnEnding fuel true))
        | inr off ↦ rw off p
      ]

-- the loop ended before its fuel ran out
abbrev pub Ended : Ending → Type 0
Ended ending = (r : Result Error Bool × Service) × (ending ≡ some r)

module _ (c : WorkerConfig) (env : Env) where
  after_round-Ended :
      (claimed : Bool) (tasks : List Resource) (round : Result Error Round × Service)
      (loop : Service → Ending)
      → IsRound c tasks round
      → ((t : Service) → length t.tasks ≡ suc (length tasks) → Ended (loop t))
      → Ended (after_round claimed round loop)
  after_round-Ended claimed tasks (err e, t) loop r rest = (_, refl)
  after_round-Ended claimed tasks (ok Round.ended, t) loop r rest = (_, refl)
  after_round-Ended claimed tasks (ok (Round.started lease), t) loop r rest =
      rest t (omega (arith, ap length r.1, length-append tasks (lease_resource lease ∷ [])))

  -- A round starts only below the capacity, so there is fuel for the one after it.
  claim_loop-Ended :
      (fuel : ℕ) (claimed : Bool) (s : Service)
      → 0 < fuel
      → capacity c < fuel + length s.tasks
      → Ended (claim_loop c env fuel claimed s)
  unfolding claim_loop
  claim_loop-Ended zero claimed s some_left enough = absurd (omega (arith, some_left))
  claim_loop-Ended (suc fuel) claimed s some_left enough =
      elim (Bool-cases (ltb (length s.tasks) (capacity c) && not (env.stopping s.awaits))) [
        | inl on ↦
            let below = ltb_lt (length s.tasks) (capacity c) (not (env.stopping s.awaits)) on in
            rw on (
              after_round-Ended claimed s.tasks (claim_round c env s) (claim_loop c env fuel true)
                (claim_round-IsRound c env s)
                (λ t longer.
                  claim_loop-Ended fuel true t (omega (arith, enough, below))
                    (omega (arith, enough, longer))))
        | inr off ↦ rw off (_, refl)
      ]
    where
      ltb_lt : (a b : ℕ) (p : Bool) → (ltb a b && p) ≡ true → a < b
      ltb_lt a b p h = ground (arith, h)

  -- _claim_available_work ends for every configuration and from every table of tasks, whatever other
  -- Workers and its own tasks do to the queue between its calls: it returns or it raises.
  pub claim_available_work-Ended :
      (s : Service) → (r : Result Error Bool × Service) × (claim_available_work c env s ≡ some r)
  unfolding claim_available_work
  claim_available_work-Ended s =
      claim_loop-Ended (suc (capacity c)) false s (omega arith) (omega arith)
