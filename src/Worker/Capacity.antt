-- ===== src/Worker/Capacity.antt =====
-- How much a Worker takes on.
use dsh_base_agent.Prelude.{
  ℕ, Result, Error, suc, ◌+◌, ◌≤◌, ◌≡◌, refl, Bool, true, false, not, ◌||◌, none, some, List, [],
  ◌∷◌, ◌++◌, ok, err, arith, if◌then◌else◌, Bool-cases, inl, inr, ◌==◌, nat_eq, beq_comm,
}
use dsh_base_agent.Prelude.Sets.{mem, IsUnique, filter, mem-append}
use dsh_base_agent.Prelude.Text.{is_empty, strip}
use dsh_base_agent.Models.{resource_type_eq}
use dsh_base_agent.Leases.Table.{Resource, resource_eq}
use dsh_base_agent.Worker.Config.{WorkerConfig, post_init}
use dsh_base_agent.Worker.Service.{
  Env, Service, Ending, count, is_run, is_conversation, capacity, owned_conversation_count,
  standalone_run_count, is_refused, claim_available_work, discard_finished_tasks, pause, poll,
  after_reconcile, after_poll, run_forever,
}
use dsh_base_agent.Worker.Claiming.{
  OnEnding, Ended, claim_loop-OnEnding, claim_available_work-Ended,
}

-- One task for a resource, at most `max_concurrency` for Runs by themselves and at most
-- `max_owned_conversations` for Conversations.
pub record IsWithin (c : WorkerConfig) (tasks : List Resource) : Type 0 where
  pub distinct : IsUnique tasks
  pub runs : standalone_run_count tasks ≤ c.max_concurrency
  pub conversations : owned_conversation_count tasks ≤ c.max_owned_conversations

count-append :
    (p : Resource → Bool) (xs : List Resource) (x : Resource)
    → count p (xs ++ x ∷ []) ≡ count p xs + (if p x then 1 else 0)
count-append p [] x = omega arith
count-append p (y ∷ ys) x = omega (arith, count-append p ys x)

count-filter : (p q : Resource → Bool) (xs : List Resource) → count p (filter q xs) ≤ count p xs
count-filter p q [] = omega arith
count-filter p q (x ∷ xs) = ground (arith, count-filter p q xs)

IsUnique-append :
    (xs : List Resource) (x : Resource) → IsUnique xs → mem x xs ≡ false → IsUnique (xs ++ x ∷ [])
IsUnique-append [] x u h = (refl, tt)
IsUnique-append (y ∷ ys) x u h = (
  ground (arith, mem-append y ys (x ∷ []), u.0, h, beq_comm y x),
  IsUnique-append ys x u.1 (ground (arith, h)),
)

mem-filter_keys :
    (q : Resource → Bool) (x : Resource) (xs : List Resource)
    → mem x (filter q xs) ≡ true
    → mem x xs ≡ true
mem-filter_keys q x [] h = h
mem-filter_keys q x (y ∷ ys) h = ground (arith, mem-filter_keys q x ys)

IsUnique-filter : (q : Resource → Bool) (xs : List Resource) → IsUnique xs → IsUnique (filter q xs)
IsUnique-filter q [] u = tt
IsUnique-filter q (x ∷ xs) u = elim (Bool-cases (q x)) [
  | inl e ↦ rw e (ground (arith, u.0, mem-filter_keys q x xs), IsUnique-filter q xs u.1)
  | inr e ↦ rw e (IsUnique-filter q xs u.1)
]

IsWithin-append :
    (c : WorkerConfig) (tasks : List Resource) (key : Resource)
    → IsWithin c tasks
    → is_refused c tasks key ≡ false
    → IsWithin c (tasks ++ key ∷ [])
unfolding is_refused owned_conversation_count standalone_run_count
IsWithin-append c tasks key w h = record {
  distinct = IsUnique-append tasks key w.distinct (ground (arith, h));
  runs = ground (arith, h, w.runs, count-append is_run tasks key);
  conversations = ground (arith, h, w.conversations, count-append is_conversation tasks key);
}

IsWithin-filter :
    (c : WorkerConfig) (q : Resource → Bool) (tasks : List Resource)
    → IsWithin c tasks
    → IsWithin c (filter q tasks)
unfolding owned_conversation_count standalone_run_count
IsWithin-filter c q tasks w = record {
  distinct = IsUnique-filter q tasks w.distinct;
  runs = omega (arith, w.runs, count-filter is_run q tasks);
  conversations = omega (arith, w.conversations, count-filter is_conversation q tasks);
}

-- what a configuration that is accepted gives to `claim_work`
post_init-claimable :
    (c : WorkerConfig)
    → post_init c ≡ ok tt
    → (is_empty (strip c.worker_id) || c.lease_seconds == 0) ≡ false
unfolding post_init
post_init-claimable c h = ground (arith, h)

-- nothing is raised but what the reconciliation of expired leases raised
abbrev pub IsRaised : Env → Result Error Bool → Type 0
IsRaised env (ok _) = Unit
IsRaised env (err e) = (n : ℕ) × (env.reconcile_expired_worker_leases n ≡ err e)

-- a loop that ends, with the tasks within the bounds
abbrev pub EndsWithin : WorkerConfig → Env → Ending → Type 0
EndsWithin c env ending =
    (r : Result Error Bool × Service) × (ending ≡ some r) × IsWithin c r.1.tasks × IsRaised env r.0

claim_available_work-OnEnding :
    (c : WorkerConfig) (env : Env) (s : Service)
    → post_init c ≡ ok tt
    → IsWithin c s.tasks
    → OnEnding (IsWithin c) (claim_available_work c env s)
unfolding claim_available_work
claim_available_work-OnEnding c env s valid w =
    claim_loop-OnEnding c env (IsWithin c) (IsWithin-append c) (post_init-claimable c valid)
      (suc (capacity c)) false s w

after_claims-EndsWithin :
    (c : WorkerConfig) (env : Env) (ending : Ending) (next : Service → Ending)
    → Ended ending
    → OnEnding (IsWithin c) ending
    → ((t : Service) → IsWithin c t.tasks → EndsWithin c env (next t))
    → EndsWithin c env (after_poll env ending next)
after_claims-EndsWithin c env none next (r, h) w rest = cc
after_claims-EndsWithin c env (some (err e, t)) next h w rest = absurd w
after_claims-EndsWithin c env (some (ok true, t)) next h w rest = rest t w
after_claims-EndsWithin c env (some (ok false, t)) next h w rest = rest (pause env t) w

after_reconcile-EndsWithin :
    (c : WorkerConfig) (env : Env) (n : ℕ) (reconciled : Result Error (Unit {0})) (t : Service)
    (ending : Ending) (next : Service → Ending)
    → env.reconcile_expired_worker_leases n ≡ reconciled
    → IsWithin c t.tasks
    → EndsWithin c env (after_poll env ending next)
    → EndsWithin c env (after_poll env (after_reconcile reconciled t ending) next)
after_reconcile-EndsWithin c env n (ok _) t ending next is w go = go
after_reconcile-EndsWithin c env n (err e) t ending next is w go = ((err e, t), refl, w, (n, is))

-- the state in which a round of `run_forever` claims
abbrev resumed : Env → (Resource → Bool) → Service → Service
unfolding discard_finished_tasks
resumed env is_done s = pause env (discard_finished_tasks is_done s)

-- With a configuration that __post_init__ accepts, and from tasks within the bounds, any number of
-- rounds of run_forever ends, whichever tasks finish and whatever happens to the queue. It raises
-- nothing but what a reconciliation of expired leases raised, and in any case the tasks are within
-- the bounds: one for a resource, at most max_concurrency for Runs by themselves and at most
-- max_owned_conversations for Conversations.
pub run_forever-IsWithin :
    (c : WorkerConfig) (env : Env) (rounds : List (Resource → Bool)) (s : Service)
    → post_init c ≡ ok tt
    → IsWithin c s.tasks
    → (r : Result Error Bool × Service) × (run_forever c env rounds s ≡ some r)
      × IsWithin c r.1.tasks
      × IsRaised env r.0
unfolding run_forever poll
run_forever-IsWithin c env [] s valid w = ((ok false, s), refl, w, tt)
run_forever-IsWithin c env (is_done ∷ rest) s valid w =
    let t = resumed env is_done s in
    let kept = IsWithin-filter c (λ key. not (is_done key)) s.tasks w in
    elim (Bool-cases (env.stopping s.awaits)) [
      | inl on ↦ rw on ((ok false, s), refl, w, tt)
      | inr off ↦ rw off (
          after_reconcile-EndsWithin c env s.awaits _ t (claim_available_work c env t)
            (run_forever c env rest) refl kept
            (after_claims-EndsWithin c env (claim_available_work c env t) (run_forever c env rest)
              (claim_available_work-Ended c env t)
              (claim_available_work-OnEnding c env t valid kept)
              (λ t' w'. run_forever-IsWithin c env rest t' valid w')))
    ]
