-- ===== src/Worker/Service.antt =====
-- `WorkerService`: the table of tasks and the claiming of work. What a task does with its resource,
-- and what other Workers do to the queue, is what `others` did to it when a call begins.
use dsh_base_agent.Prelude.{
  ℕ, zero, suc, ◌+◌, String, Bool, true, false, not, ◌&&◌, ◌||◌, Option, none, some, List, [], ◌∷◌,
  ◌++◌, Result, ok, err, Error, ◌==◌, if◌then◌else◌, leb, ltb,
}
use dsh_base_agent.Prelude.Lists.{length}
use dsh_base_agent.Prelude.Sets.{mem, filter}
use dsh_base_agent.Models.{RunRecord, WorkLease, WorkResourceType, resource_type_eq}
use dsh_base_agent.Leases.Table.{Resource, resource_eq, lease_resource}
use dsh_base_agent.Leases.Claims.{Queue, claim_work, release_work_lease}
use dsh_base_agent.Worker.Config.{WorkerConfig}

-- At each await, by the number of awaits before it: what else happened to the queue, the time and
-- the locked rows that the store then sees, whether `_stop` is set, and how the reconciliation of
-- expired leases ends, which raises what the store raises. The queries of `claim_work` and
-- `release_work_lease` do not fail.
pub record Env : Type 0 where
  pub others : ℕ → Queue → Queue
  pub now : ℕ → ℕ
  pub locked : ℕ → RunRecord → Bool
  pub stopping : ℕ → Bool
  pub collation : String → ℕ
  pub reconcile_expired_worker_leases : ℕ → Result Error (Unit {0})

-- `_tasks` by its keys, in the order in which they were set
pub record Service : Type 0 where
  pub tasks : List Resource
  pub queue : Queue
  pub awaits : ℕ

abbrev pub count : (Resource → Bool) → List Resource → ℕ
count p [] = 0
count p (x ∷ xs) = (if p x then 1 else 0) + count p xs

abbrev pub is_run : Resource → Bool
is_run key = key.type == WorkResourceType.run

abbrev pub is_conversation : Resource → Bool
is_conversation key = key.type == WorkResourceType.conversation

unfoldable pub owned_conversation_count : List Resource → ℕ
owned_conversation_count tasks = count is_conversation tasks

unfoldable pub standalone_run_count : List Resource → ℕ
standalone_run_count tasks = count is_run tasks

abbrev pub capacity : WorkerConfig → ℕ
capacity c = c.max_concurrency + c.max_owned_conversations

-- the three tests on a claimed lease, each followed by its release
unfoldable pub is_refused : WorkerConfig → List Resource → Resource → Bool
unfolding owned_conversation_count standalone_run_count
is_refused c tasks key =
    mem key tasks
    || ((is_run key && leb c.max_concurrency (standalone_run_count tasks))
        || (is_conversation key && leb c.max_owned_conversations (owned_conversation_count tasks)))

-- how a round of the loop ends: with `break`, or with a task for the claimed resource
pub data Round : Type 0 where
  ended : Round
  started : WorkLease → Round

abbrev pub released : Result Error Bool × Queue → ℕ → List Resource → Result Error Round × Service
released (err e, queue) n tasks = (err e, record { tasks = tasks; queue = queue; awaits = suc n })
released (ok _, queue) n tasks =
    (ok Round.ended, record { tasks = tasks; queue = queue; awaits = suc n })

unfoldable pub release : Env → WorkLease → Service → Result Error Round × Service
release env lease s =
    released (release_work_lease lease (env.now s.awaits) (env.others s.awaits s.queue)) s.awaits
      s.tasks

-- the rest of the round, after `claim_work`
unfoldable pub start_task :
    WorkerConfig → Env → Result Error (Option WorkLease) → Service → Result Error Round × Service
unfolding is_refused release
start_task c env (err e) s = (err e, s)
start_task c env (ok none) s = (ok Round.ended, s)
start_task c env (ok (some lease)) s =
    if is_refused c s.tasks (lease_resource lease)
    then release env lease s
    else (ok (Round.started lease), record s { tasks = s.tasks ++ lease_resource lease ∷ [] })

unfoldable pub claim : WorkerConfig → Env → Service → Result Error (Option WorkLease) × Queue
claim c env s =
    claim_work env.collation c.worker_id c.lease_seconds (env.locked s.awaits) (env.now s.awaits)
      (env.others s.awaits s.queue)

unfoldable pub claim_round : WorkerConfig → Env → Service → Result Error Round × Service
unfolding claim start_task
claim_round c env s =
    start_task c env (claim c env s).0
      (record s { queue = (claim c env s).1; awaits = suc s.awaits })

-- `claimed` and the state with which the loop ends
abbrev pub Ending : Type 0
Ending = Option (Result Error Bool × Service)

abbrev pub after_round : Bool → Result Error Round × Service → (Service → Ending) → Ending
after_round claimed (err e, s) loop = some (err e, s)
after_round claimed (ok Round.ended, s) loop = some (ok claimed, s)
after_round claimed (ok (Round.started _), s) loop = loop s

-- The loop on fuel; `none` is that the fuel ran out.
unfoldable pub claim_loop : WorkerConfig → Env → ℕ → Bool → Service → Ending
unfolding claim_round
claim_loop c env zero claimed s = none
claim_loop c env (suc fuel) claimed s =
    if ltb (length s.tasks) (capacity c) && not (env.stopping s.awaits)
    then after_round claimed (claim_round c env s) (claim_loop c env fuel true)
    else some (ok claimed, s)

-- Each round but the last starts a task, and there are never more tasks than the capacity.
unfoldable pub claim_available_work : WorkerConfig → Env → Service → Ending
unfolding claim_loop
claim_available_work c env s = claim_loop c env (suc (capacity c)) false s

unfoldable pub discard_finished_tasks : (Resource → Bool) → Service → Service
discard_finished_tasks is_done s = record s { tasks = filter (λ key. not (is_done key)) s.tasks }

-- an await after which only the queue and the clock have changed
abbrev pub pause : Env → Service → Service
pause env s = record s { queue = env.others s.awaits s.queue; awaits = suc s.awaits }

-- What follows the reconciliation; nothing catches what that raises.
abbrev pub after_reconcile : Result Error (Unit {0}) → Service → Ending → Ending
after_reconcile (ok _) s claims = claims
after_reconcile (err e) s claims = some (err e, s)

-- A round of `run_forever`: `is_done` are the tasks that have finished. What the reconciliation does
-- to the queue is done by `others`.
unfoldable pub poll : WorkerConfig → Env → (Resource → Bool) → Service → Ending
unfolding claim_available_work discard_finished_tasks
poll c env is_done s =
    let t = pause env (discard_finished_tasks is_done s) in
    after_reconcile (env.reconcile_expired_worker_leases s.awaits) t (claim_available_work c env t)

-- `_wait_for_poll` when nothing was claimed, then the next round
abbrev pub after_poll : Env → Ending → (Service → Ending) → Ending
after_poll env none next = none
after_poll env (some (err e, s)) next = some (err e, s)
after_poll env (some (ok claimed, s)) next = next (if claimed then s else pause env s)

-- The loop of `run_forever`, until `_stop` is set, an exception is raised or the rounds are over.
unfoldable pub run_forever : WorkerConfig → Env → List (Resource → Bool) → Service → Ending
unfolding poll
run_forever c env [] s = some (ok false, s)
run_forever c env (is_done ∷ rest) s =
    if env.stopping s.awaits
    then some (ok false, s)
    else after_poll env (poll c env is_done s) (run_forever c env rest)
