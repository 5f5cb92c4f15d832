-- ===== src/Worker/Resource.antt =====
-- `_execute_resource`: the execution of a claimed Run or Conversation and the release of its lease.
use dsh_base_agent.Prelude.{
  ℕ, ◌≤◌, ◌≡◌, refl, Bool, true, false, List, [], ◌∷◌, Result, ok, err, ◌==◌, string_eq, nat_eq,
  arith, if◌then◌else◌, lease_lost,
}
use dsh_base_agent.Prelude.Lists.{any}
use dsh_base_agent.Models.{WorkLease, WorkResourceType, resource_type_eq}
use dsh_base_agent.Leases.Table.{
  LeaseRow, resource_eq, lease_resource, is_held, is_live, release_lease, assert_lease,
}
use dsh_base_agent.Leases.Claims.{Queue, release_work_lease}

-- what the work on a resource raises: `CancelledError`, `TimeoutError` or another exception
pub data Raised : Type 0 where
  cancelled timed_out failed : Raised

-- the `except` clauses: only a cancellation is passed on
abbrev pub handled : Result Raised (Unit {0}) → Result Raised (Unit {0})
handled (ok _) = ok tt
handled (err Raised.cancelled) = err Raised.cancelled
handled (err Raised.timed_out) = ok tt
handled (err Raised.failed) = ok tt

abbrev pub released :
    WorkLease → Result Raised (Unit {0}) → ℕ → Queue → Result Raised (Unit {0}) × Queue
released lease outcome now queue = (outcome, (release_work_lease lease now queue).1)

-- `discard_conversation_runtime` comes before the release, and what it raises replaces the outcome.
abbrev pub after_discard :
    WorkLease
    → Result Raised (Unit {0})
    → Result Raised (Unit {0})
    → ℕ
    → Queue
    → Result Raised (Unit {0}) × Queue
after_discard lease (err e) outcome now queue = (err e, queue)
after_discard lease (ok _) outcome now queue = released lease outcome now queue

-- `work` is how the work on the resource ended, `discard` how the discarding of its runtime did,
-- and `now` and `queue` are what the release finds.
unfoldable pub execute_resource :
    WorkLease
    → Result Raised (Unit {0})
    → Result Raised (Unit {0})
    → ℕ
    → Queue
    → Result Raised (Unit {0}) × Queue
unfolding release_work_lease
execute_resource lease work discard now queue =
    if lease.resource_type == WorkResourceType.conversation
    then after_discard lease discard (handled work) now queue
    else released lease (handled work) now queue

-- the row after the release, which has expired if the lease held it
row-dead :
    (lease : WorkLease) (now later : ℕ) (row : LeaseRow) (held : Bool)
    → now ≤ later
    → is_held (lease_resource lease) lease.worker_id lease.lease_token row ≡ held
    → is_live lease later (if held then record row { expires_at = now; updated_at = now } else row)
      ≡ false
row-dead lease now later row true after h = ground (arith, after)
row-dead lease now later row false after h = ground (arith, h)

release_lease-dead :
    (lease : WorkLease) (now later : ℕ) (rows : List LeaseRow)
    → now ≤ later
    → any (is_live lease later) (release_lease lease now rows).1 ≡ false
unfolding release_lease
release_lease-dead lease now later [] after = refl
release_lease-dead lease now later (row ∷ rows) after =
    rw (row-dead lease now later row _ after refl) (release_lease-dead lease now later rows after)

-- However the execution of a claimed resource ends, with a result, a timeout, an exception or a
-- cancellation, its lease is lost from its release on: at any later time _assert_lease raises
-- LeaseLostError for it on the rows that _execute_resource leaves. For a Conversation this takes that
-- the discarding of its runtime raises nothing.
pub execute_resource-assert_lease :
    (lease : WorkLease) (work discard : Result Raised (Unit {0})) (now later : ℕ) (queue : Queue)
    → ((lease.resource_type == WorkResourceType.conversation) ≡ true → discard ≡ ok tt)
    → now ≤ later
    → assert_lease lease later (execute_resource lease work discard now queue).1.worker_leases
      ≡ err lease_lost
unfolding execute_resource assert_lease
execute_resource-assert_lease lease work discard now later queue discarded after =
    cases (lease.resource_type == WorkResourceType.conversation) discard discarded
  where
    cases :
        (b : Bool) (discard : Result Raised (Unit {0}))
        → (b ≡ true → discard ≡ ok tt)
        → assert_lease lease later
            (if b
              then after_discard lease discard (handled work) now queue
              else released lease (handled work) now queue).1.worker_leases
          ≡ err lease_lost
    cases false d h = rw (release_lease-dead lease now later queue.worker_leases after) refl
    cases true (ok _) h = rw (release_lease-dead lease now later queue.worker_leases after) refl
    cases true (err e) h = cc (h refl)
