-- ===== src/Leases/Claims.antt =====
-- `claim_work`, `renew_work_lease` and `release_work_lease` of `PostgresControlStore`.
use dsh_base_agent.Prelude.{
  ℕ, zero, suc, String, string_eq, Bool, true, not, ◌&&◌, ◌||◌, Option, none, some, option_eq, List,
  [], ◌∷◌, Result, ok, err, Error, value_error, ◌==◌, nat_eq, if◌then◌else◌,
}
use dsh_base_agent.Prelude.Lists.{any}
use dsh_base_agent.Prelude.Text.{is_empty, strip}
use dsh_base_agent.Models.{
  RunRecord, RunStatus, run_status_eq, ConversationRecord, ConversationStatus,
  conversation_status_eq, WorkLease, WorkResourceType,
}
use dsh_base_agent.Sql.{fetch_all, sort_by}
use dsh_base_agent.Leases.Table.{LeaseRow, Resource, take_lease, renew_lease, release_lease}

-- The tables that the queue reads. Their columns repeat the payload, so a row is the record.
pub record Queue : Type 0 where
  pub conversations : List ConversationRecord
  pub runs : List RunRecord
  pub worker_leases : List LeaseRow

abbrev pub Exec : Type 0 → Type 0
Exec A = Queue → Result Error A × Queue

-- the Conversation of the Run is active and none of its Runs is running or waiting
abbrev pub is_free : Queue → String → Bool
is_free q id =
    any (λ c. c.conversation_id == id && c.status == ConversationStatus.active) q.conversations
    && not (
        any
          (λ r.
            r.conversation_id == some id
            && (r.status == RunStatus.running || r.status == RunStatus.waiting))
          q.runs)

abbrev pub is_candidate : Queue → RunRecord → Bool
is_candidate q run =
    run.status == RunStatus.queued
    && (elim run.conversation_id [ none ↦ true | some id ↦ is_free q id ])

-- the resource that a Worker needs to execute the Run
abbrev pub resource_of : RunRecord → Resource
resource_of run = elim run.conversation_id [
  | none ↦ record { type = WorkResourceType.run; id = run.run_id }
  | some id ↦ record { type = WorkResourceType.conversation; id = id }
]

abbrev pub limit : {A : Type 0} → ℕ → List A → List A
limit zero xs = []
limit (suc n) [] = []
limit (suc n) (x ∷ xs) = x ∷ limit n xs

-- `return` with the first lease that is granted
abbrev pub or_next :
    Option WorkLease × List LeaseRow
    → (List LeaseRow → Option WorkLease × List LeaseRow)
    → Option WorkLease × List LeaseRow
or_next (some lease, rows) next = (some lease, rows)
or_next (none, rows) next = next rows

-- the loop over the candidates
unfoldable pub take_first :
    String → ℕ → ℕ → List RunRecord → List LeaseRow → Option WorkLease × List LeaseRow
take_first worker_id duration now [] rows = (none, rows)
take_first worker_id duration now (run ∷ runs) rows =
    or_next (take_lease (resource_of run) worker_id duration now rows)
      (take_first worker_id duration now runs)

-- `collation` is the place of an identifier in the order of the database, and `locked` are the rows
-- that another transaction holds, which SKIP LOCKED leaves out.
module _ (collation : String → ℕ) where
  unfoldable pub candidates : (RunRecord → Bool) → Queue → List RunRecord
  candidates locked q = limit 32 (
      sort_by (λ r. r.created_at)
        (sort_by (λ r. collation r.run_id)
          (fetch_all (λ r. is_candidate q r && not (locked r)) q.runs)))

  unfoldable pub claim_work : String → ℕ → (RunRecord → Bool) → ℕ → Exec (Option WorkLease)
  unfolding candidates take_first
  claim_work worker_id lease_seconds locked now q =
      let (lease, rows) =
        take_first worker_id lease_seconds now (candidates locked q) q.worker_leases in
      if is_empty (strip worker_id) || lease_seconds == 0
      then (err value_error, q)
      else (ok lease, record q { worker_leases = rows })

unfoldable pub renew_work_lease : WorkLease → ℕ → ℕ → Exec (Option WorkLease)
unfolding renew_lease
renew_work_lease lease lease_seconds now q =
    let (renewed, rows) = renew_lease lease lease_seconds now q.worker_leases in
    if lease_seconds == 0
    then (err value_error, q)
    else (ok renewed, record q { worker_leases = rows })

unfoldable pub release_work_lease : WorkLease → ℕ → Exec Bool
unfolding release_lease
release_work_lease lease now q =
    let (released, rows) = release_lease lease now q.worker_leases in
    (ok released, record q { worker_leases = rows })
