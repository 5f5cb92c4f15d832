-- ===== src/Leases/Granting.antt =====
-- What `claim_work` grants.
use dsh_base_agent.Prelude.{
  ℕ, zero, suc, ◌≡◌, refl, String, string_eq, nat_eq, Bool, true, false, ◌&&◌, ◌||◌, not, Option,
  none, some, option_eq, List, [], ◌∷◌, Result, ok, err, Error, value_error, ok_eq, ◌⊎◌, ◌==◌,
  arith, if◌then◌else◌, inl, inr, eq_refl, eq_of_beq, beq_of_eq, ap, Bool-cases, ◌≢◌, sym, ◌∙◌,
  subst,
}
use dsh_base_agent.Prelude.Lists.{any, All}
use dsh_base_agent.Prelude.Text.{is_empty, strip}
use dsh_base_agent.Models.{
  WorkLease, WorkResourceType, RunRecord, RunStatus, run_status_eq, ConversationRecord,
  ConversationStatus, conversation_status_eq,
}
use dsh_base_agent.Sql.{fetch_all, sort_by}
use dsh_base_agent.Sql.Rows.{any-fetch_all, any-sort_by}
use dsh_base_agent.Leases.Table.{LeaseRow, resource_eq, lease_resource, take_lease}
use dsh_base_agent.Leases.Tokens.{take_lease-IsGranted}
use dsh_base_agent.Leases.Claims.{
  Queue, is_free, is_candidate, resource_of, limit, or_next, take_first, candidates, claim_work,
}

any-limit :
    (p : RunRecord → Bool) (n : ℕ) (xs : List RunRecord)
    → any p (limit n xs) ≡ true
    → any p xs ≡ true
any-limit p zero xs h = cc
any-limit p (suc n) [] h = h
any-limit p (suc n) (x ∷ xs) h = ground (arith, h, any-limit p n xs)

any-candidates :
    (collation : String → ℕ) (p locked : RunRecord → Bool) (q : Queue)
    → any p (candidates collation locked q) ≡ true
    → any (λ r. (is_candidate q r && not (locked r)) && p r) q.runs ≡ true
unfolding candidates
any-candidates collation p locked q h =
    let free = fetch_all (λ r. is_candidate q r && not (locked r)) q.runs in
    let by_id = sort_by (λ r. collation r.run_id) free in
    sym (any-fetch_all p (λ r. is_candidate q r && not (locked r)) q.runs)
    ∙ sym (any-sort_by p (λ r. collation r.run_id) free)
    ∙ sym (any-sort_by p (λ r. r.created_at) by_id)
    ∙ any-limit p 32 (sort_by (λ r. r.created_at) by_id) h

-- an element of a list
abbrev pub IsAmong : {A : Type 0} → A → List A → Type 0
IsAmong x [] = ⊥
IsAmong x (y ∷ ys) = (x ≡ y) ⊎ IsAmong x ys

granted_by :
    (taken : Option WorkLease × List LeaseRow)
    (next : List LeaseRow → Option WorkLease × List LeaseRow) {lease : WorkLease}
    → (or_next taken next).0 ≡ some lease
    → (taken.0 ≡ some lease) ⊎ ((next taken.1).0 ≡ some lease)
granted_by (some x, rows) next h = inl h
granted_by (none, rows) next h = inr h

unrefused :
    (b : Bool) (e : Error) (q q' : Queue) (found : Option WorkLease) (lease : WorkLease)
    → (let r : Result Error (Option WorkLease) × Queue = if b then (err e, q) else (ok found, q') in
        r.0)
      ≡ ok (some lease)
    → (found ≡ some lease) × (b ≡ false)
unrefused true e q q' found lease h = cc
unrefused false e q q' found lease h = (ok_eq found (some lease) h, refl)

-- the resource of a lease that a loop over Runs is granted
take_first-resource :
    (worker_id : String) (d now : ℕ) (runs : List RunRecord) (rows : List LeaseRow)
    {lease : WorkLease}
    → (take_first worker_id d now runs rows).0 ≡ some lease
    → any (λ r. resource_of r == lease_resource lease) runs ≡ true
unfolding take_first
take_first-resource worker_id d now [] rows h = cc
take_first-resource worker_id d now (run ∷ runs) rows {lease} h =
    elim (granted_by (take_lease (resource_of run) worker_id d now rows)
      (take_first worker_id d now runs) h) [
        | inl here ↦ ground (
          arith,
          subst (λ r. (resource_of run == r) ≡ true)
              (sym (take_lease-IsGranted (resource_of run) worker_id d now rows here).resource)
              (eq_refl (resource_of run)),
        )
        | inr later ↦ ground (
          arith,
          take_first-resource worker_id d now runs
              (take_lease (resource_of run) worker_id d now rows).1 later,
        )
      ]

-- an element that a test finds
found_by :
    {A : Type 0} (p : A → Bool) (xs : List A)
    → any p xs ≡ true
    → (x : A) × (p x ≡ true) × IsAmong x xs
found_by p [] h = cc
found_by p (x ∷ xs) h = elim (Bool-cases (p x)) [
  | inl e ↦ (x, e, inl refl)
  | inr e ↦ let (y, fits, among) = found_by p xs (ground (arith, h, e)) in (y, fits, inr among)
]

-- no Run of the Conversation is running or waiting
abbrev pub IsIdle : String → List RunRecord → Type 0
IsIdle id runs =
    All
      (λ r.
        r.conversation_id ≡ some id
        → (r.status ≢ RunStatus.running) × (r.status ≢ RunStatus.waiting))
      runs

-- A Run whose resource may be granted: it is queued, and a Run of a Conversation is granted with all
-- of the Conversation, which is active and idle.
pub record IsClaimable (q : Queue) (run : RunRecord) (lease : WorkLease) : Type 0 where
  pub stored : IsAmong run q.runs
  pub queued : run.status ≡ RunStatus.queued
  pub alone :
      run.conversation_id ≡ none
      → (lease.resource_type ≡ WorkResourceType.run) × (lease.resource_id ≡ run.run_id)
  pub in_conversation :
      (id : String)
      → run.conversation_id ≡ some id
      → (lease.resource_type ≡ WorkResourceType.conversation)
        × (lease.resource_id ≡ id)
        × ((c : ConversationRecord) × IsAmong c q.conversations
            × (c.conversation_id ≡ id)
            × (c.status ≡ ConversationStatus.active))
        × IsIdle id q.runs

IsIdle-any :
    (id : String) (runs : List RunRecord)
    → any
        (λ r.
          r.conversation_id == some id
          && (r.status == RunStatus.running || r.status == RunStatus.waiting))
        runs
      ≡ false
    → IsIdle id runs
IsIdle-any id [] h = tt
IsIdle-any id (r ∷ rs) h = (
  (λ same.
      let here = beq_of_eq r.conversation_id (some id) same in
      (
        (λ running. ground (arith, h, here, beq_of_eq r.status RunStatus.running running)),
        (λ waiting. ground (arith, h, here, beq_of_eq r.status RunStatus.waiting waiting)),
      )),
  IsIdle-any id rs (ground (arith, h)),
)

is_free-found :
    (q : Queue) (id : String)
    → is_free q id ≡ true
    → ((c : ConversationRecord) × IsAmong c q.conversations
        × (c.conversation_id ≡ id)
        × (c.status ≡ ConversationStatus.active))
      × IsIdle id q.runs
is_free-found q id h =
    let (c, fits, among) =
      found_by (λ c. c.conversation_id == id && c.status == ConversationStatus.active)
        q.conversations (ground (arith, h)) in
    (
      (
        c,
        among,
        eq_of_beq c.conversation_id id (ground (arith, fits)),
        eq_of_beq c.status ConversationStatus.active (ground (arith, fits)),
      ),
      IsIdle-any id q.runs (ground (arith, h)),
    )

candidate-IsClaimable :
    (q : Queue) (run : RunRecord) (lease : WorkLease)
    → IsAmong run q.runs
    → is_candidate q run ≡ true
    → resource_of run ≡ lease_resource lease
    → IsClaimable q run lease
candidate-IsClaimable q run lease among fits same = record {
  stored = among;
  queued = eq_of_beq run.status RunStatus.queued (ground (arith, fits));
  alone = λ own.
      let is : resource_of run ≡ record { type = WorkResourceType.run; id = run.run_id } =
        rw own refl in
      (
        sym (ap (λ r. r.type) same) ∙ ap (λ r. r.type) is,
        sym (ap (λ r. r.id) same) ∙ ap (λ r. r.id) is,
      );
  in_conversation = λ id own.
      let is : resource_of run ≡ record { type = WorkResourceType.conversation; id = id } =
        rw own refl in
      let found = is_free-found q id (ground (arith, fits, own)) in
      (
        sym (ap (λ r. r.type) same) ∙ ap (λ r. r.type) is,
        sym (ap (λ r. r.id) same) ∙ ap (λ r. r.id) is,
        found.0,
        found.1,
      );
}

-- A lease that claim_work grants is for a stored Run that is queued and that no other transaction
-- has locked: for the Run itself if it belongs to no Conversation, and else for its Conversation,
-- which is stored, active and has no Run that is running or waiting. The Runs and the Conversations
-- stay as they are.
pub claim_work-resource :
    (collation : String → ℕ) (worker_id : String) (d : ℕ) (locked : RunRecord → Bool) (now : ℕ)
    (q : Queue) (lease : WorkLease)
    → (claim_work collation worker_id d locked now q).0 ≡ ok (some lease)
    → ((run : RunRecord) × (locked run ≡ false) × IsClaimable q run lease)
      × ((claim_work collation worker_id d locked now q).1.runs ≡ q.runs)
      × ((claim_work collation worker_id d locked now q).1.conversations ≡ q.conversations)
unfolding claim_work
claim_work-resource collation worker_id d locked now q lease h =
    let taken = take_first worker_id d now (candidates collation locked q) q.worker_leases in
    let (granted, passed) =
      unrefused (is_empty (strip worker_id) || d == 0) value_error q
        (record q { worker_leases = taken.1 }) taken.0 lease h in
    let (run, fits, among) =
      found_by (λ r. (is_candidate q r && not (locked r)) && resource_of r == lease_resource lease)
        q.runs
        (any-candidates collation (λ r. resource_of r == lease_resource lease) locked q
          (take_first-resource worker_id d now (candidates collation locked q) q.worker_leases
            granted)) in
    (
      (
        run,
        ground (arith, fits),
        candidate-IsClaimable q run lease among (ground (arith, fits))
            (eq_of_beq (resource_of run) (lease_resource lease) (ground (arith, fits))),
      ),
      rw passed refl,
      rw passed refl,
    )
