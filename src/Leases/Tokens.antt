-- ===== src/Leases/Tokens.antt =====
-- What a granted lease does to the table: its key stays unique, and the token of its resource grows.
use dsh_base_agent.Prelude.{
  ℕ, ◌+◌, ◌≡◌, refl, String, string_eq, nat_eq, Option, none, some, List, [], ◌∷◌, arith, leb,
  Bool-cases, inl, inr, eq_of_beq, eq_refl, subst, some_eq,
}
use dsh_base_agent.Models.{WorkLease}
use dsh_base_agent.Sql.{fetch_one, update, insert, has_key, IsKeyed}
use dsh_base_agent.Sql.Rows.{fetch_one-update, fetch_one-insert, any-eq-fetch_one, fetch_one-fits}
use dsh_base_agent.Sql.Keys.{IsKeyed-insert, IsKeyed-update}
use dsh_base_agent.Leases.Table.{
  work_lease, LeaseRow, Resource, resource_eq, row_resource, lease_resource, first_lease,
  next_lease, take_over, take_lease, extend, is_held, is_live,
}
use dsh_base_agent.Leases.History.{Statement, execute, execute_all, token_of}

-- the primary key of the table
IsKeyed-take_over :
    (r : Resource) (worker_id : String) (duration now : ℕ) (rows : List LeaseRow)
    (found : Option LeaseRow)
    → fetch_one (has_key row_resource r) rows ≡ found
    → IsKeyed row_resource rows
    → IsKeyed row_resource (take_over r worker_id duration now rows found).1
IsKeyed-take_over r worker_id duration now rows none h keyed =
    IsKeyed-insert row_resource (first_lease r worker_id duration now) rows keyed
      (rw (any-eq-fetch_one (has_key row_resource r) rows) (rw h refl))
IsKeyed-take_over r worker_id duration now rows (some row) h keyed =
    elim (Bool-cases (leb row.expires_at now)) [
      | inl expired ↦ rw expired (
          IsKeyed-update row_resource (has_key row_resource r) (next_lease worker_id duration now)
            (λ _. refl) rows keyed)
      | inr live ↦ rw live keyed
    ]

pub IsKeyed-execute :
    (st : Statement) (rows : List LeaseRow)
    → IsKeyed row_resource rows
    → IsKeyed row_resource (execute st rows)
unfolding execute
IsKeyed-execute (Statement.take r worker_id duration now) rows keyed =
    IsKeyed-take_over r worker_id duration now rows (fetch_one (has_key row_resource r) rows) refl
      keyed
IsKeyed-execute (Statement.renew lease duration now) rows keyed =
    IsKeyed-update row_resource (is_live lease now) (extend duration now) (λ _. refl) rows keyed
IsKeyed-execute (Statement.release lease now) rows keyed =
    IsKeyed-update row_resource (is_held (lease_resource lease) lease.worker_id lease.lease_token) _
      (λ _. refl) rows keyed
IsKeyed-execute (Statement.expire r worker_id token now) rows keyed =
    IsKeyed-update row_resource (is_held r worker_id token) _ (λ _. refl) rows keyed

pub IsKeyed-execute_all :
    (sts : List Statement) (rows : List LeaseRow)
    → IsKeyed row_resource rows
    → IsKeyed row_resource (execute_all sts rows)
unfolding execute_all
IsKeyed-execute_all [] rows keyed = keyed
IsKeyed-execute_all (st ∷ sts) rows keyed =
    IsKeyed-execute_all sts (execute st rows) (IsKeyed-execute st rows keyed)

-- what a granted lease says of the table
pub record IsGranted (r : Resource) (before after : List LeaseRow) (lease : WorkLease)
    : Type 0 where
  pub resource : lease_resource lease ≡ r
  pub next : lease.lease_token ≡ token_of r before + 1
  pub stored : token_of r after ≡ lease.lease_token

IsGranted-first :
    (r : Resource) (worker_id : String) (duration now : ℕ) (rows : List LeaseRow)
    → fetch_one (has_key row_resource r) rows ≡ none
    → IsGranted r rows
        (insert (first_lease r worker_id duration now) rows)
        (work_lease (first_lease r worker_id duration now))
IsGranted-first r worker_id duration now rows h = record {
  resource = refl;
  next = rw h refl;
  stored =
      rw (fetch_one-insert (has_key row_resource r) (first_lease r worker_id duration now) rows)
        (rw h (ground (arith, eq_refl r)));
}

IsGranted-next :
    (r : Resource) (worker_id : String) (duration now : ℕ) (rows : List LeaseRow) (row : LeaseRow)
    → fetch_one (has_key row_resource r) rows ≡ some row
    → IsGranted r rows
        (update (has_key row_resource r) (next_lease worker_id duration now) rows)
        (work_lease (next_lease worker_id duration now row))
IsGranted-next r worker_id duration now rows row h =
    let fits = fetch_one-fits (has_key row_resource r) rows h in
    record {
      resource = eq_of_beq (row_resource row) r fits;
      next = rw h refl;
      stored =
          rw
            (fetch_one-update (has_key row_resource r) (has_key row_resource r)
              (next_lease worker_id duration now) (λ _. refl) rows)
            (rw h (ground (arith, fits)));
    }

granted :
    (r : Resource) (worker_id : String) (duration now : ℕ) (rows : List LeaseRow)
    (found : Option LeaseRow) {lease : WorkLease}
    → fetch_one (has_key row_resource r) rows ≡ found
    → (take_over r worker_id duration now rows found).0 ≡ some lease
    → IsGranted r rows (take_over r worker_id duration now rows found).1 lease
granted r worker_id duration now rows none {lease} h taken =
    subst (IsGranted r rows (insert (first_lease r worker_id duration now) rows))
      (some_eq _ lease taken) (IsGranted-first r worker_id duration now rows h)
granted r worker_id duration now rows (some row) {lease} h taken =
    elim (Bool-cases (leb row.expires_at now)) [
      | inl expired ↦ rw expired (
          subst
            (IsGranted r rows
              (update (has_key row_resource r) (next_lease worker_id duration now) rows))
            (some_eq _ lease (cc (expired, taken)))
            (IsGranted-next r worker_id duration now rows row h))
      | inr live ↦ cc (live, taken)
    ]

pub take_lease-IsGranted :
    (r : Resource) (worker_id : String) (duration now : ℕ) (rows : List LeaseRow)
    {lease : WorkLease}
    → (take_lease r worker_id duration now rows).0 ≡ some lease
    → IsGranted r rows (take_lease r worker_id duration now rows).1 lease
unfolding take_lease
take_lease-IsGranted r worker_id duration now rows taken =
    granted r worker_id duration now rows (fetch_one (has_key row_resource r) rows) refl taken
