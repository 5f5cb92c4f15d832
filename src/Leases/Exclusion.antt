-- ===== src/Leases/Exclusion.antt =====
-- A lease that is live excludes every other lease of its resource.
use dsh_base_agent.Prelude.{
  ℕ, ◌≤◌, ◌<◌, ◌≡◌, refl, String, string_eq, nat_eq, Bool, true, false, ◌&&◌, not, Option, none,
  some, List, [], ok, lease_lost, raise_if, ◌==◌, arith, ltb, eq_of_beq, ap, sym, ◌∙◌, some_eq,
  and_true,
}
use dsh_base_agent.Prelude.Lists.{any}
use dsh_base_agent.Models.{WorkLease}
use dsh_base_agent.Sql.{fetch_one, has_key, IsKeyed}
use dsh_base_agent.Sql.Keys.{any-keyed}
use dsh_base_agent.Leases.Table.{
  LeaseRow, resource_eq, row_resource, lease_resource, take_lease, is_live, assert_lease,
}
use dsh_base_agent.Leases.History.{Statement, execute_all}
use dsh_base_agent.Leases.Tokens.{IsKeyed-execute_all}

-- the row of a lease that `_assert_lease` accepts
record IsHolder (lease : WorkLease) (now : ℕ) (rows : List LeaseRow) : Type 0 where
  row : LeaseRow
  found : fetch_one (has_key row_resource (lease_resource lease)) rows ≡ some row
  worker : row.worker_id ≡ lease.worker_id
  token : row.lease_token ≡ lease.lease_token
  live : now < row.expires_at

assert_lease-IsHolder :
    (lease : WorkLease) (now : ℕ) (rows : List LeaseRow)
    → IsKeyed row_resource rows
    → assert_lease lease now rows ≡ ok tt
    → IsHolder lease now rows
unfolding assert_lease
assert_lease-IsHolder lease now rows keyed accepted =
    cases (fetch_one (has_key row_resource (lease_resource lease)) rows) refl (
      sym (any-keyed row_resource (lease_resource lease) _ rows keyed)
      ∙ passed (any (is_live lease now) rows) accepted)
  where
    passed : (b : Bool) → raise_if (not b) lease_lost ≡ ok tt → b ≡ true
    passed true h = refl
    passed false h = cc

    cases :
        (found : Option LeaseRow)
        → fetch_one (has_key row_resource (lease_resource lease)) rows ≡ found
        → (elim found [
          | none ↦ false
          | some row ↦
              (row.worker_id == lease.worker_id && row.lease_token == lease.lease_token)
              && ltb now row.expires_at
        ])
          ≡ true
        → IsHolder lease now rows
    cases none is h = cc
    cases (some row) is h =
        let (held, live) = and_true _ _ h in
        let (worker, token) = and_true _ _ held in
        record {
          row = row;
          found = is;
          worker = eq_of_beq row.worker_id lease.worker_id worker;
          token = eq_of_beq row.lease_token lease.lease_token token;
          live = ground (arith, live);
        }

-- After any statements on a table that starts empty: while `_assert_lease` accepts a lease at
-- `now`, no Worker is granted its resource at `now` or at an earlier time, and the table stays as
-- it is.
pub assert_lease-take_lease :
    (before : List Statement) (a : WorkLease) (now earlier : ℕ) (v : String) (d : ℕ)
    → assert_lease a now (execute_all before []) ≡ ok tt
    → earlier ≤ now
    → take_lease (lease_resource a) v d earlier (execute_all before [])
      ≡ (none, execute_all before [])
unfolding take_lease
assert_lease-take_lease before a now earlier v d accepted le =
    let rows = execute_all before [] in
    let h = assert_lease-IsHolder a now rows (IsKeyed-execute_all before [] tt) accepted in
    rw h.found (ground (arith, h.live, le))

-- After any statements on a table that starts empty: two leases of one resource that
-- `_assert_lease` accepts, even at different times, have the same Worker and the same token.
pub assert_lease-assert_lease :
    (before : List Statement) (a b : WorkLease) (now later : ℕ)
    → lease_resource a ≡ lease_resource b
    → assert_lease a now (execute_all before []) ≡ ok tt
    → assert_lease b later (execute_all before []) ≡ ok tt
    → (a.worker_id ≡ b.worker_id) × (a.lease_token ≡ b.lease_token)
assert_lease-assert_lease before a b now later same one two =
    let rows = execute_all before [] in
    let keyed = IsKeyed-execute_all before [] tt in
    let h = assert_lease-IsHolder a now rows keyed one in
    let k = assert_lease-IsHolder b later rows keyed two in
    let row : h.row ≡ k.row =
      some_eq h.row k.row
        (sym h.found ∙ ap (λ r. fetch_one (has_key row_resource r) rows) same ∙ k.found) in
    (
      sym h.worker ∙ ap (λ r. r.worker_id) row ∙ k.worker,
      sym h.token ∙ ap (λ r. r.lease_token) row ∙ k.token,
    )
