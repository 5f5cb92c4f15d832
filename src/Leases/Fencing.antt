-- ===== src/Leases/Fencing.antt =====
-- What a lease promises: tokens grow, an older lease is refused, and a live lease is the only one.
use dsh_base_agent.Prelude.{
  ℕ, ◌<◌, ◌≡◌, refl, String, string_eq, nat_eq, false, ◌&&◌, Option, none, some, List, [], err,
  lease_lost, ◌==◌, arith, ltb, sym, ◌∙◌, subst,
}
use dsh_base_agent.Prelude.Lists.{any}
use dsh_base_agent.Models.{WorkLease}
use dsh_base_agent.Sql.{fetch_one, has_key, IsKeyed}
use dsh_base_agent.Sql.Rows.{any-eq-fetch_one}
use dsh_base_agent.Sql.Keys.{any-keyed}
use dsh_base_agent.Leases.Table.{
  LeaseRow, Resource, resource_eq, row_resource, lease_resource, take_lease, renew_lease,
  release_lease, is_held, is_live, assert_lease,
}
use dsh_base_agent.Leases.History.{
  Statement, execute, execute_all, row_token, token_of, token-execute_all,
}
use dsh_base_agent.Leases.Tokens.{IsKeyed-execute, IsKeyed-execute_all, take_lease-IsGranted}

-- Of two leases granted for a resource, with any statements of any Workers between them and at any
-- times, the later has the greater token.
pub take_lease-take_lease :
    (r : Resource) (w v : String) (d e t u : ℕ) (rows : List LeaseRow) (between : List Statement)
    (a b : WorkLease)
    → (take_lease r w d t rows).0 ≡ some a
    → (take_lease r v e u (execute_all between (take_lease r w d t rows).1)).0 ≡ some b
    → a.lease_token < b.lease_token
take_lease-take_lease r w v d e t u rows between a b first second =
    let one = take_lease-IsGranted r w d t rows first in
    let two =
      take_lease-IsGranted r v e u (execute_all between (take_lease r w d t rows).1) second in
    omega (arith, one.stored, two.next, token-execute_all between r (take_lease r w d t rows).1)

-- a lease whose token is behind that of its resource
is_live-stale :
    (lease : WorkLease) (now : ℕ) (rows : List LeaseRow)
    → IsKeyed row_resource rows
    → lease.lease_token < token_of (lease_resource lease) rows
    → any (is_live lease now) rows ≡ false
is_live-stale lease now rows keyed behind =
    any-keyed row_resource (lease_resource lease) _ rows keyed
    ∙ cases (fetch_one (has_key row_resource (lease_resource lease)) rows) behind
  where
    cases :
        (found : Option LeaseRow)
        → lease.lease_token < row_token found
        → (elim found [
          | none ↦ false
          | some row ↦
              (row.worker_id == lease.worker_id && row.lease_token == lease.lease_token)
              && ltb now row.expires_at
        ])
          ≡ false
    cases none h = refl
    cases (some row) h = ground (arith, h)

is_held-stale :
    (lease : WorkLease) (rows : List LeaseRow)
    → IsKeyed row_resource rows
    → lease.lease_token < token_of (lease_resource lease) rows
    → any (is_held (lease_resource lease) lease.worker_id lease.lease_token) rows ≡ false
is_held-stale lease rows keyed behind =
    any-keyed row_resource (lease_resource lease) _ rows keyed
    ∙ cases (fetch_one (has_key row_resource (lease_resource lease)) rows) behind
  where
    cases :
        (found : Option LeaseRow)
        → lease.lease_token < row_token found
        → (elim found [
          | none ↦ false
          | some row ↦ row.worker_id == lease.worker_id && row.lease_token == lease.lease_token
        ])
          ≡ false
    cases none h = refl
    cases (some row) h = ground (arith, h)

refused :
    (a : WorkLease) (d now : ℕ) (rows : List LeaseRow)
    → IsKeyed row_resource rows
    → a.lease_token < token_of (lease_resource a) rows
    → (assert_lease a now rows ≡ err lease_lost)
      × ((renew_lease a d now rows).0 ≡ none)
      × ((release_lease a now rows).0 ≡ false)
unfolding assert_lease renew_lease release_lease
refused a d now rows keyed behind =
    let dead = is_live-stale a now rows keyed behind in
    (
      rw dead refl,
      ground (arith, dead, any-eq-fetch_one (is_live a now) rows),
      is_held-stale a rows keyed behind,
    )

-- In any history of statements on a table that starts empty: once a later lease of its resource is
-- granted, an earlier lease is lost for ever, at any time that the clock shows: `_assert_lease`
-- raises LeaseLostError for it, and it is neither renewed nor released.
pub take_lease-assert_lease :
    (before between after : List Statement) (r : Resource) (w v : String) (d e t u : ℕ)
    (a b : WorkLease) (more now : ℕ)
    → (take_lease r w d t (execute_all before [])).0 ≡ some a
    → (take_lease r v e u (execute_all between (take_lease r w d t (execute_all before [])).1)).0
      ≡ some b
    → let rows =
        execute_all after
          (take_lease r v e u
            (execute_all between (take_lease r w d t (execute_all before [])).1)).1 in
      (assert_lease a now rows ≡ err lease_lost)
      × ((renew_lease a more now rows).0 ≡ none)
      × ((release_lease a now rows).0 ≡ false)
unfolding execute
take_lease-assert_lease before between after r w v d e t u a b more now first second =
    let start = execute_all before [] in
    let middle = execute_all between (take_lease r w d t start).1 in
    let last = (take_lease r v e u middle).1 in
    let one = take_lease-IsGranted r w d t start first in
    let two = take_lease-IsGranted r v e u middle second in
    let keyed = IsKeyed-execute_all after last (
      IsKeyed-execute (Statement.take r v e u) middle (
        IsKeyed-execute_all between (take_lease r w d t start).1
          (IsKeyed-execute (Statement.take r w d t) start (IsKeyed-execute_all before [] tt)))) in
    let grown = take_lease-take_lease r w v d e t u start between a b first second in
    refused a more now (execute_all after last) keyed (
      subst (λ k. a.lease_token < token_of k (execute_all after last)) (sym one.resource)
        (omega (arith, grown, two.stored, token-execute_all after r last)))
