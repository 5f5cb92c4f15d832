-- ===== src/Leases/History.antt =====
-- Histories of statements on `worker_leases`, of any Workers and in any interleaving, and the token
-- of a resource over a history.
use dsh_base_agent.Prelude.{
  ℕ, ◌≤◌, ◌≡◌, refl, String, string_eq, Bool, Option, none, some, List, [], ◌∷◌, ◌==◌, arith, leb,
  if◌then◌else◌, Bool-cases, inl, inr, ap,
}
use mathlib.Core.Option
use dsh_base_agent.Models.{WorkLease}
use dsh_base_agent.Sql.{fetch_one, update, insert, has_key}
use dsh_base_agent.Sql.Rows.{fetch_one-update, fetch_one-insert}
use dsh_base_agent.Leases.Table.{
  LeaseRow, Resource, resource_eq, row_resource, lease_resource, first_lease, next_lease, take_over,
  take_lease, renew_lease, release_lease, expire_lease, extend, is_held, is_live,
}

-- One constructor for each statement; the last argument is its CURRENT_TIMESTAMP.
pub data Statement : Type 0 where
  take : Resource → String → ℕ → ℕ → Statement
  renew : WorkLease → ℕ → ℕ → Statement
  release : WorkLease → ℕ → Statement
  expire : Resource → String → ℕ → ℕ → Statement

unfoldable pub execute : Statement → List LeaseRow → List LeaseRow
unfolding take_lease renew_lease release_lease expire_lease
execute (Statement.take r worker_id duration now) rows =
    (take_lease r worker_id duration now rows).1
execute (Statement.renew lease duration now) rows = (renew_lease lease duration now rows).1
execute (Statement.release lease now) rows = (release_lease lease now rows).1
execute (Statement.expire r worker_id token now) rows = expire_lease r worker_id token now rows

unfoldable pub execute_all : List Statement → List LeaseRow → List LeaseRow
unfolding execute
execute_all [] rows = rows
execute_all (st ∷ sts) rows = execute_all sts (execute st rows)

-- the token of a resource, 0 before its first lease
abbrev pub row_token : Option LeaseRow → ℕ
row_token none = 0
row_token (some row) = row.lease_token

abbrev pub token_of : Resource → List LeaseRow → ℕ
token_of r rows = row_token (fetch_one (has_key row_resource r) rows)

-- an UPDATE that keeps the resource and does not lower the token
token-update :
    (r : Resource) (test : LeaseRow → Bool) (f : LeaseRow → LeaseRow) (rows : List LeaseRow)
    → ((row : LeaseRow) → row_resource (f row) ≡ row_resource row)
    → ((row : LeaseRow) → row.lease_token ≤ (f row).lease_token)
    → token_of r rows ≤ token_of r (update test f rows)
token-update r test f rows keeps grows =
    rw (fetch_one-update (has_key row_resource r) test f (λ row. ap (λ k. k == r) (keeps row)) rows)
      (cases (fetch_one (has_key row_resource r) rows))
  where
    cases :
        (found : Option LeaseRow)
        → row_token found ≤ row_token (Option.map (λ row. if test row then f row else row) found)
    cases none = omega arith
    cases (some row) = ground (arith, grows row)

token-insert :
    (r : Resource) (row : LeaseRow) (rows : List LeaseRow)
    → token_of r rows ≤ token_of r (insert row rows)
token-insert r row rows =
    rw (fetch_one-insert (has_key row_resource r) row rows)
      (cases (fetch_one (has_key row_resource r) rows))
  where
    cases :
        (found : Option LeaseRow)
        → row_token found
          ≤ row_token (elim found [
            | none ↦ (if has_key row_resource r row then some row else none)
            | some x ↦ some x
          ])
    cases none = omega arith
    cases (some x) = omega arith

token-take_over :
    (r k : Resource) (worker_id : String) (duration now : ℕ) (rows : List LeaseRow)
    (found : Option LeaseRow)
    → token_of k rows ≤ token_of k (take_over r worker_id duration now rows found).1
token-take_over r k worker_id duration now rows none =
    token-insert k (first_lease r worker_id duration now) rows
token-take_over r k worker_id duration now rows (some row) =
    elim (Bool-cases (leb row.expires_at now)) [
      | inl expired ↦ rw expired (
          token-update k (has_key row_resource r) (next_lease worker_id duration now) rows
            (λ _. refl) (λ x. omega arith))
      | inr live ↦ rw live (omega arith)
    ]

pub token-execute :
    (st : Statement) (k : Resource) (rows : List LeaseRow)
    → token_of k rows ≤ token_of k (execute st rows)
unfolding execute
token-execute (Statement.take r worker_id duration now) k rows =
    token-take_over r k worker_id duration now rows (fetch_one (has_key row_resource r) rows)
token-execute (Statement.renew lease duration now) k rows =
    token-update k (is_live lease now) (extend duration now) rows (λ _. refl) (λ x. omega arith)
token-execute (Statement.release lease now) k rows =
    token-update k (is_held (lease_resource lease) lease.worker_id lease.lease_token) _ rows
      (λ _. refl) (λ x. omega arith)
token-execute (Statement.expire r worker_id token now) k rows =
    token-update k (is_held r worker_id token) _ rows (λ _. refl) (λ x. omega arith)

pub token-execute_all :
    (sts : List Statement) (k : Resource) (rows : List LeaseRow)
    → token_of k rows ≤ token_of k (execute_all sts rows)
unfolding execute_all
token-execute_all [] k rows = omega arith
token-execute_all (st ∷ sts) k rows =
    omega (arith, token-execute st k rows, token-execute_all sts k (execute st rows))
