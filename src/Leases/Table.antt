-- ===== src/Leases/Table.antt =====
-- The table `worker_leases` and the statements on it in store/postgres.py. Each statement is atomic:
-- PostgreSQL locks the row that it writes. `now` is the CURRENT_TIMESTAMP of its transaction, and
-- a duration is a number of microseconds.
use dsh_base_agent.Prelude.{
  ℕ, ◌+◌, ◌≡◌, ◌↔◌, String, string_eq, nat_eq, Bool, true, ◌&&◌, Option, none, some, List, Result,
  Eq, ◌==◌, leb, ltb, arith, if◌then◌else◌, Error, lease_lost, raise_if, not, eq_of_beq, eq_refl,
  and_true, subst,
}
use mathlib.Core.Option
use dsh_base_agent.Prelude.Lists.{any}
use dsh_base_agent.Models.{WorkResourceType, resource_type_eq, WorkLease}
use dsh_base_agent.Sql.{fetch_one, update, insert, has_key}

-- `worker_leases`, whose primary key is the resource
pub record LeaseRow : Type 0 where
  pub resource_type : WorkResourceType
  pub resource_id : String
  pub worker_id : String
  pub lease_token : ℕ
  pub expires_at : ℕ
  pub updated_at : ℕ

-- a Run by itself, or all of a Conversation
pub record Resource : Type 0 where
  pub type : WorkResourceType
  pub id : String

abbrev pub resource_beq : Resource → Resource → Bool
resource_beq a b = a.type == b.type && a.id == b.id

same_resource : (a b : Resource) → a.type ≡ b.type → a.id ≡ b.id → a ≡ b
same_resource a b t i = cc (t, i)

pub resource_beq_iff : (a b : Resource) → (resource_beq a b ≡ true) ↔ (a ≡ b)
resource_beq_iff a b = (
  λ h.
      let (t, i) = and_true (a.type == b.type) (a.id == b.id) h in
      same_resource a b (eq_of_beq a.type b.type t) (eq_of_beq a.id b.id i),
  λ h. subst (λ x. resource_beq a x ≡ true) h (ground (arith, eq_refl a.type, eq_refl a.id)),
)

instance abbrev pub resource_eq : Eq Resource
resource_eq = record { beq = resource_beq; beq_iff = resource_beq_iff }

abbrev pub row_resource : LeaseRow → Resource
row_resource row = record { type = row.resource_type; id = row.resource_id }

abbrev pub lease_resource : WorkLease → Resource
lease_resource lease = record { type = lease.resource_type; id = lease.resource_id }

-- `_work_lease`
abbrev pub work_lease : LeaseRow → WorkLease
work_lease row = record {
  resource_type = row.resource_type;
  resource_id = row.resource_id;
  worker_id = row.worker_id;
  lease_token = row.lease_token;
  expires_at = row.expires_at;
}

-- the row of a resource that has none
abbrev pub first_lease : Resource → String → ℕ → ℕ → LeaseRow
first_lease r worker_id duration now = record {
  resource_type = r.type;
  resource_id = r.id;
  worker_id = worker_id;
  lease_token = 1;
  expires_at = now + duration;
  updated_at = now;
}

-- the row of a resource whose lease has expired
abbrev pub next_lease : String → ℕ → ℕ → LeaseRow → LeaseRow
next_lease worker_id duration now row = record row {
  worker_id = worker_id;
  lease_token = row.lease_token + 1;
  expires_at = now + duration;
  updated_at = now;
}

-- what the upsert does with the row that holds the key, if there is one
abbrev pub take_over :
    Resource → String → ℕ → ℕ → List LeaseRow → Option LeaseRow → Option WorkLease × List LeaseRow
take_over r worker_id duration now rows none = (
  some (work_lease (first_lease r worker_id duration now)),
  insert (first_lease r worker_id duration now) rows,
)
take_over r worker_id duration now rows (some row) =
    if leb row.expires_at now
    then (
      some (work_lease (next_lease worker_id duration now row)),
      update (has_key row_resource r) (next_lease worker_id duration now) rows,
    )
    else (none, rows)

-- `INSERT ... ON CONFLICT(resource_type, resource_id) DO UPDATE ... WHERE expires_at <=
-- CURRENT_TIMESTAMP RETURNING ...` of `claim_work`
unfoldable pub take_lease :
    Resource → String → ℕ → ℕ → List LeaseRow → Option WorkLease × List LeaseRow
take_lease r worker_id duration now rows =
    take_over r worker_id duration now rows (fetch_one (has_key row_resource r) rows)

-- the row of a resource, while a Worker holds it under a token
abbrev pub is_held : Resource → String → ℕ → LeaseRow → Bool
is_held r worker_id token row =
    has_key row_resource r row && (row.worker_id == worker_id && row.lease_token == token)

-- the row of a lease that is not lost
abbrev pub is_live : WorkLease → ℕ → LeaseRow → Bool
is_live lease now row =
    has_key row_resource (lease_resource lease) row
    && ((row.worker_id == lease.worker_id && row.lease_token == lease.lease_token)
        && ltb now row.expires_at)

-- the UPDATE of `renew_work_lease`
abbrev pub extend : ℕ → ℕ → LeaseRow → LeaseRow
extend duration now row = record row { expires_at = now + duration; updated_at = now }

unfoldable pub renew_lease : WorkLease → ℕ → ℕ → List LeaseRow → Option WorkLease × List LeaseRow
renew_lease lease duration now rows = (
  Option.map (λ row. work_lease (extend duration now row)) (fetch_one (is_live lease now) rows),
  update (is_live lease now) (extend duration now) rows,
)

-- the UPDATE of `release_work_lease`
unfoldable pub release_lease : WorkLease → ℕ → List LeaseRow → Bool × List LeaseRow
release_lease lease now rows =
    let held = is_held (lease_resource lease) lease.worker_id lease.lease_token in
    (any held rows, update held (λ row. record row { expires_at = now; updated_at = now }) rows)

-- The UPDATE of `interrupt_expired_attempts`: `LEAST(expires_at, CURRENT_TIMESTAMP)` for the lease
-- under which the Attempt ran.
unfoldable pub expire_lease : Resource → String → ℕ → ℕ → List LeaseRow → List LeaseRow
expire_lease r worker_id token now rows =
    update (is_held r worker_id token)
      (λ row. record row {
        expires_at = (if leb row.expires_at now then row.expires_at else now);
        updated_at = now;
      })
      rows

-- `_assert_lease`
unfoldable pub assert_lease : WorkLease → ℕ → List LeaseRow → Result Error (Unit {0})
assert_lease lease now rows = raise_if (not (any (is_live lease now) rows)) lease_lost
