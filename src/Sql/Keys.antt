-- ===== src/Sql/Keys.antt =====
-- Tables with a unique key.
use dsh_base_agent.Prelude.{
  ◌≡◌, refl, Bool, true, false, ◌&&◌, none, some, List, [], ◌∷◌, arith, Eq, ◌==◌, beq_comm,
  eq_of_beq, ap, sym, and_true, if◌then◌else◌, Bool-cases, inl, inr, Option,
}
use dsh_base_agent.Prelude.Lists.{any, All}
use dsh_base_agent.Sql.{fetch_one, rowcount, update, insert, has_key, IsKeyed}
use dsh_base_agent.Sql.Rows.{
  any-update, any-insert, All-insert, All-update, fetch_one-update, fetch_one-fits,
}

module _ {R K : Type 0} ⦃e : Eq K⦄ (key : R → K) where
  -- An INSERT that the unique index lets pass keeps the index.
  pub IsKeyed-insert :
      (r : R) (rows : List R)
      → IsKeyed key rows
      → any (has_key key (key r)) rows ≡ false
      → IsKeyed key (insert r rows)
  IsKeyed-insert r [] keyed fresh = (refl, tt)
  IsKeyed-insert r (x ∷ xs) keyed fresh = (
    rw (any-insert (has_key key (key x)) r xs)
        (ground (arith, keyed.0, beq_comm (key x) (key r), fresh)),
    IsKeyed-insert r xs keyed.1 (ground (arith, fresh)),
  )

  pub IsKeyed-update :
      (test : R → Bool) (f : R → R)
      → ((r : R) → key (f r) ≡ key r)
      → (rows : List R) → IsKeyed key rows
      → IsKeyed key (update test f rows)
  IsKeyed-update test f keeps [] keyed = tt
  IsKeyed-update test f keeps (r ∷ rs) keyed = (
    rw (same (test r) refl) (
        rw (any-update (has_key key (key r)) test f (λ x. ap (λ k. k == key r) (keeps x)) rs)
          keyed.0),
    IsKeyed-update test f keeps rs keyed.1,
  )
    where
      same : (b : Bool) → test r ≡ b → key (if b then f r else r) ≡ key r
      same true _ = keeps r
      same false _ = refl

  rowcount-none :
      (k : K) (p : R → Bool) (rows : List R)
      → any (has_key key k) rows ≡ false
      → rowcount (λ r. has_key key k r && p r) rows ≡ 0
  rowcount-none k p [] none_there = refl
  rowcount-none k p (r ∷ rs) none_there = ground (arith, none_there, rowcount-none k p rs)

  any-none :
      (k : K) (p : R → Bool) (rows : List R)
      → any (has_key key k) rows ≡ false
      → any (λ r. has_key key k r && p r) rows ≡ false
  any-none k p [] none_there = refl
  any-none k p (r ∷ rs) none_there = ground (arith, none_there, any-none k p rs)

  -- With a unique key, `UPDATE ... WHERE key = k AND p` counts one row just where the row of `k`
  -- is there and fits.
  pub rowcount-keyed :
      (k : K) (p : R → Bool) (rows : List R)
      → IsKeyed key rows
      → rowcount (λ r. has_key key k r && p r) rows
        ≡ (elim (fetch_one (has_key key k) rows) [ none ↦ 0 | some r ↦ if p r then 1 else 0 ])
  rowcount-keyed k p [] keyed = refl
  rowcount-keyed k p (r ∷ rs) keyed = elim (Bool-cases (key r == k)) [
    | inl found ↦
        let others : any (has_key key k) rs ≡ false = rw (← eq_of_beq (key r) k found) keyed.0 in
        ground (arith, found, rowcount-none k p rs others)
    | inr missed ↦ ground (arith, missed, rowcount-keyed k p rs keyed.1)
  ]

  -- With a unique key, an UPDATE that counts one row has found the row of its key and changed it.
  pub row_updated :
      (k : K) (p : R → Bool) (f : R → R)
      → ((r : R) → key (f r) ≡ key r)
      → (rows : List R) → IsKeyed key rows
      → rowcount (λ r. has_key key k r && p r) rows ≡ 1
      → (row : R) × (fetch_one (has_key key k) (update (λ r. has_key key k r && p r) f rows)
          ≡ some (f row))
  row_updated k p f keeps rows keyed counted = by_row (fetch_one (has_key key k) rows) refl
    where
      by_row :
          (o : Option R)
          → fetch_one (has_key key k) rows ≡ o
          → (row : R) × (fetch_one (has_key key k) (update (λ r. has_key key k r && p r) f rows)
              ≡ some (f row))
      by_row none found = absurd (ground (arith, found, counted, rowcount-keyed k p rows keyed))
      by_row (some row) found = (
        row,
        rw
            (fetch_one-update (has_key key k) (λ r. has_key key k r && p r) f
              (λ r. ap (λ id. id == k) (keeps r)) rows)
            (ground (
              arith,
              found,
              counted,
              rowcount-keyed k p rows keyed,
              fetch_one-fits (has_key key k) rows found,
            )),
      )

  -- With a unique key, some row has the key `k` and fits just where the row of `k` does.
  pub any-keyed :
      (k : K) (p : R → Bool) (rows : List R)
      → IsKeyed key rows
      → any (λ r. has_key key k r && p r) rows
        ≡ (elim (fetch_one (has_key key k) rows) [ none ↦ false | some r ↦ p r ])
  any-keyed k p [] keyed = refl
  any-keyed k p (r ∷ rs) keyed = elim (Bool-cases (key r == k)) [
    | inl found ↦
        let others : any (has_key key k) rs ≡ false = rw (← eq_of_beq (key r) k found) keyed.0 in
        ground (arith, found, any-none k p rs others)
    | inr missed ↦ ground (arith, missed, any-keyed k p rs keyed.1)
  ]

-- A table with a unique key, each of whose rows has columns that agree with its payload.
pub record IsTable {R K : Type 0} ⦃e : Eq K⦄ (key : R → K) (Agrees : R → Type 0) (rows : List R)
    : Type 0 where
  pub keyed : IsKeyed key rows
  pub agree : All Agrees rows

module _ {R K : Type 0} ⦃e : Eq K⦄ (key : R → K) (Agrees : R → Type 0) where
  pub IsTable-insert :
      (r : R) (rows : List R)
      → any (has_key key (key r)) rows ≡ false
      → Agrees r
      → IsTable key Agrees rows
      → IsTable key Agrees (insert r rows)
  IsTable-insert r rows fresh agrees t = record {
    keyed = IsKeyed-insert key r rows t.keyed fresh;
    agree = All-insert Agrees r rows t.agree agrees;
  }

  -- `UPDATE ... SET f WHERE key = k AND p`
  pub IsTable-update :
      (k : K) (p : R → Bool) (f : R → R) (rows : List R)
      → ((r : R) → key (f r) ≡ key r)
      → ((r : R) → k ≡ key r → Agrees (f r))
      → IsTable key Agrees rows
      → IsTable key Agrees (update (λ r. has_key key k r && p r) f rows)
  IsTable-update k p f rows keeps agrees t = record {
    keyed = IsKeyed-update key (λ r. has_key key k r && p r) f keeps rows t.keyed;
    agree =
        All-update Agrees (λ r. has_key key k r && p r) f
          (λ r _ found.
            agrees r (sym (eq_of_beq (key r) k (and_true (has_key key k r) (p r) found).0)))
          rows t.agree;
  }
