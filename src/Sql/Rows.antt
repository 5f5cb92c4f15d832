-- ===== src/Sql/Rows.antt =====
-- What a query finds after a statement.
use mathlib.Core.Option
use dsh_base_agent.Prelude.{
  ℕ, ap, ◌∙◌, ◌≡◌, refl, Bool, true, false, ◌||◌, ◌&&◌, none, some, List, [], ◌∷◌, arith,
  if◌then◌else◌, subst, some_eq,
}
use dsh_base_agent.Prelude.Lists.{any, All}
use dsh_base_agent.Sql.{fetch_one, fetch_all, update, insert, sort_by, insert_by}

module _ {R : Type 0} where
  -- an UPDATE that keeps the queried columns
  pub fetch_one-update :
      (p test : R → Bool) (f : R → R)
      → ((r : R) → p (f r) ≡ p r)
      → (rows : List R)
      → fetch_one p (update test f rows)
        ≡ Option.map (λ r. if test r then f r else r) (fetch_one p rows)
  fetch_one-update p test f keeps [] = refl
  fetch_one-update p test f keeps (r ∷ rs) =
      ground (arith, keeps r, fetch_one-update p test f keeps rs)

  pub fetch_one-insert :
      (p : R → Bool) (r : R) (rows : List R)
      → fetch_one p (insert r rows)
        ≡ (elim (fetch_one p rows) [ none ↦ (if p r then some r else none) | some x ↦ some x ])
  fetch_one-insert p r [] = ground arith
  fetch_one-insert p r (x ∷ xs) = ground (arith, fetch_one-insert p r xs)

  pub any-update :
      (p test : R → Bool) (f : R → R)
      → ((r : R) → p (f r) ≡ p r)
      → (rows : List R) → any p (update test f rows) ≡ any p rows
  any-update p test f keeps [] = refl
  any-update p test f keeps (r ∷ rs) = ground (arith, keeps r, any-update p test f keeps rs)

  pub any-insert :
      (p : R → Bool) (r : R) (rows : List R) → any p (insert r rows) ≡ (any p rows || p r)
  any-insert p r [] = ground arith
  any-insert p r (x ∷ xs) = ground (arith, any-insert p r xs)

  -- `fetchone()` returns a row just where some row fits.
  pub any-eq-fetch_one :
      (p : R → Bool) (rows : List R)
      → any p rows ≡ (elim (fetch_one p rows) [ none ↦ false | some _ ↦ true ])
  any-eq-fetch_one p [] = refl
  any-eq-fetch_one p (r ∷ rs) = ground (arith, any-eq-fetch_one p rs)

  pub fetch_one-fits :
      (p : R → Bool) (rows : List R) {r : R} → fetch_one p rows ≡ some r → p r ≡ true
  fetch_one-fits p [] h = ground arith
  fetch_one-fits p (x ∷ xs) {r} h = ground (arith, fetch_one-fits p xs {r = r})

  pub All-fetch_one :
      (P : R → Type 0) (p : R → Bool) (rows : List R) {r : R}
      → All P rows
      → fetch_one p rows ≡ some r
      → P r
  All-fetch_one P p [] a h = ground arith
  All-fetch_one P p (x ∷ xs) {r} a h = first (p x) h (All-fetch_one P p xs a.1)
    where
      first :
          (b : Bool)
          → (if b then some x else fetch_one p xs) ≡ some r
          → (fetch_one p xs ≡ some r → P r)
          → P r
      first true e later = subst P (some_eq x _ e) a.0
      first false e later = later e

  pub All-insert :
      (P : R → Type 0) (r : R) (rows : List R) → All P rows → P r → All P (insert r rows)
  All-insert P r [] a h = (h, tt)
  All-insert P r (x ∷ xs) a h = (a.0, All-insert P r xs a.1 h)

  pub All-update :
      (P : R → Type 0) (test : R → Bool) (f : R → R)
      → ((r : R) → P r → test r ≡ true → P (f r))
      → (rows : List R) → All P rows
      → All P (update test f rows)
  All-update P test f keeps [] a = tt
  All-update P test f keeps (r ∷ rs) a = (one (test r) refl, All-update P test f keeps rs a.1)
    where
      one : (b : Bool) → test r ≡ b → P (if b then f r else r)
      one true e = keeps r a.0 e
      one false e = a.0

  pub All-map :
      (P Q : R → Type 0) → ((r : R) → P r → Q r) → (rows : List R) → All P rows → All Q rows
  All-map P Q h [] a = tt
  All-map P Q h (r ∷ rs) a = (h r a.0, All-map P Q h rs a.1)

  pub any-fetch_all :
      (p test : R → Bool) (rows : List R)
      → any p (fetch_all test rows) ≡ any (λ r. test r && p r) rows
  any-fetch_all p test [] = refl
  any-fetch_all p test (r ∷ rs) = ground (arith, any-fetch_all p test rs)

module _ {R : Type 0} (p : R → Bool) (key : R → ℕ) where
  any-insert_by : (r : R) (rows : List R) → any p (insert_by key r rows) ≡ (p r || any p rows)
  unfolding insert_by
  any-insert_by r [] = refl
  any-insert_by r (x ∷ xs) = ground (arith, any-insert_by r xs)

  -- sorting neither adds nor drops rows
  pub any-sort_by : (rows : List R) → any p (sort_by key rows) ≡ any p rows
  unfolding sort_by
  any-sort_by [] = refl
  any-sort_by (r ∷ rs) = any-insert_by r (sort_by key rs) ∙ ap (λ b. p r || b) (any-sort_by rs)
