-- ===== src/Sql.antt =====
-- The SQL that the stores use, on a table as the list of its rows in `rowid` order: what
-- `SELECT ... WHERE`, `UPDATE ... WHERE` with its `rowcount`, and the uniqueness that a PRIMARY KEY
-- or a UNIQUE index asks of an INSERT do.
pub mod Rows
pub mod Keys
use dsh_base_agent.Prelude.{
  ℕ, zero, suc, ◌≡◌, Bool, true, false, Option, none, some, List, [], ◌∷◌, ◌++◌, Eq, ◌==◌, leb,
  if◌then◌else◌,
}
use dsh_base_agent.Prelude.Lists.{any}

module _ {R : Type 0} where
  -- `SELECT ... WHERE p`, then `fetchone()`
  abbrev pub fetch_one : (R → Bool) → List R → Option R
  fetch_one p [] = none
  fetch_one p (r ∷ rs) = if p r then some r else fetch_one p rs

  -- `SELECT ... WHERE p ORDER BY rowid`, then `fetchall()`
  abbrev pub fetch_all : (R → Bool) → List R → List R
  fetch_all p [] = []
  fetch_all p (r ∷ rs) = let rest = fetch_all p rs in if p r then r ∷ rest else rest

  -- the `rowcount` of `UPDATE ... WHERE p`
  abbrev pub rowcount : (R → Bool) → List R → ℕ
  rowcount p [] = 0
  rowcount p (r ∷ rs) = let rest = rowcount p rs in if p r then suc rest else rest

  -- the rows after `UPDATE ... SET f WHERE p`
  abbrev pub update : (R → Bool) → (R → R) → List R → List R
  update p f [] = []
  update p f (r ∷ rs) = (if p r then f r else r) ∷ update p f rs

  -- the rows after an INSERT
  abbrev pub insert : R → List R → List R
  insert r rows = rows ++ r ∷ []

-- Rows in ascending order of a number, equal ones in the order that they had: `ORDER BY` a column
-- that is unique among the rows, and Python's `sorted` by a key.
module _ {R : Type 0} (key : R → ℕ) where
  unfoldable pub insert_by : R → List R → List R
  insert_by r [] = r ∷ []
  insert_by r (x ∷ xs) =
      let later = x ∷ insert_by r xs in if leb (key r) (key x) then r ∷ x ∷ xs else later

  unfoldable pub sort_by : List R → List R
  unfolding insert_by
  sort_by [] = []
  sort_by (r ∷ rs) = insert_by r (sort_by rs)

-- No two rows have the same key.
module _ {R K : Type 0} ⦃e : Eq K⦄ (key : R → K) where
  abbrev pub has_key : K → R → Bool
  has_key k r = key r == k

  abbrev pub IsKeyed : List R → Type 0
  IsKeyed [] = Unit
  IsKeyed (r ∷ rs) = (any (has_key (key r)) rs ≡ false) × IsKeyed rs
