-- ===== src/Store/Keeps.antt =====
-- Invariants of statements and of operations, one rule for each way to build one.
use dsh_base_agent.Prelude.{
  ◌≡◌, refl, Bool, true, false, Option, none, some, Result, ok, err, Error, integrity_error,
  revision_conflict, subst, ℕ, ◌==◌, nat_eq, Bool-cases, inl, inr, if◌then◌else◌,
}
use dsh_base_agent.Store.Tables.{Db}
use dsh_base_agent.Store.Statements.{one_row}
use dsh_base_agent.Store.Connection.{
  SqliteControlStore, Exec, Tx, Ran, then_tx, ◌>>=◌, pure, lift, gets, working, transaction,
  autocommit, unguarded, query, checked, commit_or_rollback, commit_or_raise, commit_or_conflict,
  update_one, begin_immediate,
}

abbrev pub OnOk : {A : Type 0} → (Db → Type 0) → Ran A → Type 0
OnOk P (ok (a, db)) = P db
OnOk P (err e) = Unit

-- Where `m` succeeds from a database with `P`, it leaves one with `P`.
pub record Keeps {A : Type 0} (P : Db → Type 0) (m : Tx A) : Type 0 where
  pub at : (db : Db) → P db → OnOk P (m db)

module _ {A : Type 0} {P : Db → Type 0} where
  pub Keeps-pure : (a : A) → Keeps P (pure a)
  unfolding ◌>>=◌
  Keeps-pure a = record { at = λ db h. h }

  pub Keeps-lift : (r : Result Error A) → Keeps P (lift r)
  unfolding ◌>>=◌
  Keeps-lift (ok a) = record { at = λ db h. h }
  Keeps-lift (err e) = record { at = λ db h. tt }

  pub Keeps-gets : (f : Db → A) → Keeps P (gets f)
  unfolding ◌>>=◌
  Keeps-gets f = record { at = λ db h. h }

module _ {A B : Type 0} {P : Db → Type 0} where
  OnOk-then :
      (r : Ran A) (f : A → Tx B) → OnOk P r → ((a : A) → Keeps P (f a)) → OnOk P (then_tx r f)
  OnOk-then (ok (a, db)) f h kf = (kf a).at db h
  OnOk-then (err e) f h kf = tt

  pub Keeps-bind :
      (m : Tx A) (f : A → Tx B) → Keeps P m → ((a : A) → Keeps P (f a)) → Keeps P (m >>= f)
  unfolding ◌>>=◌
  Keeps-bind m f km kf = record { at = λ db h. OnOk-then (m db) f (km.at db h) kf }

pub ruleset keeps_rules = (Keeps-pure, Keeps-lift, Keeps-gets, Keeps-bind)

-- the results of the statements' common endings
pub OnOk-one_row : (P : Db → Type 0) (n : ℕ) (db : Db) → P db → OnOk P (one_row (n, db))
OnOk-one_row P n db h = elim (Bool-cases (n == 1)) [ inl e ↦ rw e h | inr e ↦ rw e tt ]

-- an INSERT, after its constraints
pub OnOk-insert :
    (before : Db) (P : Db → Type 0) (b : Bool) (db : Db)
    → (b ≡ false → P db)
    → OnOk P
        (let r : Ran (Unit {0}) = if b then err (integrity_error, before) else ok (tt, db) in r)
OnOk-insert before P true db h = tt
OnOk-insert before P false db h = h refl

pub OnOk-if :
    (before : Db) (P : Db → Type 0) (b : Bool) (r : Ran (Unit {0}))
    → (b ≡ true → OnOk P r)
    → OnOk P (if b then r else err (integrity_error, before))
OnOk-if before P true r h = h refl
OnOk-if before P false r h = tt

-- `P` holds of what is committed and of an open transaction.
pub record Holds (P : Db → Type 0) (s : SqliteControlStore) : Type 0 where
  pub on_disk : P s.disk
  pub in_working : P (working s)

-- an operation keeps `P`, whether it returns or raises
pub record Maintains {A : Type 0} (P : Db → Type 0) (m : Exec A) : Type 0 where
  pub at : (s : SqliteControlStore) → Holds P s → Holds P (m s).1

-- an UPDATE of one row, or a conflict
Holds-conflict :
    (P : Db → Type 0) (r : ℕ × Db) (s : SqliteControlStore)
    → Holds P s
    → OnOk P (one_row r)
    → Holds P (commit_or_conflict r s).1
Holds-conflict P (n, db) s h k = elim (Bool-cases (n == 1)) [
  | inl one ↦
      let p : P db =
        subst (λ b. OnOk P (if b then ok (tt, db) else err (revision_conflict, db))) one k in
      rw one (record { on_disk = p; in_working = p })
  | inr other ↦ rw other (record { on_disk = h.on_disk; in_working = h.on_disk })
]

module _ {A : Type 0} {P : Db → Type 0} where
  Holds-commit :
      (r : Ran A) (s : SqliteControlStore)
      → Holds P s
      → OnOk P r
      → Holds P (commit_or_rollback r s).1
  Holds-commit (ok (a, db)) s h k = record { on_disk = k; in_working = k }
  Holds-commit (err e) s h k = record { on_disk = h.on_disk; in_working = h.on_disk }

  Holds-raise :
      (r : Ran A) (s : SqliteControlStore)
      → Holds P s
      → OnOk P r
      → Holds P (commit_or_raise (working s) r s).1
  Holds-raise (ok (a, db)) s h k = record { on_disk = k; in_working = k }
  Holds-raise (err e) s h k = record { on_disk = h.on_disk; in_working = h.in_working }

  Holds-begin :
      (body : Tx A) (pending : Option Db) (s : SqliteControlStore)
      → Keeps P body
      → Holds P s
      → Holds P (begin_immediate body pending s).1
  Holds-begin body none s k h = Holds-commit (body s.disk) s h (k.at s.disk h.on_disk)
  Holds-begin body (some _) s k h = h

  connection_case :
      (b : Bool) (t f : Result Error A × SqliteControlStore)
      → Holds P f.1
      → Holds P t.1
      → Holds P (if b then t else f).1
  connection_case true t f h k = k
  connection_case false t f h k = h

  pub Maintains-transaction : (body : Tx A) → Keeps P body → Maintains P (transaction body)
  unfolding transaction
  Maintains-transaction body k = record {
    at = λ s h. connection_case s.connected _ _ h (Holds-begin body s.pending s k h);
  }

  pub Maintains-autocommit : (body : Tx A) → Keeps P body → Maintains P (autocommit body)
  unfolding autocommit
  Maintains-autocommit body k = record {
    at = λ s h.
        connection_case s.connected _ _ h
          (Holds-commit (body (working s)) s h (k.at (working s) h.in_working));
  }

  pub Maintains-unguarded : (body : Tx A) → Keeps P body → Maintains P (unguarded body)
  unfolding unguarded
  Maintains-unguarded body k = record {
    at = λ s h.
        connection_case s.connected _ _ h
          (Holds-raise (body (working s)) s h (k.at (working s) h.in_working));
  }

  pub Maintains-query : (read : Db → Result Error A) → Maintains P (query read)
  unfolding query
  Maintains-query read = record { at = λ s h. connection_case s.connected _ _ h h }

  pub Maintains-checked :
      (c : Result Error (Unit {0})) (m : Exec A)
      → (c ≡ ok tt → Maintains P m)
      → Maintains P (checked c m)
  Maintains-checked (ok _) m k = k refl
  Maintains-checked (err e) m k = record { at = λ s h. h }

pub Maintains-update_one :
    {P : Db → Type 0} (statement : Db → ℕ × Db)
    → ((db : Db) → P db → OnOk P (one_row (statement db)))
    → Maintains P (update_one statement)
unfolding update_one
Maintains-update_one {P} statement k = record {
  at = λ s h.
      connection_case s.connected _ _ h
        (Holds-conflict P (statement (working s)) s h (k (working s) h.in_working));
}
