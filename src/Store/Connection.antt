-- ===== src/Store/Connection.antt =====
-- The connection of `SqliteControlStore`: what is committed, whether the store is initialized, and
-- the transaction that `sqlite3` has open. An operation runs under the store's lock with no
-- `await` inside, so it is one function from state to state.
use dsh_base_agent.Prelude.{
  Bool, true, false, Option, none, some, ◌&&◌, Result, ok, err, Error, store_error, not_initialized,
  operational_error, revision_conflict, ℕ, nat_eq, ◌==◌, ◌!=◌, if◌then◌else◌,
}
use dsh_base_agent.Models.{RunStatus, RunPhase, run_status_eq, run_phase_eq}
use dsh_base_agent.Sql.{update}
use dsh_base_agent.Store.Tables.{Db, RunRow}

-- `pending` is the working copy of an open transaction.
pub record SqliteControlStore : Type 0 where
  pub disk : Db
  pub connected : Bool
  pub pending : Option Db

abbrev pub Exec : Type 0 → Type 0
Exec A = SqliteControlStore → Result Error A × SqliteControlStore

-- How statements end: with a result or an exception, and with what is written so far.
abbrev pub Ran : Type 0 → Type 0
Ran A = Result (Error × Db) (A × Db)

-- Statements on the database that a connection sees.
abbrev pub Tx : Type 0 → Type 0
Tx A = Db → Ran A

abbrev pub then_tx : {A B : Type 0} → Ran A → (A → Tx B) → Ran B
then_tx (ok (a, db)) f = f a db
then_tx (err e) f = err e

unfoldable pub pure : {A : Type 0} → A → Tx A
pure a db = ok (a, db)

unfoldable pub lift : {A : Type 0} → Result Error A → Tx A
lift (ok a) db = ok (a, db)
lift (err e) db = err (e, db)

unfoldable pub gets : {A : Type 0} → (Db → A) → Tx A
gets f db = ok (f db, db)

-- Opening `>>=` opens the other actions too.
infixl 5 ◌>>=◌ ◌>>◌
unfoldable pub ◌>>=◌ : {A B : Type 0} → Tx A → (A → Tx B) → Tx B
unfolding pure lift gets
◌>>=◌ m f db = then_tx (m db) f

abbrev pub ◌>>◌ : {B : Type 0} → Tx (Unit {0}) → Tx B → Tx B
m >> k = m >>= λ _. k

-- `_require_connection`
abbrev pub require_connection : {A : Type 0} → Exec A → Exec A
require_connection m s = if s.connected then m s else (err (store_error not_initialized), s)

-- what a statement of this connection reads and writes
abbrev pub working : SqliteControlStore → Db
working s = elim s.pending [ none ↦ s.disk | some db ↦ db ]

-- the connection after statements that its transaction has written
abbrev pub written : Db → SqliteControlStore → SqliteControlStore
written db s = record s { pending = some db }

-- `connection.commit()` and `connection.rollback()`
abbrev pub commit : SqliteControlStore → SqliteControlStore
commit s = record s { disk = working s; pending = none }

abbrev pub rollback : SqliteControlStore → SqliteControlStore
rollback s = record s { pending = none }

-- `commit` on success; `except BaseException: connection.rollback(); raise`, which gives up what the
-- statements before the exception have written
abbrev pub commit_or_rollback : {A : Type 0} → Ran A → Exec A
commit_or_rollback (ok (a, db)) s = (ok a, commit (written db s))
commit_or_rollback (err (e, db)) s = (err e, rollback (written db s))

-- `BEGIN IMMEDIATE` is refused inside a transaction, before the `try` whose handler rolls back.
abbrev pub begin_immediate : {A : Type 0} → Tx A → Option Db → Exec A
begin_immediate body (some _) s = (err operational_error, s)
begin_immediate body none s = commit_or_rollback (body s.disk) s

-- `BEGIN IMMEDIATE; try: body; commit; except BaseException: rollback; raise`
unfoldable pub transaction : {A : Type 0} → Tx A → Exec A
transaction body = require_connection (λ s. begin_immediate body s.pending s)

-- `create_conversation`, the same without an explicit BEGIN: `sqlite3` opens a transaction at the
-- first write, or goes on in the one that is open.
unfoldable pub autocommit : {A : Type 0} → Tx A → Exec A
autocommit body = require_connection (λ s. commit_or_rollback (body (working s)) s)

-- `if result.rowcount != 1: connection.rollback(); raise RevisionConflictError`, and else `commit`
abbrev pub commit_or_conflict : ℕ × Db → Exec (Unit {0})
commit_or_conflict (rowcount, db) s =
    if rowcount == 1
    then (ok tt, commit (written db s))
    else (err revision_conflict, rollback (written db s))

-- One UPDATE with no handler, in the `replace_*` methods: the number of its rows and the database
-- after it. No constraint of its table can fail, and the integers that it binds have 64 bits.
unfoldable pub update_one : (Db → ℕ × Db) → Exec (Unit {0})
update_one statement = require_connection (λ s. commit_or_conflict (statement (working s)) s)

abbrev pub commit_or_raise : {A : Type 0} → Db → Ran A → Exec A
commit_or_raise before (ok (a, db)) s = (ok a, record s { disk = db; pending = none })
commit_or_raise before (err (e, db)) s = (err e, record s { pending = some before })

-- One INSERT and `commit()` with no handler: when the INSERT fails, the transaction that
-- `sqlite3` opened for it stays open.
unfoldable pub unguarded : {A : Type 0} → Tx A → Exec A
unguarded body = require_connection (λ s. commit_or_raise (working s) (body (working s)) s)

-- a SELECT alone, which opens no transaction
unfoldable pub query : {A : Type 0} → (Db → Result Error A) → Exec A
query read = require_connection (λ s. (read (working s), s))

-- the tests that an operation makes before it takes the lock
abbrev pub checked : {A : Type 0} → Result Error (Unit {0}) → Exec A → Exec A
checked (ok _) m s = m s
checked (err e) m s = (err e, s)

-- `_normalize_succeeded_run_phases`: the loop rewrites one row for each row that it selects.
abbrev pub is_unnormalized : RunRow → Bool
is_unnormalized row = row.status == RunStatus.succeeded && row.payload.phase != RunPhase.completed

unfoldable pub normalize_succeeded_run_phases : Db → Db
normalize_succeeded_run_phases db = record db {
  runs =
      update is_unnormalized
        (λ row. record row { payload = record row.payload { phase = RunPhase.completed } }) db.runs;
}

-- The schema statements change no row of a database of this version.
unfoldable pub initialize : Exec (Unit {0})
unfolding normalize_succeeded_run_phases
initialize s =
    if s.connected
    then (ok tt, s)
    else (ok tt, record s { disk = normalize_succeeded_run_phases s.disk; connected = true })

-- `connection.close()` gives up the open transaction.
unfoldable pub close : Exec (Unit {0})
close s = (ok tt, record s { connected = false; pending = none })
