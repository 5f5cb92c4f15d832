-- ===== src/Lib.antt =====
-- A model of dsh-base-agent, a control plane that runs durable agents: clients create Runs inside
-- Conversations, Workers execute Attempts of them, and a store keeps all records with
-- optimistic concurrency on a revision number.
--
-- Files, with the code each models (paths from src/dsh_base_agent/):
--   Prelude        tests, equality, results and lists that all parts share.
--   Models         control/models.py: the enumerations and the records. A datetime is its number
--                  of microseconds; identifiers and times that the source draws are arguments.
--   Sql            SELECT, UPDATE and INSERT on a table as a list of rows in rowid order.
--   Store          store/sqlite.py, class SqliteControlStore. Tables is `_SCHEMA`; Connection is
--                  the connection with its open transaction; Statements has the statements and
--                  the `_*_sync` helpers; Conversations, Runs, Attempts, Actions, Plans and Logs
--                  have one function for each public method, with its name. Operation has one
--                  constructor for each method that writes, and `perform` calls it.
--     Keeps, Frames, Preservation         which calls keep which tables.
--     Consistency                         the well-formedness of the database.
--     Atomicity, Revisions, Idempotency, Decided   what clients rely on.
--     Samples, Tests                      concrete stores and runs.
--   Plan           control/plan_react.py and sdk/plan_react.py: Acyclic is `_assert_acyclic`,
--                  Proposal is `PlanReact` and `validate_proposal`, Compile is `compile_plan` and
--                  `compiled_workflow`. Rounds, Ranks and Acceptance are about the first, Validity
--                  and Revalidation about the second, Integrity about the third.
--   Leases         store/postgres.py, the Worker leases of PostgresControlStore: Table has the
--                  statements on `worker_leases`, Claims the public methods, History sequences of
--                  statements. Tokens, Fencing, Exclusion and Granting are about what they promise.
--   Worker         worker/service.py, as a client of Leases: Config is WorkerConfig, Service the table of
--                  tasks and the claiming of work. Claiming and Capacity are about its
--                  loops. Conversation is the serving of a Conversation,
--                  Resource the release of what was claimed.
--   Control        control/plane.py, class ControlPlane, as a client of Store. Calls is the calling of
--                  the store between other tasks; Shared, Submit, Cancel, Retry, Decide, Resume, Settle
--                  and Execute have the operations, with their names; UserInput is sdk/user_input.py.
--                  Requests has one constructor for each request and histories of them.
--     Lifecycle                           the life of a Run as a step relation.
--     Guarantee, Rules, Sequence          what an operation may do to the stored Runs, by rules for
--                                         the ways to build one; Guarantees has it for each.
--     Lives, Consequences                 histories of requests and what they exclude.
--     Access, Decision, Answers           who may ask, what a decision says and commits, which
--                                         answers pass.
--     Samples, Tests                      a small environment and runs.
--
-- A method of the SQLite store holds the store's lock and awaits nothing inside, so it is one function
-- from state to result and state. Errors keep the class of the exception and drop its message.
-- `BEGIN IMMEDIATE` fails inside an open transaction, and a failed statement outside a handler
-- leaves open the transaction that sqlite3 began for it, as Python documents. Statements that raise
-- carry what the ones before have written, and it is the handler's rollback that gives it up. The
-- integers that are bound to a statement have 64 bits.
--
-- The payload column of a row is the record itself: that pydantic reads back the JSON it wrote
-- is taken for granted. A database file is one that this version of the schema made, so the
-- rebuilding of an old `run_attempts` table is left out. Request digests are arguments.
-- The loop of `_assert_acyclic` runs on one more unit of fuel than there are steps: each round
-- resolves a step or raises. `PlanStep.model_validate`, the SHA-256 digests and the text of the
-- workflow script are parameters.
--
-- In PostgreSQL each statement on a lease is atomic under the lock of its row, so a history of
-- statements covers every interleaving of Workers; the times in it need not ascend.
--
-- A Worker is taken between awaits too: at each, what its tasks, other Workers and the reconciliation
-- of expired leases did to the queue is an arbitrary function, and so is the clock. Its loop of claims
-- runs on one more unit of fuel than the capacity: each round but the last starts a task.
--
-- An operation of the control plane awaits the store at each call, so a call begins with what the
-- other tasks have done to the store since the last: an arbitrary function for each step, which the
-- theorems on histories ask to be fair, that is to keep the store well formed and to take stored
-- Runs along steps of their lives; requests themselves are fair. The lock of a Run only excludes
-- some of these interleavings. The work of DSH on a Run is a value, and so is what it ends with.
-- The registry of Agents, the authorizer, identifiers, times, digests and the parsing of pydantic
-- are fields of the environment. The plane is taken after `start`.
--
-- Not modelled: `start` and `close`, the scheduling of tasks, runtimes and gateways, the execution of
-- Conversation Runs, the rest of the PostgreSQL store, the heartbeat of a Worker, the HTTP API, the adapters,
-- the artifact storage and the rest of the SDK: they are I/O around third-party libraries, or left
-- for later.
pub mod Prelude
pub mod Models
pub mod Sql
pub mod Store
pub mod Plan
pub mod Leases
pub mod Control
pub mod Worker
