-- ===== src/Store.antt =====
-- store/sqlite.py: `SqliteControlStore`. Each operation is a function of the store's state and the
-- operation's arguments, in the order of the source's statements.
pub mod Tables
pub mod Connection
pub mod Statements
pub mod Keeps
pub mod Frames
pub mod Operation
pub mod Atomicity
pub mod Revisions
pub mod Transitions
pub mod Settled
pub mod Idempotency
pub mod Samples
mod Tests
pub mod Preservation
pub mod Consistency
pub mod Conversations
pub mod Runs
pub mod Attempts
pub mod Actions
pub mod Plans
pub mod Decided
pub mod Logs
