-- ===== src/Control.antt =====
-- The control plane, control/plane.py, over the SQLite control store.
pub mod Failures
pub mod Calls
pub mod Shared
pub mod Cancel
pub mod Retry
pub mod Decide
pub mod Settle
pub mod Submit
pub mod UserInput
pub mod Resume
pub mod Execute
pub mod Lifecycle
pub mod Guarantee
pub mod Rules
pub mod Sequence
pub mod Requests
pub mod Guarantees
pub mod Access
pub mod Decision
pub mod Answers
pub mod Lives
pub mod Consequences
mod Samples
mod Tests
