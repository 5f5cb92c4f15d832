-- ===== src/Store/Frames.antt =====
-- Frame rules of the statements, for invariants of one table.
pub mod Runs
pub mod Idempotency
pub mod Events
