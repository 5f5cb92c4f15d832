-- ===== src/Leases.antt =====
-- The Worker leases of store/postgres.py: which Worker may execute which Run or Conversation.
pub mod Table
pub mod History
pub mod Tokens
pub mod Fencing
pub mod Exclusion
pub mod Claims
pub mod Granting
mod Tests
