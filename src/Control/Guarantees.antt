-- ===== src/Control/Guarantees.antt =====
-- The guarantee of each operation of the control plane.
pub mod Shared
pub mod Retry
pub mod Cancel
pub mod Decide
pub mod Resume
pub mod Settle
pub mod Submit
pub mod Execute
pub mod Recover
