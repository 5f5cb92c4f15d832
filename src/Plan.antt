-- ===== src/Plan.antt =====
-- control/plan_react.py and sdk/plan_react.py: what a model submits for approval.
pub mod Errors
pub mod Acyclic
pub mod Rounds
pub mod Ranks
pub mod Acceptance
pub mod Proposal
pub mod Validity
pub mod Revalidation
pub mod Compile
pub mod Integrity
mod Tests
