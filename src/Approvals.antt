-- ===== src/Approvals.antt =====
-- What a decision on an approval request does, on every branch.
pub mod Atomic
pub mod Outcome
pub mod Granted
pub mod Effect
pub mod Accepted
