-- ===== src/Safety.antt =====
-- Credits and approvals stay within the configured limits, through every request.
pub mod Tables
pub mod Quiet
pub mod Writes
pub mod Billing
pub mod Keeps
pub mod Approval
pub mod Evaluate
pub mod Effects
pub mod Requests
