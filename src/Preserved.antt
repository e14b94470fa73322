-- ===== src/Preserved.antt =====
-- The whole program preserves an invariant, where each of its writes does: the repository's methods, the
-- billing service, the workflow, the endpoints and the application around them.
pub mod Service
pub mod Approval
pub mod Requests
pub mod Local
