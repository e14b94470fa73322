-- ===== src/Repository.antt =====
-- src/infrastructure/persistence/repositories/billing_repository.py: `BillingRepository`, method by
-- method, over the world's session.
pub mod Reads
pub mod Writes
unfoldable pub use Reads.*
unfoldable pub use Writes.*
