-- ===== src/Billing.antt =====
-- src/application/services/billing_service.py: `BillingService`, method by method. The client of the
-- tool server is an interface; no client is the `None` that the tests pass.
pub mod Client
pub mod Service
pub mod Approval
unfoldable pub use Service.*
unfoldable pub use Approval.*
pub use Client.*
