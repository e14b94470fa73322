-- ===== src/Billing/Client.antt =====
-- What the service asks of `BillingMCPClient` (src/infrastructure/mcp/client.py): its public methods.
use agentic_ai.Base.{ℕ, String}
use agentic_ai.Base.Int.{ℤ}
use agentic_ai.Domain.Models.{Customer, Contract, Invoice}
use agentic_ai.World.{Action}

pub record BillingMcpClient : Type 0 where
  pub get_customer : String → Action Customer
  pub get_contract : String → ℕ → Action Contract
  pub get_invoice : String → Action Invoice
  pub create_credit : String → String → ℤ → String → Action String
  pub request_approval : String → String → ℤ → Action String
