-- ===== src/McpServer.antt =====
-- mcp_server/services/billing_service.py and the token of mcp_server/http_api.py: the tools, each in
-- a session of its own. Where the code writes the parts of a value as texts, which the client reads
-- again, the result is the value.
pub mod Unresolved
pub mod Api
use agentic_ai.Base.{ℕ, ◌+◌, String, Option, none, some, ◌==◌, if◌then◌else◌}
use agentic_ai.Base.Int.{ℤ}
use agentic_ai.Base.Text.{◌+s+◌, decimal}
use agentic_ai.Domain.Errors.{not_found, validation, http, bad_value, Result, or_err}
use agentic_ai.Domain.Models.{Customer, Contract, Invoice}
use agentic_ai.World.{Action, pure, raise, lift, ◌>>=◌, ◌>>◌, now, uuid4, commit, with_session}
use agentic_ai.Repository.{
  get_customer, get_latest_finalized_invoice, get_contract_for_period, create_credit,
  create_approval,
}
use agentic_ai.Billing.{settings, require, approval_lifetime}

pub record CreditResult : Type 0 where
  pub credit_id : String
  pub customer_id : String
  pub invoice_id : String
  pub amount : String
  pub reason : String
  pub status : String

pub record ApprovalResult : Type 0 where
  pub approval_id : String
  pub customer_id : String
  pub invoice_id : String
  pub amount : String
  pub status : String

unfoldable pub get_customer_tool : String → Action Customer
get_customer_tool customer_id =
    with_session
      do customer ← get_customer customer_id; require customer (not_found "Customer not found")

unfoldable pub get_invoice_tool : String → Action Invoice
get_invoice_tool customer_id = with_session do
  invoice ← get_latest_finalized_invoice customer_id
  require invoice (not_found "Finalized invoice not found")

-- `lookup_at`: the given instant, or the one of the latest invoice.
unfoldable pub look_up_at : String → Option ℕ → Action ℕ
look_up_at customer_id (some issued_at) = pure issued_at
look_up_at customer_id none = do
  found ← get_latest_finalized_invoice customer_id
  invoice ← require found (not_found "Finalized invoice not found")
  pure invoice.issued_at

unfoldable pub get_contract_tool : String → Option ℕ → Action Contract
get_contract_tool customer_id issued_at = with_session do
  at ← look_up_at customer_id issued_at
  contract ← get_contract_for_period customer_id at
  require contract (validation "No unique active contract found for invoice period")

-- `Decimal(amount)`
abbrev pub amount_of : String → Result ℤ
amount_of amount = or_err (decimal amount) (bad_value "InvalidOperation")

unfoldable pub create_credit_tool : String → String → String → String → Action CreditResult
create_credit_tool customer_id invoice_id amount reason = with_session do
  id ← uuid4
  value ← lift (amount_of amount)
  s ← settings
  credit ← create_credit ("mcp-" +s+ id) customer_id invoice_id value s.supported_currency reason
  commit
  pure (record {
    credit_id = credit.id;
    customer_id = customer_id;
    invoice_id = invoice_id;
    amount = amount;
    reason = reason;
    status = "created";
  })

unfoldable pub request_approval_tool : String → String → String → Action ApprovalResult
request_approval_tool customer_id invoice_id amount = with_session do
  request ← uuid4
  workflow ← uuid4
  value ← lift (amount_of amount)
  s ← settings
  at ← now
  approval ←
      create_approval ("mcp-" +s+ request) ("mcp-" +s+ workflow) customer_id invoice_id value
        s.supported_currency (at + approval_lifetime)
  commit
  pure (record {
    approval_id = approval.id;
    customer_id = customer_id;
    invoice_id = invoice_id;
    amount = amount;
    status = "pending";
  })

-- `verify_mcp_token`, before a tool.
unfoldable pub with_token {ℓ} : {A : Type ℓ} → String → String → Action A → Action A
with_token mcp_service_token x_mcp_token tool =
    if x_mcp_token == mcp_service_token then tool else raise (http 401 "Unauthorized")
