-- ===== src/Billing/Service.antt =====
-- `BillingService` of src/application/services/billing_service.py.
use agentic_ai.Base.{
  ℕ, ◌+◌, ◌*◌, String, Bool, true, false, not, Option, none, some, [], ◌∷◌, ◌==◌, if◌then◌else◌,
}
use agentic_ai.Base.Int.{ℤ, ◌-ℤ◌}
use agentic_ai.Base.Text.{◌+s+◌, show_amount}
use agentic_ai.Domain.Status.{BillingDecision}
use agentic_ai.Domain.Errors.{Error, validation, not_found, conflict, or_err}
use agentic_ai.Domain.Models.{Customer, Contract, Invoice}
use agentic_ai.Domain.Rules.{BillingRuleResult, evaluate_billing_decision}
use agentic_ai.World.{
  Settings, Action, pure, raise, lift, query, ◌>>=◌, ◌>>◌, now, record_credit_created,
  record_approval_created,
}
use agentic_ai.Repository.{
  get_customer, get_latest_finalized_invoice, get_contract_for_period, ensure_idempotency,
  create_credit, create_approval, add_audit_event,
}
use agentic_ai.Billing.Client.{BillingMcpClient}

pub record BillingComputation : Type 0 where
  pub discrepancy : ℤ
  pub decision : BillingDecision
  pub reason : String

pub record ApprovalDecisionResult : Type 0 where
  pub workflow_id : String
  pub request_id : String
  pub outcome : String
  pub customer_id : String
  pub amount : ℤ

unfoldable pub settings : Action Settings
settings = query λ env t. env.settings

-- `if not x: raise …`
abbrev pub require {ℓ} : {A : Type ℓ} → Option A → Error → Action A
require o e = lift (or_err o e)

abbrev pub raise_if : Bool → Error → Action (Unit {0})
raise_if true e = raise e
raise_if false e = pure tt

-- The facts of a customer's bill, from the repository or from the tool server.
unfoldable pub billing_facts :
    Option BillingMcpClient → String → Action (Customer × Invoice × Contract)
billing_facts none customer_id = do
  customer ← (do found ← get_customer customer_id; require found (not_found "Customer not found"))
  invoice ← (do
    found ← get_latest_finalized_invoice customer.id
    require found (not_found "Finalized invoice not found"))
  contract ← (do
    found ← get_contract_for_period customer.id invoice.issued_at
    require found (validation "No unique active contract found for invoice period"))
  pure (customer, invoice, contract)
billing_facts (some client) customer_id = do
  customer ← client.get_customer customer_id
  invoice ← client.get_invoice customer.id
  contract ← client.get_contract customer.id invoice.issued_at
  pure (customer, invoice, contract)

-- The rules, under the configured limits.
abbrev pub compute : Settings → ℤ → BillingRuleResult
compute s discrepancy = evaluate_billing_decision (record {
  discrepancy = discrepancy;
  auto_credit_limit = s.auto_credit_limit;
  max_credit_limit = s.max_credit_limit;
})

-- The rest of `analyze_customer_billing`, once the facts are known.
unfoldable pub assess :
    String → String → Customer × Invoice × Contract → Action (BillingComputation × String × String)
assess request_id workflow_id (customer, invoice, contract) = do
  raise_if (not (invoice.total.currency == contract.monthly_price.currency))
      (validation "Invoice and contract currency mismatch")
  s ← settings
  let discrepancy = invoice.total.amount -ℤ contract.monthly_price.amount
  let decision = compute s discrepancy
  add_audit_event request_id workflow_id "DISCREPANCY_CALCULATED" "system" "billing_service"
      (("customer_id", customer.id) ∷ ("discrepancy", show_amount discrepancy) ∷ [])
  pure (
    record { discrepancy = discrepancy; decision = decision.decision; reason = decision.reason },
    invoice.id,
    invoice.total.currency,
  )

unfoldable pub analyze_customer_billing :
    Option BillingMcpClient
    → String
    → String
    → String
    → Action (BillingComputation × String × String)
analyze_customer_billing client request_id workflow_id customer_id = do
  facts ← billing_facts client customer_id
  assess request_id workflow_id facts

abbrev pub idempotency_key : String → String → String → ℤ → String
idempotency_key request_id customer_id invoice_id discrepancy =
    "credit:"
    +s+ request_id
    +s+ ":"
    +s+ customer_id
    +s+ ":"
    +s+ invoice_id
    +s+ ":"
    +s+ show_amount discrepancy

abbrev pub credit_reason : String
credit_reason = "Billing discrepancy auto-correction"

-- `self.mcp_client is not None and self.settings.mcp_client_mode == "http"`: the client to write by.
abbrev pub remote : Option BillingMcpClient → Settings → Option BillingMcpClient
remote none s = none
remote (some client) s = if s.http_mode then some client else none

-- The credit itself, by the tool server or by the repository.
unfoldable pub issue_credit :
    Option BillingMcpClient → String → String → String → ℤ → String → Action String
issue_credit (some client) request_id customer_id invoice_id discrepancy currency = do
  credit_id ← client.create_credit customer_id invoice_id discrepancy credit_reason
  record_credit_created
  pure credit_id
issue_credit none request_id customer_id invoice_id discrepancy currency = do
  credit ← create_credit request_id customer_id invoice_id discrepancy currency credit_reason
  record_credit_created
  pure credit.id

unfoldable pub create_credit_if_allowed :
    Option BillingMcpClient → String → String → String → ℤ → String → Action String
create_credit_if_allowed client request_id customer_id invoice_id discrepancy currency = do
  inserted ←
      ensure_idempotency (idempotency_key request_id customer_id invoice_id discrepancy) request_id
  raise_if (not inserted) (conflict "Duplicate operation detected by idempotency key")
  s ← settings
  issue_credit (remote client s) request_id customer_id invoice_id discrepancy currency

-- `timedelta(hours=24)`, in microseconds.
abbrev pub approval_lifetime : ℕ
approval_lifetime = 24 * 3600 * 1_000_000

unfoldable pub submit_approval :
    Option BillingMcpClient → String → String → String → String → ℤ → String → Action String
submit_approval (some client) request_id workflow_id customer_id invoice_id discrepancy currency =
    do
      approval_id ← client.request_approval customer_id invoice_id discrepancy
      record_approval_created
      pure approval_id
submit_approval none request_id workflow_id customer_id invoice_id discrepancy currency = do
  at ← now
  approval ←
      create_approval request_id workflow_id customer_id invoice_id discrepancy currency
        (at + approval_lifetime)
  record_approval_created
  pure approval.id

unfoldable pub create_approval_request :
    Option BillingMcpClient → String → String → String → String → ℤ → String → Action String
create_approval_request client request_id workflow_id customer_id invoice_id discrepancy currency =
    do
      s ← settings
      submit_approval (remote client s) request_id workflow_id customer_id invoice_id discrepancy
          currency
