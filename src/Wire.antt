-- ===== src/Wire.antt =====
-- What the tool server answers and how the client reads it: the dictionaries of
-- mcp_server/services/billing_service.py, and the results and values of
-- src/infrastructure/mcp/client.py.
pub mod RoundTrip
pub mod Valid
pub use agentic_ai.Payload.{Value, text, instant, null, Payload}
use agentic_ai.Base.{ℕ, String, Option, none, some, List, [], ◌∷◌, ◌==◌, if◌then◌else◌}
use agentic_ai.Base.Int.{ℤ}
use agentic_ai.Base.Text.{show_amount, decimal}
use agentic_ai.Domain.Status.{
  customer_status_value, contract_status_value, invoice_status_value, parse_customer_status,
  parse_contract_status, parse_invoice_status,
}
use agentic_ai.Domain.Errors.{bad_value, Result, ok, err, or_err, and_then}
use agentic_ai.Domain.Models.{money, is_customer_id, Money, Customer, Contract, Invoice}
use agentic_ai.McpServer.{CreditResult, ApprovalResult}

abbrev pub customer_payload : Customer → Payload
customer_payload customer =
    ("customer_id", text customer.id)
    ∷ ("email", text customer.email)
    ∷ ("status", text (customer_status_value customer.status))
    ∷ []

abbrev pub instant_or_null : Option ℕ → Value
instant_or_null none = null
instant_or_null (some at) = instant at

abbrev pub contract_payload : Contract → Payload
contract_payload contract =
    ("contract_id", text contract.id)
    ∷ ("customer_id", text contract.customer_id)
    ∷ ("monthly_price", text (show_amount contract.monthly_price.amount))
    ∷ ("currency", text contract.monthly_price.currency)
    ∷ ("effective_from", instant contract.effective_from)
    ∷ ("effective_to", instant_or_null contract.effective_to)
    ∷ ("status", text (contract_status_value contract.status))
    ∷ []

abbrev pub invoice_payload : Invoice → Payload
invoice_payload invoice =
    ("invoice_id", text invoice.id)
    ∷ ("customer_id", text invoice.customer_id)
    ∷ ("billing_period", text invoice.billing_period)
    ∷ ("issued_at", instant invoice.issued_at)
    ∷ ("total", text (show_amount invoice.total.amount))
    ∷ ("currency", text invoice.total.currency)
    ∷ ("status", text (invoice_status_value invoice.status))
    ∷ []

abbrev pub credit_payload : CreditResult → Payload
credit_payload credit =
    ("credit_id", text credit.credit_id)
    ∷ ("customer_id", text credit.customer_id)
    ∷ ("invoice_id", text credit.invoice_id)
    ∷ ("amount", text credit.amount)
    ∷ ("reason", text credit.reason)
    ∷ ("status", text credit.status)
    ∷ []

abbrev pub approval_payload : ApprovalResult → Payload
approval_payload approval =
    ("approval_id", text approval.approval_id)
    ∷ ("customer_id", text approval.customer_id)
    ∷ ("invoice_id", text approval.invoice_id)
    ∷ ("amount", text approval.amount)
    ∷ ("status", text approval.status)
    ∷ []

-- The fields of a model, as `model_validate` finds them.
abbrev pub field : String → Payload → Option Value
field name [] = none
field name ((k, v) ∷ p) = if k == name then some v else field name p

abbrev pub text_of : Option Value → Result String
text_of (some (text s)) = ok s
text_of _ = err (bad_value "str")

abbrev pub instant_of : Option Value → Result ℕ
instant_of (some (instant at)) = ok at
instant_of _ = err (bad_value "datetime")

abbrev pub optional_of : Option Value → Result (Option ℕ)
optional_of (some (instant at)) = ok (some at)
optional_of (some null) = ok none
optional_of _ = err (bad_value "datetime")

-- `Decimal(text)`, and the `Money` of it.
abbrev pub money_of : String → String → Result Money
money_of amount currency =
    and_then (or_err (decimal amount) (bad_value "InvalidOperation")) (λ n. money n currency)

-- `MCPCustomerResult.model_validate(payload)` and the customer that `get_customer` makes of it.
unfoldable pub customer_result : Payload → Result Customer
customer_result p = and_then (text_of (field "customer_id" p)) λ customer_id.
    and_then (text_of (field "email" p)) λ email. and_then (text_of (field "status" p)) λ status.
      and_then (or_err (parse_customer_status status) (bad_value "CustomerStatus")) λ status.
        if is_customer_id customer_id
        then ok (record { id = customer_id; email = email; status = status })
        else err (bad_value "Customer")

unfoldable pub contract_result : Payload → Result Contract
contract_result p = and_then (text_of (field "contract_id" p)) λ contract_id.
    and_then (text_of (field "customer_id" p)) λ customer_id.
      and_then (text_of (field "monthly_price" p)) λ monthly_price.
        and_then (text_of (field "currency" p)) λ currency.
          and_then (instant_of (field "effective_from" p)) λ effective_from.
            and_then (optional_of (field "effective_to" p)) λ effective_to.
              and_then (text_of (field "status" p)) λ status.
                and_then (money_of monthly_price currency) λ price.
                  and_then (or_err (parse_contract_status status) (bad_value "ContractStatus"))
                    λ status. ok (record {
                      id = contract_id;
                      customer_id = customer_id;
                      monthly_price = price;
                      effective_from = effective_from;
                      effective_to = effective_to;
                      status = status;
                    })

unfoldable pub invoice_result : Payload → Result Invoice
invoice_result p = and_then (text_of (field "invoice_id" p)) λ invoice_id.
    and_then (text_of (field "customer_id" p)) λ customer_id.
      and_then (text_of (field "billing_period" p)) λ billing_period.
        and_then (instant_of (field "issued_at" p)) λ issued_at.
          and_then (text_of (field "total" p)) λ total.
            and_then (text_of (field "currency" p)) λ currency.
              and_then (text_of (field "status" p)) λ status.
                and_then (money_of total currency) λ total.
                  and_then (or_err (parse_invoice_status status) (bad_value "InvoiceStatus"))
                    λ status. ok (record {
                      id = invoice_id;
                      customer_id = customer_id;
                      billing_period = billing_period;
                      issued_at = issued_at;
                      total = total;
                      status = status;
                    })

-- `MCPCreditResult.model_validate(payload).credit_id`
unfoldable pub credit_result : Payload → Result String
credit_result p = and_then (text_of (field "credit_id" p)) λ credit_id.
    and_then (text_of (field "customer_id" p)) λ customer_id.
      and_then (text_of (field "invoice_id" p)) λ invoice_id.
        and_then (text_of (field "amount" p)) λ amount.
          and_then (text_of (field "reason" p))
            λ reason. and_then (text_of (field "status" p)) λ status. ok credit_id

-- `MCPApprovalResult.model_validate(payload).approval_id`
unfoldable pub approval_result : Payload → Result String
approval_result p = and_then (text_of (field "approval_id" p)) λ approval_id.
    and_then (text_of (field "customer_id" p)) λ customer_id.
      and_then (text_of (field "invoice_id" p)) λ invoice_id.
        and_then (text_of (field "amount" p))
          λ amount. and_then (text_of (field "status" p)) λ status. ok approval_id
