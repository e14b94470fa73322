-- ===== src/Wire/RoundTrip.antt =====
-- What the server writes, the client reads back.
use agentic_ai.Base.{ℕ, Option, none, ◌≡◌, refl, true, some, String, arith}
use agentic_ai.Base.Int.{ℤ}
use agentic_ai.Base.Decimal.{decimal-show_amount}
use agentic_ai.Base.Upper.{upper-upper, count-upper}
use agentic_ai.Domain.Status.{
  CustomerStatus, ContractStatus, InvoiceStatus, customer_status_value, contract_status_value,
  invoice_status_value, parse_customer_status, parse_contract_status, parse_invoice_status,
}
use agentic_ai.Domain.Errors.{ok}
use agentic_ai.Domain.Models.{money, is_customer_id, Money, Customer, Contract, Invoice}
use agentic_ai.Wire.{
  customer_payload, contract_payload, invoice_payload, customer_result, contract_result,
  invoice_result, instant_or_null, optional_of,
}

parse-customer_status :
    (s : CustomerStatus) → parse_customer_status (customer_status_value s) ≡ some s
parse-customer_status CustomerStatus.active = refl
parse-customer_status CustomerStatus.suspended = refl
parse-customer_status CustomerStatus.closed = refl

-- Money that has been validated.
abbrev pub IsMoney : Money → Type 0
IsMoney m = money m.amount m.currency ≡ ok m

-- What `Money` makes of an amount and a currency is valid money, its currency in capitals.
pub money-IsMoney : (n : ℤ) (u : String) (m : Money) → money n u ≡ ok m → IsMoney m
unfolding money
money-IsMoney n u m e = ground (arith, e, upper-upper u, count-upper u)

pub customer_result-payload :
    (c : Customer) → is_customer_id c.id ≡ true → customer_result (customer_payload c) ≡ ok c
unfolding customer_result
customer_result-payload c h = ground (arith, h, parse-customer_status c.status)

parse-contract_status :
    (s : ContractStatus) → parse_contract_status (contract_status_value s) ≡ some s
parse-contract_status ContractStatus.active = refl
parse-contract_status ContractStatus.cancelled = refl
parse-contract_status ContractStatus.expired = refl

parse-invoice_status : (s : InvoiceStatus) → parse_invoice_status (invoice_status_value s) ≡ some s
parse-invoice_status InvoiceStatus.draft = refl
parse-invoice_status InvoiceStatus.finalized = refl
parse-invoice_status InvoiceStatus.cancelled = refl
parse-invoice_status InvoiceStatus.superseded = refl

optional-instant : (o : Option ℕ) → optional_of (some (instant_or_null o)) ≡ ok o
optional-instant none = refl
optional-instant (some at) = refl

-- A contract whose price is valid money arrives as it was sent.
pub contract_result-payload :
    (c : Contract) → IsMoney c.monthly_price → contract_result (contract_payload c) ≡ ok c
unfolding contract_result
contract_result-payload c h = ground (
  arith,
  h,
  parse-contract_status c.status,
  decimal-show_amount c.monthly_price.amount,
  optional-instant c.effective_to,
)

-- An invoice whose total is valid money arrives as it was sent.
pub invoice_result-payload :
    (i : Invoice) → IsMoney i.total → invoice_result (invoice_payload i) ≡ ok i
unfolding invoice_result
invoice_result-payload i h =
    ground (arith, h, parse-invoice_status i.status, decimal-show_amount i.total.amount)
