-- ===== src/Wire/Valid.antt =====
-- The values that the repository reads are valid, as the client's models want them.
use agentic_ai.Base.{◌≡◌, true, arith, subst}
use agentic_ai.Domain.Errors.{ok, or_err, and_then-ok, ok_inj}
use agentic_ai.Domain.Models.{money, is_customer_id, Customer, Contract, Invoice}
use agentic_ai.Domain.Status.{parse_contract_status, parse_invoice_status}
use agentic_ai.Store.{CustomerRow, ContractRow, InvoiceRow}
use agentic_ai.Repository.{customer_of, contract_of, invoice_of}
use agentic_ai.Wire.RoundTrip.{IsMoney, money-IsMoney}

pub customer_of-IsId :
    (row : CustomerRow) (c : Customer) → customer_of row ≡ ok c → is_customer_id c.id ≡ true
unfolding customer_of
customer_of-IsId row c e = ground (arith, e)

pub contract_of-IsMoney :
    (row : ContractRow) (c : Contract) → contract_of row ≡ ok c → IsMoney c.monthly_price
unfolding contract_of
contract_of-IsMoney row c e =
    let (price, valid, rest) =
      and_then-ok (money row.monthly_price_amount row.monthly_price_currency) _ e in
    let (status, known, same) = and_then-ok (or_err (parse_contract_status row.status) _) _ rest in
    subst (λ k. IsMoney k.monthly_price) (ok_inj same)
      (money-IsMoney row.monthly_price_amount row.monthly_price_currency price valid)

pub invoice_of-IsMoney : (row : InvoiceRow) (i : Invoice) → invoice_of row ≡ ok i → IsMoney i.total
unfolding invoice_of
invoice_of-IsMoney row i e =
    let (total, valid, rest) = and_then-ok (money row.total_amount row.total_currency) _ e in
    let (status, known, same) = and_then-ok (or_err (parse_invoice_status row.status) _) _ rest in
    subst (λ k. IsMoney k.total) (ok_inj same)
      (money-IsMoney row.total_amount row.total_currency total valid)
