-- ===== src/RemoteClient/Internal.antt =====
-- No lookup of the tools raises an `HTTPException`, so that the server answers each exception of theirs
-- as an internal error.
use agentic_ai.Base.{ℕ, String, ◌≡◌, refl, Bool, true, false, Option, none, some, arith}
use agentic_ai.Base.Int.{ℤ}
use agentic_ai.Base.Lists.{keep}
use agentic_ai.Domain.Errors.{http, Result, ok, err, and_then}
use agentic_ai.Domain.Models.{money}
use agentic_ai.Store.{Tables, CustomerRow, ContractRow, InvoiceRow, find_customer}
use agentic_ai.World.{Env}
use agentic_ai.Repository.{
  build, sole, valid_contracts, is_finalized_for, customer_of, contract_of, invoice_of,
}
use agentic_ai.LocalClient.Looks.{customer_at, invoice_at, contract_at}

abbrev pub is_http : {A : Type 0} → Result A → Bool
is_http (err (http status detail)) = true
is_http _ = false

module _ {A B : Type 0} where
  and_then-internal :
      (r : Result A) (f : A → Result B)
      → is_http r ≡ false
      → ((a : A) → is_http (f a) ≡ false)
      → is_http (and_then r f) ≡ false
  and_then-internal (ok a) f h k = k a
  and_then-internal (err (http s d)) f h k = cc
  and_then-internal (err e) f h k = ground (arith, h)

pub is_http-and_then :
    {A B : Type 0} (r : Result A) (f : A → B)
    → is_http r ≡ false
    → is_http (and_then r (λ a. ok (f a))) ≡ false
is_http-and_then r f h = and_then-internal r (λ a. ok (f a)) h (λ a. refl)

module _ {R A : Type 0} (f : R → Result A) (internal : (row : R) → is_http (f row) ≡ false) where
  build-internal : (o : Option R) → is_http (build f o) ≡ false
  build-internal none = refl
  build-internal (some row) = is_http-and_then (f row) some (internal row)

customer_of-internal : (row : CustomerRow) → is_http (customer_of row) ≡ false
unfolding customer_of
customer_of-internal row = ground arith

money-internal : (amount : ℤ) (currency : String) → is_http (money amount currency) ≡ false
unfolding money
money-internal amount currency = ground arith

contract_of-internal : (row : ContractRow) → is_http (contract_of row) ≡ false
unfolding contract_of
contract_of-internal row =
    and_then-internal (money row.monthly_price_amount row.monthly_price_currency) _
      (money-internal row.monthly_price_amount row.monthly_price_currency) (λ p. ground arith)

invoice_of-internal : (row : InvoiceRow) → is_http (invoice_of row) ≡ false
unfolding invoice_of
invoice_of-internal row =
    and_then-internal (money row.total_amount row.total_currency) _
      (money-internal row.total_amount row.total_currency) (λ p. ground arith)

pub customer_at-internal : (id : String) (t : Tables) → is_http (customer_at id t) ≡ false
customer_at-internal id t =
    and_then-internal (build customer_of (find_customer id t)) _
      (build-internal customer_of customer_of-internal (find_customer id t)) (λ o. ground arith)

pub invoice_at-internal :
    (id : String) (env : Env) (t : Tables) → is_http (invoice_at id env t) ≡ false
invoice_at-internal id env t =
    let o = env.newest (keep (is_finalized_for id) t.invoices) in
    and_then-internal (build invoice_of o) _ (build-internal invoice_of invoice_of-internal o)
      (λ o. ground arith)

pub contract_at-internal :
    (id : String) (at : ℕ) (t : Tables) → is_http (contract_at id at t) ≡ false
contract_at-internal id at t =
    let o = sole (valid_contracts id at t) in
    and_then-internal (build contract_of o) _ (build-internal contract_of contract_of-internal o)
      (λ o. ground arith)
