-- ===== src/LocalClient/Looks.antt =====
-- What the reading tools and the repository find: the same function of the rows that they see.
use agentic_ai.Base.{ℕ, String, ◌≡◌, refl, true, Option, none, some, arith, subst}
use agentic_ai.Base.Lists.{keep}
use agentic_ai.Domain.Errors.{
  not_found, validation, Result, ok, err, Error, or_err, and_then, ok_inj,
}
use agentic_ai.Domain.Models.{is_customer_id, Customer, Contract, Invoice}
use agentic_ai.Store.{Tables, find_customer}
use agentic_ai.World.{Env, World, rows, pure, lift, query, ◌>>=◌, with_session}
use agentic_ai.Repository.{
  build, sole, valid_contracts, is_finalized_for, customer_of, contract_of, invoice_of,
  get_customer, get_latest_finalized_invoice, get_contract_for_period,
}
use agentic_ai.Billing.{require}
use agentic_ai.McpServer.{get_customer_tool, get_contract_tool, get_invoice_tool, look_up_at}
use agentic_ai.Wire.RoundTrip.{IsMoney}
use agentic_ai.Wire.Valid.{customer_of-IsId, contract_of-IsMoney, invoice_of-IsMoney}

abbrev pub customer_at : String → Tables → Result Customer
customer_at id t =
    and_then (build customer_of (find_customer id t)) λ o. or_err o (not_found "Customer not found")

abbrev pub invoice_at : String → Env → Tables → Result Invoice
invoice_at id env t =
    and_then (build invoice_of (env.newest (keep (is_finalized_for id) t.invoices)))
      λ o. or_err o (not_found "Finalized invoice not found")

abbrev pub contract_at : String → ℕ → Tables → Result Contract
contract_at id at t =
    and_then (build contract_of (sole (valid_contracts id at t)))
      λ o. or_err o (validation "No unique active contract found for invoice period")

pub get_customer-at :
    (id : String) (env : Env) (w : World)
    → (get_customer id >>= λ o. require o (not_found "Customer not found")) env w
      ≡ (customer_at id (rows w), w)
unfolding get_customer lift query ◌>>=◌
get_customer-at id env w = ground arith

pub get_invoice-at :
    (id : String) (env : Env) (w : World)
    → (get_latest_finalized_invoice id >>= λ o. require o (not_found "Finalized invoice not found"))
        env w
      ≡ (invoice_at id env (rows w), w)
unfolding get_latest_finalized_invoice lift query ◌>>=◌
get_invoice-at id env w = ground arith

pub get_contract-at :
    (id : String) (at : ℕ) (env : Env) (w : World)
    → (get_contract_for_period id at >>= λ o.
          require o (validation "No unique active contract found for invoice period"))
        env w
      ≡ (contract_at id at (rows w), w)
unfolding get_contract_for_period lift query ◌>>=◌
get_contract-at id at env w = ground arith

-- A tool sees what is committed.
pub get_customer_tool-at :
    (id : String) (env : Env) (w : World)
    → get_customer_tool id env w ≡ (customer_at id w.stored, w)
unfolding get_customer_tool get_customer with_session lift query ◌>>=◌
get_customer_tool-at id env w = ground arith

pub get_invoice_tool-at :
    (id : String) (env : Env) (w : World)
    → get_invoice_tool id env w ≡ (invoice_at id env w.stored, w)
unfolding get_invoice_tool get_latest_finalized_invoice with_session lift query ◌>>=◌
get_invoice_tool-at id env w = ground arith

pub get_contract_tool-at :
    (id : String) (at : ℕ) (env : Env) (w : World)
    → get_contract_tool id (some at) env w ≡ (contract_at id at w.stored, w)
unfolding get_contract_tool look_up_at get_contract_for_period with_session pure lift query ◌>>=◌
get_contract_tool-at id at env w = ground arith

module _ {A : Type 0} (P : A → Type 0) (e : Error) (a : A) where
  found :
      (r : Result A)
      → ((b : A) → r ≡ ok b → P b)
      → and_then (and_then r (λ b. ok (some b))) (λ o. or_err o e) ≡ ok a
      → P a
  found (ok b) valid h = subst P (ok_inj h) (valid b refl)
  found (err x) valid h = cc

  -- What every value built from a row has, the value that is found has.
  built :
      {R : Type 0} (f : R → Result A) (o : Option R)
      → ((row : R) (b : A) → f row ≡ ok b → P b)
      → and_then (build f o) (λ o. or_err o e) ≡ ok a
      → P a
  built f none valid h = cc
  built f (some row) valid h = found (f row) (valid row) h

pub customer_at-IsId :
    (id : String) (t : Tables) (c : Customer) → customer_at id t ≡ ok c → is_customer_id c.id ≡ true
customer_at-IsId id t c =
    built (λ c. is_customer_id c.id ≡ true) _ c customer_of (find_customer id t) customer_of-IsId

pub invoice_at-IsMoney :
    (id : String) (env : Env) (t : Tables) (i : Invoice)
    → invoice_at id env t ≡ ok i
    → IsMoney i.total
invoice_at-IsMoney id env t i =
    built (λ i. IsMoney i.total) _ i invoice_of (env.newest (keep (is_finalized_for id) t.invoices))
      invoice_of-IsMoney

pub contract_at-IsMoney :
    (id : String) (at : ℕ) (t : Tables) (k : Contract)
    → contract_at id at t ≡ ok k
    → IsMoney k.monthly_price
contract_at-IsMoney id at t k =
    built (λ k. IsMoney k.monthly_price) _ k contract_of (sole (valid_contracts id at t))
      contract_of-IsMoney
