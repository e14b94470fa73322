-- ===== src/Repository/Reads.antt =====
-- billing_repository.py, the methods that read. A row is validated on its way out.
use agentic_ai.Base.{
  ℕ, String, Bool, true, ◌&&◌, Option, none, some, List, [], ◌∷◌, leb, ◌==◌, if◌then◌else◌,
}
use agentic_ai.Base.Lists.{keep}
use agentic_ai.Domain.Status.{
  ContractStatus, InvoiceStatus, contract_status_value, invoice_status_value, parse_customer_status,
  parse_contract_status, parse_invoice_status,
}
use agentic_ai.Domain.Errors.{bad_value, Result, ok, err, or_err, and_then}
use agentic_ai.Domain.Models.{money, is_customer_id, Customer, Contract, Invoice}
use agentic_ai.Store.{
  CustomerRow, ContractRow, InvoiceRow, ApprovalRow, WorkflowRunRow, Tables, find_customer,
  find_approval, find_workflow,
}
use agentic_ai.World.{Action, pure, lift, query, ◌>>=◌}

infixl 10 ◌&>=◌
abbrev pub ◌&>=◌ {ℓ κ} : {A : Type ℓ} {B : Type κ} → Result A → (A → Result B) → Result B
r &>= f = and_then r f

unfoldable pub customer_of : CustomerRow → Result Customer
customer_of row =
    or_err (parse_customer_status row.status) (bad_value "CustomerStatus") &>= λ status.
    if is_customer_id row.id
    then ok (record { id = row.id; email = row.email; status = status })
    else err (bad_value "Customer")

unfoldable pub contract_of : ContractRow → Result Contract
contract_of row = money row.monthly_price_amount row.monthly_price_currency &>= λ price.
    or_err (parse_contract_status row.status) (bad_value "ContractStatus") &>= λ status.
    ok (record {
      id = row.id;
      customer_id = row.customer_id;
      monthly_price = price;
      effective_from = row.effective_from;
      effective_to = row.effective_to;
      status = status;
    })

unfoldable pub invoice_of : InvoiceRow → Result Invoice
invoice_of row = money row.total_amount row.total_currency &>= λ total.
    or_err (parse_invoice_status row.status) (bad_value "InvoiceStatus") &>= λ status. ok (record {
      id = row.id;
      customer_id = row.customer_id;
      billing_period = row.billing_period;
      issued_at = row.issued_at;
      total = total;
      status = status;
    })

-- `if not row: return None`, and the value that is built from the row.
abbrev pub build {ℓ κ} : {A : Type ℓ} {B : Type κ} → (A → Result B) → Option A → Result (Option B)
build f none = ok none
build f (some row) = f row &>= λ b. ok (some b)

unfoldable pub get_customer : String → Action (Option Customer)
unfolding customer_of
get_customer customer_id = do
  row ← query (λ env t. find_customer customer_id t)
  lift (build customer_of row)

-- The query of `get_contract_for_period`.
abbrev pub is_candidate : String → ℕ → ContractRow → Bool
is_candidate customer_id at row =
    (row.customer_id == customer_id)
    && (row.status == contract_status_value ContractStatus.active)
    && leb row.effective_from at

-- `row.effective_to is None or row.effective_to >= at`
abbrev pub is_open_at : ℕ → Option ℕ → Bool
is_open_at at none = true
is_open_at at (some end) = leb at end

abbrev pub valid_contracts : String → ℕ → Tables → List ContractRow
valid_contracts customer_id at t =
    keep (λ row. is_open_at at row.effective_to) (keep (is_candidate customer_id at) t.contracts)

-- `if len(valid) != 1: return None`, and `valid[0]`.
abbrev pub sole {ℓ} : {A : Type ℓ} → List A → Option A
sole [] = none
sole (x ∷ []) = some x
sole (x ∷ y ∷ r) = none

unfoldable pub get_contract_for_period : String → ℕ → Action (Option Contract)
unfolding contract_of
get_contract_for_period customer_id at = do
  valid ← query (λ env t. valid_contracts customer_id at t)
  lift (build contract_of (sole valid))

abbrev pub is_finalized_for : String → InvoiceRow → Bool
is_finalized_for customer_id row =
    (row.customer_id == customer_id) && (row.status == invoice_status_value InvoiceStatus.finalized)

unfoldable pub get_latest_finalized_invoice : String → Action (Option Invoice)
unfolding invoice_of
get_latest_finalized_invoice customer_id = do
  row ← query (λ env t. env.newest (keep (is_finalized_for customer_id) t.invoices))
  lift (build invoice_of row)

unfoldable pub get_approval : String → Action (Option ApprovalRow)
get_approval approval_id = query (λ env t. find_approval approval_id t)

abbrev pub Composite : Type 0
Composite = ApprovalRow × WorkflowRunRow

unfoldable pub with_workflow : Option ApprovalRow → Action (Option Composite)
with_workflow none = pure none
with_workflow (some approval) = query λ env t. elim (find_workflow approval.workflow_id t) [
  | none ↦ none
  | some workflow ↦ some (approval, workflow)
]

unfoldable pub get_workflow_by_approval : String → Action (Option Composite)
unfolding with_workflow
get_workflow_by_approval approval_id = do
  approval ← query (λ env t. find_approval approval_id t)
  with_workflow approval
