-- ===== src/Store.antt =====
-- src/infrastructure/persistence/models.py: one record for each table, and the tables as lists of
-- rows, oldest first. Amounts are in cents (`Numeric(12, 2)`), times in microseconds; a JSON column
-- holds its object as a list of pairs.
use agentic_ai.Base.{ℕ, String, List, Option, ◌==◌}
use agentic_ai.Base.Int.{ℤ}
use agentic_ai.Base.Lists.{first, replace}

pub record CustomerRow : Type 0 where
  pub id : String
  pub email : String
  pub status : String

pub record ContractRow : Type 0 where
  pub id : String
  pub customer_id : String
  pub monthly_price_amount : ℤ
  pub monthly_price_currency : String
  pub effective_from : ℕ
  pub effective_to : Option ℕ
  pub status : String

pub record InvoiceRow : Type 0 where
  pub id : String
  pub customer_id : String
  pub billing_period : String
  pub issued_at : ℕ
  pub total_amount : ℤ
  pub total_currency : String
  pub status : String

pub record CreditRow : Type 0 where
  pub id : String
  pub request_id : String
  pub customer_id : String
  pub invoice_id : String
  pub amount : ℤ
  pub currency : String
  pub reason : String
  pub created_at : ℕ

pub record ApprovalRow : Type 0 where
  pub id : String
  pub request_id : String
  pub workflow_id : String
  pub customer_id : String
  pub invoice_id : String
  pub amount : ℤ
  pub currency : String
  pub status : String
  pub created_at : ℕ
  pub expires_at : ℕ
  pub approved_by : Option String
  pub approved_at : Option ℕ

-- The object whose text `json.dumps` puts in a JSON column.
abbrev pub Json : Type 0
Json = List (String × String)

pub record AuditEventRow : Type 0 where
  pub id : String
  pub request_id : String
  pub workflow_id : String
  pub event_type : String
  pub actor : String
  pub source : String
  pub metadata_json : Json
  pub created_at : ℕ

pub record WorkflowRunRow : Type 0 where
  pub workflow_id : String
  pub request_id : String
  pub status : String
  pub state_json : Json
  pub created_at : ℕ
  pub updated_at : ℕ

pub record IdempotencyKeyRow : Type 0 where
  pub key : String
  pub request_id : String
  pub created_at : ℕ

pub record Tables : Type 0 where
  pub customers : List CustomerRow
  pub contracts : List ContractRow
  pub invoices : List InvoiceRow
  pub credits : List CreditRow
  pub approvals : List ApprovalRow
  pub audit_events : List AuditEventRow
  pub workflow_runs : List WorkflowRunRow
  pub idempotency_keys : List IdempotencyKeyRow

-- The row with a given primary key.
abbrev pub find_customer : String → Tables → Option CustomerRow
find_customer k t = first (λ r. r.id == k) t.customers

abbrev pub find_approval : String → Tables → Option ApprovalRow
find_approval k t = first (λ r. r.id == k) t.approvals

abbrev pub find_workflow : String → Tables → Option WorkflowRunRow
find_workflow k t = first (λ r. r.workflow_id == k) t.workflow_runs

abbrev pub find_key : String → Tables → Option IdempotencyKeyRow
find_key k t = first (λ r. r.key == k) t.idempotency_keys

-- Attributes set on the object that a session holds for a primary key.
abbrev pub update_approval : String → (ApprovalRow → ApprovalRow) → Tables → Tables
update_approval k f t = record t { approvals = replace (λ r. r.id == k) f t.approvals }

abbrev pub update_workflow : String → (WorkflowRunRow → WorkflowRunRow) → Tables → Tables
update_workflow k f t = record t {
  workflow_runs = replace (λ r. r.workflow_id == k) f t.workflow_runs;
}
