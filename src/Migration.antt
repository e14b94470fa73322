-- ===== src/Migration.antt =====
-- alembic/versions/20260923_0001_initial_schema.py: the operations of the migration, in their order.
-- The database that carries them out is an argument of what is proved about them.
pub mod Undo
use agentic_ai.Base.{ℕ, String, Bool, true, false, Option, none, some, List, [], ◌∷◌, ◌++◌}

pub data ColumnType : Type 0 where
  string : Option ℕ → ColumnType
  numeric : ℕ → ℕ → ColumnType
  date_time : ColumnType
  long_text : ColumnType

pub record Column : Type 0 where
  pub name : String
  pub type : ColumnType
  pub nullable : Bool

pub data Constraint : Type 0 where
  primary_key : String → Constraint
  -- a column, and the table and the column that it refers to
  foreign_key : String → String → String → Constraint
  unique : String → Option String → Constraint

-- The calls of `alembic.op`.
pub data Operation : Type 0 where
  create_table : String → List Column → List Constraint → Operation
  create_index : String → String → String → Operation
  drop_index : String → String → Operation
  drop_table : String → Operation

-- `sa.Column(name, type, nullable=False)`
abbrev required : String → ColumnType → Column
required name type = record { name = name; type = type; nullable = false }

abbrev optional : String → ColumnType → Column
optional name type = record { name = name; type = type; nullable = true }

-- `sa.String(length=n)`
abbrev sized : ℕ → ColumnType
sized n = string (some n)

abbrev money_type : ColumnType
money_type = numeric 12 2

abbrev customer_key : Constraint
customer_key = foreign_key "customer_id" "customers" "id"

abbrev invoice_key : Constraint
invoice_key = foreign_key "invoice_id" "invoices" "id"

abbrev pub customers : Operation
customers =
    create_table "customers"
      (required "id" (sized 32) ∷ required "email" (sized 255) ∷ required "status" (sized 24) ∷ [])
      (primary_key "id" ∷ [])

abbrev pub contracts : Operation
contracts =
    create_table "contracts"
      (required "id" (sized 32)
        ∷ required "customer_id" (string none)
        ∷ required "monthly_price_amount" money_type
        ∷ required "monthly_price_currency" (sized 3)
        ∷ required "effective_from" date_time
        ∷ optional "effective_to" date_time
        ∷ required "status" (sized 24)
        ∷ [])
      (customer_key ∷ primary_key "id" ∷ [])

abbrev pub invoices : Operation
invoices =
    create_table "invoices"
      (required "id" (sized 32)
        ∷ required "customer_id" (string none)
        ∷ required "billing_period" (sized 16)
        ∷ required "issued_at" date_time
        ∷ required "total_amount" money_type
        ∷ required "total_currency" (sized 3)
        ∷ required "status" (sized 24)
        ∷ [])
      (customer_key ∷ primary_key "id" ∷ [])

abbrev pub credits : Operation
credits =
    create_table "credits"
      (required "id" (sized 36)
        ∷ required "request_id" (sized 64)
        ∷ required "customer_id" (string none)
        ∷ required "invoice_id" (string none)
        ∷ required "amount" money_type
        ∷ required "currency" (sized 3)
        ∷ required "reason" long_text
        ∷ required "created_at" date_time
        ∷ [])
      (customer_key
        ∷ invoice_key
        ∷ primary_key "id"
        ∷ unique "request_id" (some "uq_credits_request_id")
        ∷ [])

abbrev pub approval_requests : Operation
approval_requests =
    create_table "approval_requests"
      (required "id" (sized 36)
        ∷ required "request_id" (sized 64)
        ∷ required "workflow_id" (sized 64)
        ∷ required "customer_id" (string none)
        ∷ required "invoice_id" (string none)
        ∷ required "amount" money_type
        ∷ required "currency" (sized 3)
        ∷ required "status" (sized 24)
        ∷ required "created_at" date_time
        ∷ required "expires_at" date_time
        ∷ optional "approved_by" (sized 128)
        ∷ optional "approved_at" date_time
        ∷ [])
      (customer_key ∷ invoice_key ∷ primary_key "id" ∷ [])

abbrev pub audit_events : Operation
audit_events =
    create_table "audit_events"
      (required "id" (sized 36)
        ∷ required "request_id" (sized 64)
        ∷ required "workflow_id" (sized 64)
        ∷ required "event_type" (sized 64)
        ∷ required "actor" (sized 128)
        ∷ required "source" (sized 64)
        ∷ required "metadata_json" long_text
        ∷ required "created_at" date_time
        ∷ [])
      (primary_key "id" ∷ [])

abbrev pub workflow_runs : Operation
workflow_runs =
    create_table "workflow_runs"
      (required "workflow_id" (sized 64)
        ∷ required "request_id" (sized 64)
        ∷ required "status" (sized 24)
        ∷ required "state_json" long_text
        ∷ required "created_at" date_time
        ∷ required "updated_at" date_time
        ∷ [])
      (primary_key "workflow_id" ∷ unique "request_id" none ∷ [])

abbrev pub idempotency_keys : Operation
idempotency_keys =
    create_table "idempotency_keys"
      (required "key" (sized 128)
        ∷ required "request_id" (sized 64)
        ∷ required "created_at" date_time
        ∷ [])
      (primary_key "key" ∷ [])

unfoldable pub upgrade : List Operation
upgrade =
    customers
    ∷ contracts
    ∷ invoices
    ∷ credits
    ∷ approval_requests
    ∷ audit_events
    ∷ workflow_runs
    ∷ idempotency_keys
    ∷ create_index "ix_invoices_customer_id" "invoices" "customer_id"
    ∷ create_index "ix_contracts_customer_id" "contracts" "customer_id"
    ∷ create_index "ix_approval_request_status" "approval_requests" "status"
    ∷ create_index "ix_workflow_request_id" "workflow_runs" "request_id"
    ∷ []

unfoldable pub downgrade : List Operation
downgrade =
    drop_index "ix_workflow_request_id" "workflow_runs"
    ∷ drop_index "ix_approval_request_status" "approval_requests"
    ∷ drop_index "ix_contracts_customer_id" "contracts"
    ∷ drop_index "ix_invoices_customer_id" "invoices"
    ∷ drop_table "idempotency_keys"
    ∷ drop_table "workflow_runs"
    ∷ drop_table "audit_events"
    ∷ drop_table "approval_requests"
    ∷ drop_table "credits"
    ∷ drop_table "invoices"
    ∷ drop_table "contracts"
    ∷ drop_table "customers"
    ∷ []
