-- ===== src/Domain/Status.antt =====
-- src/domain/enums/billing_status.py: the status words, each with the text that a column holds.
use agentic_ai.Base.{◌≡◌, refl, String, Option, none, some, ◌==◌, if◌then◌else◌}

pub data CustomerStatus : Type 0 where
  active suspended closed : CustomerStatus

pub data ContractStatus : Type 0 where
  active cancelled expired : ContractStatus

pub data InvoiceStatus : Type 0 where
  draft finalized cancelled superseded : InvoiceStatus

pub data ApprovalStatus : Type 0 where
  pending approved rejected expired : ApprovalStatus

pub data BillingDecision : Type 0 where
  no_action auto_credit human_approval manual_investigation : BillingDecision

-- `.value` of a member, in a module for each enum; `parse` is the call `CustomerStatus(text)`.
abbrev pub customer_status_value : CustomerStatus → String
customer_status_value CustomerStatus.active = "ACTIVE"
customer_status_value CustomerStatus.suspended = "SUSPENDED"
customer_status_value CustomerStatus.closed = "CLOSED"

abbrev pub contract_status_value : ContractStatus → String
contract_status_value ContractStatus.active = "ACTIVE"
contract_status_value ContractStatus.cancelled = "CANCELLED"
contract_status_value ContractStatus.expired = "EXPIRED"

abbrev pub invoice_status_value : InvoiceStatus → String
invoice_status_value InvoiceStatus.draft = "DRAFT"
invoice_status_value InvoiceStatus.finalized = "FINALIZED"
invoice_status_value InvoiceStatus.cancelled = "CANCELLED"
invoice_status_value InvoiceStatus.superseded = "SUPERSEDED"

abbrev pub approval_status_value : ApprovalStatus → String
approval_status_value ApprovalStatus.pending = "PENDING"
approval_status_value ApprovalStatus.approved = "APPROVED"
approval_status_value ApprovalStatus.rejected = "REJECTED"
approval_status_value ApprovalStatus.expired = "EXPIRED"

abbrev pub decision_value : BillingDecision → String
decision_value BillingDecision.no_action = "NO_ACTION"
decision_value BillingDecision.auto_credit = "AUTO_CREDIT"
decision_value BillingDecision.human_approval = "HUMAN_APPROVAL"
decision_value BillingDecision.manual_investigation = "MANUAL_INVESTIGATION"

abbrev pub parse_customer_status : String → Option CustomerStatus
parse_customer_status s =
    if s == "ACTIVE"
    then some CustomerStatus.active
    else if s == "SUSPENDED"
    then some CustomerStatus.suspended
    else if s == "CLOSED"
    then some CustomerStatus.closed
    else none

abbrev pub parse_contract_status : String → Option ContractStatus
parse_contract_status s =
    if s == "ACTIVE"
    then some ContractStatus.active
    else if s == "CANCELLED"
    then some ContractStatus.cancelled
    else if s == "EXPIRED"
    then some ContractStatus.expired
    else none

abbrev pub parse_invoice_status : String → Option InvoiceStatus
parse_invoice_status s =
    if s == "DRAFT"
    then some InvoiceStatus.draft
    else if s == "FINALIZED"
    then some InvoiceStatus.finalized
    else if s == "CANCELLED"
    then some InvoiceStatus.cancelled
    else if s == "SUPERSEDED"
    then some InvoiceStatus.superseded
    else none

abbrev pub parse_approval_status : String → Option ApprovalStatus
parse_approval_status s =
    if s == "PENDING"
    then some ApprovalStatus.pending
    else if s == "APPROVED"
    then some ApprovalStatus.approved
    else if s == "REJECTED"
    then some ApprovalStatus.rejected
    else if s == "EXPIRED"
    then some ApprovalStatus.expired
    else none

pub parse-approval_status_value :
    (s : ApprovalStatus) → parse_approval_status (approval_status_value s) ≡ some s
parse-approval_status_value ApprovalStatus.pending = refl
parse-approval_status_value ApprovalStatus.approved = refl
parse-approval_status_value ApprovalStatus.rejected = refl
parse-approval_status_value ApprovalStatus.expired = refl
