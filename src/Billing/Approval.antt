-- ===== src/Billing/Approval.antt =====
-- `BillingService.process_approval`: an approver's decision on a pending request.
use agentic_ai.Base.{ℕ, String, not, Option, [], ◌∷◌, ltb, ◌==◌, if◌then◌else◌}
use agentic_ai.Domain.Status.{ApprovalStatus, approval_status_value}
use agentic_ai.Domain.Errors.{validation, not_found, conflict}
use agentic_ai.Store.{update_approval}
use agentic_ai.World.{
  assign, Action, pure, raise, ◌>>=◌, ◌>>◌, now, assign, record_approval_completed,
}
use agentic_ai.Repository.{
  set_approval_decision, add_audit_event, upsert_workflow_state, Composite,
  get_workflow_by_approval,
}
use agentic_ai.Billing.Client.{BillingMcpClient}
use agentic_ai.Billing.Service.{ApprovalDecisionResult, require, raise_if, create_credit_if_allowed}

abbrev pub decision_result : String → Composite → ApprovalDecisionResult
decision_result outcome (approval, workflow) = record {
  workflow_id = workflow.workflow_id;
  request_id = workflow.request_id;
  outcome = outcome;
  customer_id = approval.customer_id;
  amount = approval.amount;
}

-- `if expires_at < datetime.now(UTC)`: the attribute that is set is flushed with
-- the workflow's row.
unfoldable pub expire : String → Composite → Action ApprovalDecisionResult
expire approval_id (approval, workflow) = do
  assign (
      update_approval approval_id
        (λ r. record r { status = approval_status_value ApprovalStatus.expired }))
  upsert_workflow_state workflow.workflow_id workflow.request_id "FAILED"
      (("approval_id", approval_id) ∷ ("reason", "expired") ∷ [])
  raise (validation "Approval expired")

-- `if decision == "approve"`
unfoldable pub approve :
    Option BillingMcpClient → String → String → Composite → Action ApprovalDecisionResult
approve client approval_id approver_id (approval, workflow) = do
  set_approval_decision approval_id ApprovalStatus.approved approver_id
  credit_id ←
      create_credit_if_allowed client workflow.request_id approval.customer_id approval.invoice_id
        approval.amount approval.currency
  add_audit_event workflow.request_id workflow.workflow_id "APPROVAL_GRANTED" approver_id
      "approval_endpoint" (("approval_id", approval_id) ∷ [])
  add_audit_event workflow.request_id workflow.workflow_id "CREDIT_CREATED" "system"
      "billing_service" (("credit_id", credit_id) ∷ ("approval_id", approval_id) ∷ [])
  upsert_workflow_state workflow.workflow_id workflow.request_id "COMPLETED"
      (("approval_id", approval_id) ∷ ("credit_id", credit_id) ∷ ("outcome", "approved") ∷ [])
  record_approval_completed "approved"
  pure (decision_result "approved" (approval, workflow))

-- Any other decision.
unfoldable pub reject : String → String → Composite → Action ApprovalDecisionResult
reject approval_id approver_id (approval, workflow) = do
  set_approval_decision approval_id ApprovalStatus.rejected approver_id
  add_audit_event workflow.request_id workflow.workflow_id "APPROVAL_REJECTED" approver_id
      "approval_endpoint" (("approval_id", approval_id) ∷ [])
  upsert_workflow_state workflow.workflow_id workflow.request_id "COMPLETED"
      (("approval_id", approval_id) ∷ ("outcome", "rejected") ∷ [])
  record_approval_completed "rejected"
  pure (decision_result "rejected" (approval, workflow))

-- The three ways on, once the request is known to be pending at the instant `at`.
unfoldable pub decide :
    Option BillingMcpClient
    → String
    → String
    → String
    → Composite
    → ℕ
    → Action ApprovalDecisionResult
decide client approval_id decision approver_id composite at =
    if ltb composite.0.expires_at at
    then expire approval_id composite
    else if decision == "approve"
    then approve client approval_id approver_id composite
    else reject approval_id approver_id composite

unfoldable pub process_approval :
    Option BillingMcpClient → String → String → String → Action ApprovalDecisionResult
process_approval client approval_id decision approver_id = do
  found ← get_workflow_by_approval approval_id
  composite ← require found (not_found "Approval request not found")
  raise_if (not (composite.0.status == approval_status_value ApprovalStatus.pending))
      (conflict "Approval already completed")
  at ← now
  decide client approval_id decision approver_id composite at
