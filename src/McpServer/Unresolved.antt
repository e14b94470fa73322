-- ===== src/McpServer/Unresolved.antt =====
-- What becomes of an approval that the tool server requests.
use agentic_ai.Base.{
  Option-cases, inl, inr, ap, ◌∙◌, sym, suc, ◌+◌, String, ◌≡◌, Option, none, some, arith, ◌==◌,
  eq_iff,
}
use agentic_ai.Base.Int.{ℤ}
use agentic_ai.Base.Lists.{first-snoc}
use agentic_ai.Base.Text.{◌+s+◌, decimal}
use agentic_ai.Domain.Errors.{not_found, Result, ok, err}
use agentic_ai.Store.{find_approval, find_workflow, ApprovalRow}
use agentic_ai.World.{Env, World, ◌>>=◌, now, uuid4, flush, commit, with_session}
use agentic_ai.Repository.{get_workflow_by_approval, create_approval, add_approval}
use agentic_ai.Billing.{BillingMcpClient, process_approval, settings, approval_lifetime}
use agentic_ai.Routes.{approval_decision}
use agentic_ai.McpServer.{ApprovalResult, request_approval_tool}

-- The workflow that a request for approval which is drawn next is told to belong to.
abbrev pub told_workflow : Env → World → String
told_workflow env w = "mcp-" +s+ env.uuid (suc w.draws)

module _ (client : Option BillingMcpClient) (d by : String) (env : Env) where
  -- A request whose workflow has no row is not found.
  decision_orphan :
      (k : String) (w : World) (a : ApprovalRow)
      → find_approval k w.stored ≡ some a
      → find_workflow a.workflow_id w.stored ≡ none
      → (approval_decision client k d by env w).0 ≡ err (not_found "Approval request not found")
  unfolding approval_decision process_approval get_workflow_by_approval with_session ◌>>=◌
  decision_orphan k w a ea ev = ground arith

-- The row that the tool writes.
abbrev told_row : String → String → ℤ → Env → World → ApprovalRow
told_row customer_id invoice_id amount env w = record {
  id = env.uuid (suc (suc (suc (suc w.draws))));
  request_id = "mcp-" +s+ env.uuid w.draws;
  workflow_id = told_workflow env w;
  customer_id = customer_id;
  invoice_id = invoice_id;
  amount = amount;
  currency = env.settings.supported_currency;
  status = "PENDING";
  created_at = env.now (suc (suc (suc w.draws)));
  expires_at = env.now (suc (suc w.draws)) + approval_lifetime;
  approved_by = none;
  approved_at = none;
}

module _ (customer_id invoice_id amount : String) (env : Env) (w : World) where
  abbrev answered : Result ApprovalResult × World
  answered = request_approval_tool customer_id invoice_id amount env w

  -- An amount that is no decimal is not answered.
  request_approval_amount :
      (r : ApprovalResult) → answered.0 ≡ ok r → (value : ℤ) × (decimal amount ≡ some value)
  unfolding request_approval_tool with_session ◌>>=◌
  request_approval_amount r h = elim (Option-cases (decimal amount)) [
    | inl e ↦ absurd (ground (arith, e, h))
    | inr (value, e) ↦ (value, e)
  ]

  request_approval-stores :
      (value : ℤ) (r : ApprovalResult)
      → decimal amount ≡ some value
      → answered.0 ≡ ok r
      → (r.approval_id ≡ (told_row customer_id invoice_id value env w).id)
        × (answered.1.stored ≡ add_approval (told_row customer_id invoice_id value env w) w.stored)
  unfolding request_approval_tool settings create_approval flush commit with_session now uuid4 ◌>>=◌
  request_approval-stores value r e h = ground (arith, e)

-- An approval that the tool server has requested, under identifiers that no row has yet, is not found
-- when an approver decides on it right afterwards: the code writes no row for its workflow.
pub request_approval-IsUnresolved :
    (customer_id invoice_id amount : String) (env : Env) (w : World) (r : ApprovalResult)
    (client : Option BillingMcpClient) (d by : String)
    → find_approval r.approval_id w.stored ≡ none
    → find_workflow (told_workflow env w) w.stored ≡ none
    → (request_approval_tool customer_id invoice_id amount env w).0 ≡ ok r
    → (approval_decision client r.approval_id d by env
        (request_approval_tool customer_id invoice_id amount env w).1).0
      ≡ err (not_found "Approval request not found")
request_approval-IsUnresolved customer_id invoice_id amount env w r client d by fresh unknown h =
    let (value, e) = request_approval_amount customer_id invoice_id amount env w r h in
    let (same, stores) = request_approval-stores customer_id invoice_id amount env w value r e h in
    let t = told_row customer_id invoice_id value env w in
    let found =
      first-snoc (λ x. x.id == r.approval_id) w.stored.approvals t fresh
        ((eq_iff t.id r.approval_id).1 (sym same)) in
    decision_orphan client d by env r.approval_id
      (request_approval_tool customer_id invoice_id amount env w).1 t
      (ap (find_approval r.approval_id) stores ∙ found)
      (ap (find_workflow t.workflow_id) stores ∙ unknown)
