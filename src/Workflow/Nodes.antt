-- ===== src/Workflow/Nodes.antt =====
-- src/agent/graph.py and src/agent/nodes/understand_request.py.
use agentic_ai.Base.{String, Option, none, some, [], ◌∷◌, ◌==◌, if◌then◌else◌}
use agentic_ai.Base.Text.{◌+s+◌, show_amount}
use agentic_ai.Domain.Status.{BillingDecision, decision_value}
use agentic_ai.Domain.Errors.{missing_key, Result, ok, err}
use agentic_ai.World.{
  Action, pure, raise, ◌>>=◌, ◌>>◌, uuid4, commit, send_notification, record_workflow_result,
}
use agentic_ai.Repository.{upsert_workflow_state}
use agentic_ai.Billing.{
  BillingMcpClient, require, analyze_customer_billing, create_credit_if_allowed,
  create_approval_request,
}
use agentic_ai.Workflow.State.{BillingAgentState, initial_state, ParsedBillingRequest, LlmClient}

abbrev pub understood_message : ParsedBillingRequest → String
understood_message p = with_amounts p.claimed_amount p.expected_amount
  where
    with_amounts : Option String → Option String → String
    with_amounts (some claimed) (some expected) =
        "Billing request understood. " +s+ "Claimed amount is " +s+ claimed +s+ " "
        +s+ "and expected amount is " +s+ expected +s+ "."
    with_amounts _ _ = "Billing request understood. "

unfoldable pub understand_request : LlmClient → BillingAgentState → Action BillingAgentState
understand_request llm state = do
  parsed ← llm.parse_request state.user_message
  pure (record state { response_message = some (understood_message parsed) })

unfoldable pub evaluate : Option BillingMcpClient → BillingAgentState → Action BillingAgentState
evaluate client state = do
  (calc, invoice_id, currency) ←
      analyze_customer_billing client state.request_id state.workflow_id state.customer_id
  upsert_workflow_state state.workflow_id state.request_id "EVALUATED" (
      ("decision", decision_value calc.decision)
      ∷ ("invoice_id", invoice_id)
      ∷ ("currency", currency)
      ∷ [])
  commit
  pure (record state {
    discrepancy = some calc.discrepancy;
    decision = some calc.decision;
    decision_reason = some calc.reason;
    invoice_id = some invoice_id;
    currency = some currency;
  })

-- `state[key]`
abbrev pub item {ℓ} : {A : Type ℓ} → String → Option A → Action A
item key o = require o (missing_key key)

unfoldable pub credit_effects :
    Option BillingMcpClient → BillingAgentState → Action BillingAgentState
credit_effects client state = do
  invoice_id ← item "invoice_id" state.invoice_id
  discrepancy ← item "discrepancy" state.discrepancy
  currency ← item "currency" state.currency
  credit_id ←
      create_credit_if_allowed client state.request_id state.customer_id invoice_id discrepancy
        currency
  upsert_workflow_state state.workflow_id state.request_id "COMPLETED"
      (("credit_id", credit_id) ∷ [])
  send_notification state.customer_id
      ("A credit of " +s+ show_amount discrepancy +s+ " has been issued.")
  commit
  pure (record state {
    status = some "completed";
    credit_id = some credit_id;
    response_message = some ("We issued a credit of " +s+ show_amount discrepancy +s+ ".");
  })

unfoldable pub approval_effects :
    Option BillingMcpClient → BillingAgentState → Action BillingAgentState
approval_effects client state = do
  invoice_id ← item "invoice_id" state.invoice_id
  discrepancy ← item "discrepancy" state.discrepancy
  currency ← item "currency" state.currency
  approval_id ←
      create_approval_request client state.request_id state.workflow_id state.customer_id invoice_id
        discrepancy currency
  upsert_workflow_state state.workflow_id state.request_id "WAITING_APPROVAL"
      (("approval_id", approval_id) ∷ [])
  commit
  pure (record state {
    status = some "waiting_approval";
    approval_request_id = some approval_id;
    response_message = some "Discrepancy requires human approval.";
  })

unfoldable pub review_effects : BillingDecision → BillingAgentState → Action BillingAgentState
review_effects decision state = do
  upsert_workflow_state state.workflow_id state.request_id "COMPLETED"
      (("decision", decision_value decision) ∷ [])
  commit
  reason ← item "decision_reason" state.decision_reason
  pure (record state {
    status = some "completed";
    response_message = some ("Request reviewed: " +s+ reason);
  })

-- The branch that `side_effects` takes on a decision.
unfoldable pub effects_of :
    Option BillingMcpClient → BillingAgentState → BillingDecision → Action BillingAgentState
effects_of client state BillingDecision.auto_credit = credit_effects client state
effects_of client state BillingDecision.human_approval = approval_effects client state
effects_of client state BillingDecision.no_action = review_effects BillingDecision.no_action state
effects_of client state BillingDecision.manual_investigation =
    review_effects BillingDecision.manual_investigation state

unfoldable pub side_effects : Option BillingMcpClient → BillingAgentState → Action BillingAgentState
side_effects client state = do
  decision ← item "decision" state.decision
  effects_of client state decision

-- The graph: its edges lead through the three nodes in this order.
unfoldable pub invoke :
    Option BillingMcpClient → LlmClient → BillingAgentState → Action BillingAgentState
invoke client llm state = do
  understood ← understand_request llm state
  evaluated ← evaluate client understood
  side_effects client evaluated

-- `result.get("status", "completed")`
abbrev pub get_or : Option String → String → String
get_or none d = d
get_or (some s) d = s

-- `try … except Exception: record_workflow_result("failed"); raise`
abbrev pub conclude : Result BillingAgentState → Action BillingAgentState
conclude (ok result) = do record_workflow_result (get_or result.status "completed"); pure result
conclude (err e) = do record_workflow_result "failed"; raise e

abbrev pub recorded : Action BillingAgentState → Action BillingAgentState
recorded m env w = let (r, w') = m env w in conclude r env w'

-- `request_id or str(uuid4())`: no text and an empty text both ask for a new identifier.
unfoldable pub given_or_new : Option String → Action String
given_or_new none = uuid4
given_or_new (some request_id) = if request_id == "" then uuid4 else pure request_id

unfoldable pub run :
    Option BillingMcpClient → LlmClient → String → String → Option String → Action BillingAgentState
run client llm message customer_id request_id = do
  workflow_id ← uuid4
  id ← given_or_new request_id
  recorded (invoke client llm (initial_state id workflow_id message customer_id))
