-- ===== src/Workflow/State.antt =====
-- src/agent/state.py: `BillingAgentState`. A key that a node has not set yet is `none`; the session
-- is the world's.
use agentic_ai.Base.{String, Option, none}
use agentic_ai.Base.Int.{ℤ}
use agentic_ai.Domain.Status.{BillingDecision}
use agentic_ai.World.{Action}

pub record BillingAgentState : Type 0 where
  pub request_id : String
  pub workflow_id : String
  pub user_message : String
  pub customer_id : String
  pub invoice_id : Option String
  pub currency : Option String
  pub discrepancy : Option ℤ
  pub decision : Option BillingDecision
  pub decision_reason : Option String
  pub status : Option String
  pub approval_request_id : Option String
  pub credit_id : Option String
  pub response_message : Option String

-- The dictionary with which `run` begins.
abbrev pub initial_state : String → String → String → String → BillingAgentState
initial_state request_id workflow_id message customer_id = record {
  request_id = request_id;
  workflow_id = workflow_id;
  user_message = message;
  customer_id = customer_id;
  invoice_id = none;
  currency = none;
  discrepancy = none;
  decision = none;
  decision_reason = none;
  status = none;
  approval_request_id = none;
  credit_id = none;
  response_message = none;
}

-- `ParsedBillingRequest` of src/infrastructure/llm/client.py; an amount is its text.
pub record ParsedBillingRequest : Type 0 where
  pub claimed_amount : Option String
  pub expected_amount : Option String
  pub requested_action : String

-- What the workflow asks of `LLMClient`.
pub record LlmClient : Type 0 where
  pub parse_request : String → Action ParsedBillingRequest
