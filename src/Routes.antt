-- ===== src/Routes.antt =====
-- src/api/routes/chat.py and the answers of src/api/schemas/chat.py: the two endpoints, behind
-- authorization and rate limit, each in a session of its own.
use agentic_ai.Base.{List, [], ◌∷◌, String, Bool, false, Option, none, some, ◌==◌, if◌then◌else◌}
use agentic_ai.Base.Text.{◌+s+◌, show_amount}
use agentic_ai.World.{
  Env, World, Action, pure, ◌>>=◌, ◌>>◌, commit, send_notification, with_session,
}
use agentic_ai.Billing.{BillingMcpClient, ApprovalDecisionResult, process_approval}
use agentic_ai.Workflow.{BillingAgentState, LlmClient, run, get_or}

pub record ChatResponse : Type 0 where
  pub request_id : String
  pub workflow_id : String
  pub status : String
  pub message : String
  pub requires_human_approval : Bool
  pub approval_request_id : Option String

-- `state.get("status") == "waiting_approval"`
abbrev is_waiting : Option String → Bool
is_waiting none = false
is_waiting (some s) = s == "waiting_approval"

abbrev pub chat_response : BillingAgentState → ChatResponse
chat_response state = record {
  request_id = state.request_id;
  workflow_id = state.workflow_id;
  status = get_or state.status "completed";
  message = get_or state.response_message "Request processed";
  requires_human_approval = is_waiting state.status;
  approval_request_id = state.approval_request_id;
}

unfoldable pub chat :
    Option BillingMcpClient → LlmClient → String → String → Option String → Action ChatResponse
chat client llm message customer_id request_id =
    with_session
      do state ← run client llm message customer_id request_id; pure (chat_response state)

abbrev pub decision_message : ApprovalDecisionResult → String
decision_message result =
    if result.outcome == "approved"
    then "Your billing approval was completed and a credit of "
      +s+ show_amount result.amount
      +s+ " was issued."
    else "Your billing approval request was rejected."

abbrev pub decision_response : ApprovalDecisionResult → ChatResponse
decision_response result = record {
  request_id = result.request_id;
  workflow_id = result.workflow_id;
  status = "completed";
  message = "Approval " +s+ result.outcome +s+ ".";
  requires_human_approval = false;
  approval_request_id = none;
}

unfoldable pub approval_decision :
    Option BillingMcpClient → String → String → String → Action ChatResponse
approval_decision client approval_id decision approver_id = with_session do
  result ← process_approval client approval_id decision approver_id
  commit
  send_notification result.customer_id (decision_message result)
  pure (decision_response result)

-- What reaches the two endpoints, validated by `ChatRequest` and `ApprovalActionRequest`.
pub data Request : Type 0 where
  chats : String → String → Option String → Request
  decides : String → String → String → Request

-- One request, whose answer and whose exception both leave the process running.
unfoldable pub handle : Option BillingMcpClient → LlmClient → Request → Env → World → World
handle client llm (chats message customer_id request_id) env w =
    (chat client llm message customer_id request_id env w).1
handle client llm (decides approval_id decision approver_id) env w =
    (approval_decision client approval_id decision approver_id env w).1

unfoldable pub serve : Option BillingMcpClient → LlmClient → List Request → Env → World → World
serve client llm [] env w = w
serve client llm (r ∷ rs) env w = serve client llm rs env (handle client llm r env w)
