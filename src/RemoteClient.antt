-- ===== src/RemoteClient.antt =====
-- `BillingMCPClient` of src/infrastructure/mcp/client.py in http mode, with the tool server of
-- mcp_server/http_api.py behind the network: a POST, or its response, can get lost. The server has the
-- program's database, and runs a tool as soon as it is asked.
pub mod Classification
pub mod Credited
pub mod Credits
pub mod Added
pub mod Decision
pub mod Internal
pub mod Reads
pub mod Facts
use agentic_ai.Base.{ℕ, zero, suc, ◌+◌, ◌-◌, String, Bool, Option, some, [], ◌∷◌}
use agentic_ai.Base.Int.{ℤ}
use agentic_ai.Base.Text.{show_amount}
use agentic_ai.Payload.{text, Payload}
use agentic_ai.Domain.Errors.{Error, http, bad_value, Result, ok, err}
use agentic_ai.World.{Env, World, Action, pure, lift, ◌>>=◌}
use agentic_ai.McpClient.{
  McpSettings, McpState, Transport, Reply, answered, timed_out, transport_failed, object, not_json,
  invoke_http_tool,
}
use agentic_ai.Wire.{
  customer_result, contract_result, invoice_result, credit_result, approval_result,
}
use agentic_ai.McpServer.Api.{
  ToolRequest, customer_request, contract_request, invoice_request, credit_request,
  approval_tool_request, ToolCall, post_tool,
}
use agentic_ai.Billing.{BillingMcpClient}
use agentic_ai.LocalClient.{counted}

-- How a POST fails on its way.
pub data Failure : Type 0 where
  timeout : Failure
  transport_error : String → Failure

-- What the network makes of a POST.
pub data Delivery : Type 0 where
  delivered : Delivery
  request_lost : Failure → Delivery
  response_lost : Failure → Delivery

-- What becomes of the n-th POST, which responses `raise_for_status` passes on, and the clock.
pub record Network : Type 0 where
  pub delivery : ℕ → Delivery
  pub is_success : ℕ → Bool
  pub now : ℕ → ℕ

abbrev pub failed : Failure → Reply
failed timeout = timed_out
failed (transport_error message) = transport_failed message

-- The server's response: an exception that is no `HTTPException` has no handler there, and is
-- answered as an internal error, in plain text.
abbrev pub server_reply : Result Payload → Reply
server_reply (ok payload) = answered 200 (object payload)
server_reply (err (http status detail)) = answered status (object (("detail", text detail) ∷ []))
server_reply (err e) = answered 500 (not_json (bad_value "JSONDecodeError"))

module _ (net : Network) (service_token : String) (call : ToolCall) (env : Env) where
  -- One POST: the reply, and the world after it.
  abbrev pub exchange : Delivery → World → Reply × World
  exchange delivered w = let (r, w') = post_tool service_token call env w in (server_reply r, w')
  exchange (request_lost f) w = (failed f, w)
  exchange (response_lost f) w = (failed f, (post_tool service_token call env w).1)

  -- The world after a number of POSTs, from the n-th on.
  unfoldable pub reached : World → ℕ → ℕ → World
  reached w n zero = w
  reached w n (suc k) = (exchange (net.delivery (n + k)) (reached w n k)).1

  -- The server as the client sees it, from the n-th POST on.
  abbrev pub transport : World → ℕ → Transport
  transport w n = record {
    post = λ m. (exchange (net.delivery m) (reached w n (m - n))).0;
    is_success = net.is_success;
    now = net.now;
  }

  -- `_invoke_http_tool`
  unfoldable pub invoke_remote : McpSettings → World → Result Payload × World
  invoke_remote cfg w =
      let n = w.mcp_client.posts in
      let (r, s) = invoke_http_tool (transport w n) cfg w.mcp_client in
      (r, record (reached w n (s.posts - n)) { mcp_client = s })

abbrev pub tool_name : ToolRequest → String
tool_name (customer_request customer_id) = "get_customer"
tool_name (contract_request customer_id issued_at) = "get_contract"
tool_name (invoice_request customer_id) = "get_invoice"
tool_name (credit_request customer_id invoice_id amount reason) = "create_credit"
tool_name (approval_tool_request customer_id invoice_id amount) = "request_approval"

-- A deployment in http mode: the network, the client's settings, and the token on either side.
pub record Remote : Type 0 where
  pub network : Network
  pub mcp : McpSettings
  pub client_token : String
  pub server_token : String

abbrev pub tool_call : Remote → ToolRequest → ToolCall
tool_call remote request = record { x_mcp_token = remote.client_token; request = request }

-- `_invoke_tool`
unfoldable pub invoke_remote_tool : Remote → ToolRequest → Action Payload
invoke_remote_tool remote request env w =
    let (r, w') =
      invoke_remote remote.network remote.server_token (tool_call remote request) env remote.mcp
        w in
    counted (tool_name request) r env w'

unfoldable pub remote_client : Remote → BillingMcpClient
remote_client remote = record {
  get_customer = λ customer_id. do
    payload ← invoke_remote_tool remote (customer_request customer_id)
    lift (customer_result payload);
  get_contract = λ customer_id issued_at. do
    payload ← invoke_remote_tool remote (contract_request customer_id (some issued_at))
    lift (contract_result payload);
  get_invoice = λ customer_id. do
    payload ← invoke_remote_tool remote (invoice_request customer_id)
    lift (invoice_result payload);
  create_credit = λ customer_id invoice_id amount reason. do
    payload ←
        invoke_remote_tool remote
          (credit_request customer_id invoice_id (show_amount amount) reason)
    lift (credit_result payload);
  request_approval = λ customer_id invoice_id amount. do
    payload ←
        invoke_remote_tool remote
          (approval_tool_request customer_id invoice_id (show_amount amount))
    lift (approval_result payload);
}
