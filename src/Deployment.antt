-- ===== src/Deployment.antt =====
-- A deployment in http mode: the application of src/api/main.py, the tool server of
-- mcp_server/http_api.py, and the same tools behind a protocol library (mcp_server/server.py and
-- mcp_server/tools), on one database. What happens is a sequence of events, each run to its end.
use agentic_ai.Base.{String, List, [], ◌∷◌}
use agentic_ai.Payload.{Payload}
use agentic_ai.World.{Env, World, Action, pure, ◌>>=◌}
use agentic_ai.McpServer.{
  get_customer_tool, get_contract_tool, get_invoice_tool, create_credit_tool, request_approval_tool,
}
use agentic_ai.McpServer.Api.{
  ToolRequest, customer_request, contract_request, invoice_request, credit_request,
  approval_tool_request, ToolCall, post_tool,
}
use agentic_ai.Wire.{
  customer_payload, contract_payload, invoice_payload, credit_payload, approval_payload,
}
use agentic_ai.App.{App, AppState, ApiRequest, post}

-- The functions that are registered with the protocol library, which checks no token of the service.
unfoldable pub call_tool : ToolRequest → Action Payload
call_tool (customer_request customer_id) = do
  customer ← get_customer_tool customer_id
  pure (customer_payload customer)
call_tool (contract_request customer_id issued_at) = do
  contract ← get_contract_tool customer_id issued_at
  pure (contract_payload contract)
call_tool (invoice_request customer_id) = do
  invoice ← get_invoice_tool customer_id
  pure (invoice_payload invoice)
call_tool (credit_request customer_id invoice_id amount reason) = do
  credit ← create_credit_tool customer_id invoice_id amount reason
  pure (credit_payload credit)
call_tool (approval_tool_request customer_id invoice_id amount) = do
  approval ← request_approval_tool customer_id invoice_id amount
  pure (approval_payload approval)

-- A request to the application, a POST to the tool server, and a call through the protocol.
pub data Event : Type 0 where
  asked : ApiRequest → Event
  sent : ToolCall → Event
  called : ToolRequest → Event

-- No session is open when an event begins.
abbrev pub at_rest : World → World
at_rest w = record w { pending = λ t. t }

unfoldable pub occur : App → String → Env → Event → AppState → AppState
occur app mcp_service_token env (asked r) s = (post app env r s).1
occur app mcp_service_token env (sent call) s = record s {
  world = (post_tool mcp_service_token call env (at_rest s.world)).1;
}
occur app mcp_service_token env (called r) s = record s {
  world = (call_tool r env (at_rest s.world)).1;
}

unfoldable pub occur_all : App → String → Env → List Event → AppState → AppState
occur_all app mcp_service_token env [] s = s
occur_all app mcp_service_token env (e ∷ es) s =
    occur_all app mcp_service_token env es (occur app mcp_service_token env e s)
