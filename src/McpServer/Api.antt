-- ===== src/McpServer/Api.antt =====
-- mcp_server/http_api.py: each path checks the service token and calls its tool, whose answer is the
-- response; mcp_server/tools and mcp_server/server.py pass their arguments on in the same way.
use agentic_ai.Base.{
  ℕ, String, ◌≡◌, refl, Bool, false, Option, List, [], ◌∷◌, ◌==◌, Bool-cases, inl, inr, ap, ◌∙◌,
}
use agentic_ai.Base.Lists.{keep}
use agentic_ai.World.{Env, World, Action, pure, raise, ◌>>=◌}
use agentic_ai.McpServer.{
  get_customer_tool, get_contract_tool, get_invoice_tool, create_credit_tool, request_approval_tool,
  with_token,
}
use agentic_ai.Wire.{
  Payload, customer_payload, contract_payload, invoice_payload, credit_payload, approval_payload,
}

-- The bodies of the five paths.
pub data ToolRequest : Type 0 where
  customer_request : String → ToolRequest
  contract_request : String → Option ℕ → ToolRequest
  invoice_request : String → ToolRequest
  credit_request : String → String → String → String → ToolRequest
  approval_tool_request : String → String → String → ToolRequest

unfoldable pub run_tool : ToolRequest → Action Payload
run_tool (customer_request customer_id) = do
  customer ← get_customer_tool customer_id
  pure (customer_payload customer)
run_tool (contract_request customer_id issued_at) = do
  contract ← get_contract_tool customer_id issued_at
  pure (contract_payload contract)
run_tool (invoice_request customer_id) = do
  invoice ← get_invoice_tool customer_id
  pure (invoice_payload invoice)
run_tool (credit_request customer_id invoice_id amount reason) = do
  credit ← create_credit_tool customer_id invoice_id amount reason
  pure (credit_payload credit)
run_tool (approval_tool_request customer_id invoice_id amount) = do
  approval ← request_approval_tool customer_id invoice_id amount
  pure (approval_payload approval)

-- A request with its header `X-MCP-Token`.
pub record ToolCall : Type 0 where
  pub x_mcp_token : String
  pub request : ToolRequest

unfoldable pub post_tool : String → ToolCall → Action Payload
post_tool mcp_service_token call =
    with_token mcp_service_token call.x_mcp_token (run_tool call.request)

-- The world after a sequence of calls.
unfoldable pub post_tools : String → List ToolCall → Env → World → World
post_tools mcp_service_token [] env w = w
post_tools mcp_service_token (call ∷ calls) env w =
    post_tools mcp_service_token calls env (post_tool mcp_service_token call env w).1

abbrev pub has_token : String → ToolCall → Bool
has_token mcp_service_token call = call.x_mcp_token == mcp_service_token

post_tool_denied :
    (token : String) (call : ToolCall) (env : Env) (w : World)
    → has_token token call ≡ false
    → (post_tool token call env w).1 ≡ w
unfolding post_tool with_token raise
post_tool_denied token call env w denied = rw denied refl

-- Calls without the service token change nothing: the world is the one that comes of the other calls
-- alone.
pub post_tools-authorized :
    (token : String) (calls : List ToolCall) (env : Env) (w : World)
    → post_tools token calls env w ≡ post_tools token (keep (has_token token) calls) env w
unfolding post_tools
post_tools-authorized token [] env w = refl
post_tools-authorized token (call ∷ calls) env w = elim (Bool-cases (has_token token call)) [
  | inl granted ↦ rw granted (post_tools-authorized token calls env (post_tool token call env w).1)
  | inr denied ↦ rw denied (
      ap (post_tools token calls env) (post_tool_denied token call env w denied)
      ∙ post_tools-authorized token calls env w)
]
