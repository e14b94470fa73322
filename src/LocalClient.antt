-- ===== src/LocalClient.antt =====
-- `BillingMCPClient` of src/infrastructure/mcp/client.py in local mode: the tools are called in the
-- process, under a time limit, and what they answer is read as the client reads every answer.
pub mod Reads
pub mod Looks
pub mod Facts
use agentic_ai.Base.{ℕ, String, some, none}
use agentic_ai.Base.Int.{ℤ}
use agentic_ai.Base.Text.{◌+s+◌, show_amount, show_ℕ}
use agentic_ai.Domain.Errors.{
  Error, validation, authorization, not_found, conflict, external_service, workflow, integrity,
  bad_value, missing_key, http, Result, ok, err,
}
use agentic_ai.World.{Action, World, pure, lift, ◌>>=◌, ◌>>◌, raise, record_mcp_result}
use agentic_ai.Billing.{BillingMcpClient}
use agentic_ai.McpServer.{
  get_customer_tool, get_contract_tool, get_invoice_tool, create_credit_tool, request_approval_tool,
}
use agentic_ai.Wire.{
  Payload, customer_payload, contract_payload, invoice_payload, credit_payload, approval_payload,
  customer_result, contract_result, invoice_result, credit_result, approval_result,
}

-- `str(exc)`
abbrev pub error_text : Error → String
error_text (validation text) = text
error_text (authorization text) = text
error_text (not_found text) = text
error_text (conflict text) = text
error_text (external_service text) = text
error_text (workflow text) = text
error_text (integrity text) = text
error_text (bad_value text) = text
error_text (missing_key text) = text
error_text (http status text) = show_ℕ status +s+ ": " +s+ text

-- What `asyncio.wait_for` does to a call: it ends in time, or it is cancelled before it has
-- committed anything, or after.
pub data Cut : Type 0 where
  in_time : Cut
  cut_before : Cut
  cut_after : Cut

-- Which calls of a tool are cancelled, and when.
abbrev pub Cuts : Type 0
Cuts = String → World → Cut

abbrev pub timed_out : Error
timed_out = external_service "MCP request timed out"

-- `except Exception as exc`
abbrev pub wrapped {ℓ} : {A : Type ℓ} → Result A × World → Result A × World
wrapped (ok a, w) = (ok a, w)
wrapped (err e, w) = (err (external_service ("MCP request failed: " +s+ error_text e)), w)

unfoldable pub with_timeout {ℓ} : {A : Type ℓ} → Cut → Action A → Action A
with_timeout in_time m env w = wrapped (m env w)
with_timeout cut_before m env w = (err timed_out, w)
with_timeout cut_after m env w = (err timed_out, (m env w).1)

-- The counting of `_invoke_tool`: `try … record_mcp_result(…, "success") … except … "failure"`.
abbrev pub counted : String → Result Payload → Action Payload
counted tool (ok payload) = record_mcp_result tool "success" >> pure payload
counted tool (err e) = record_mcp_result tool "failure" >> raise e

unfoldable pub invoke_local_tool : Cuts → String → Action Payload → Action Payload
invoke_local_tool cuts tool call env w =
    let (r, w') = with_timeout (cuts tool w) call env w in counted tool r env w'

unfoldable pub local_client : Cuts → BillingMcpClient
local_client cuts = record {
  get_customer = λ customer_id. do
    payload ←
        invoke_local_tool cuts "get_customer"
          (do customer ← get_customer_tool customer_id; pure (customer_payload customer))
    lift (customer_result payload);
  get_contract = λ customer_id issued_at. do
    payload ← invoke_local_tool cuts "get_contract" (do
      contract ← get_contract_tool customer_id (some issued_at)
      pure (contract_payload contract))
    lift (contract_result payload);
  get_invoice = λ customer_id. do
    payload ←
        invoke_local_tool cuts "get_invoice"
          (do invoice ← get_invoice_tool customer_id; pure (invoice_payload invoice))
    lift (invoice_result payload);
  create_credit = λ customer_id invoice_id amount reason. do
    payload ← invoke_local_tool cuts "create_credit" (do
      credit ← create_credit_tool customer_id invoice_id (show_amount amount) reason
      pure (credit_payload credit))
    lift (credit_result payload);
  request_approval = λ customer_id invoice_id amount. do
    payload ← invoke_local_tool cuts "request_approval" (do
      approval ← request_approval_tool customer_id invoice_id (show_amount amount)
      pure (approval_payload approval))
    lift (approval_result payload);
}
