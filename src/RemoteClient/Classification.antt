-- ===== src/RemoteClient/Classification.antt =====
-- `TOOL_CLASSIFICATION` of src/infrastructure/mcp/client.py, and what its words say of the tools.
use agentic_ai.Base.{
  String, ◌≡◌, refl, Bool, true, false, Option, none, some, List, [], ◌∷◌, ◌==◌, arith,
  if◌then◌else◌, ◌-◌, ap, ◌∙◌, Bool-cases, inl, inr,
}
use agentic_ai.Domain.Errors.{Result, ok, err}
use agentic_ai.Payload.{Payload}
use agentic_ai.World.{Env, World, ◌>>=◌, pure, raise, record_mcp_result}
use agentic_ai.McpServer.{get_customer_tool, get_contract_tool, get_invoice_tool, with_token}
use agentic_ai.McpServer.Api.{
  ToolRequest, customer_request, contract_request, invoice_request, credit_request,
  approval_tool_request, run_tool, ToolCall, post_tool,
}
use agentic_ai.Wire.{customer_payload, contract_payload, invoice_payload}
use agentic_ai.LocalClient.Reads.{
  OnlyReads, payload-OnlyReads, get_customer_tool-OnlyReads, get_contract_tool-OnlyReads,
  get_invoice_tool-OnlyReads,
}
use agentic_ai.LocalClient.{counted}
use agentic_ai.McpClient.{invoke_http_tool}
use agentic_ai.RemoteClient.{
  Remote, tool_name, tool_call, transport, reached, invoke_remote, invoke_remote_tool,
}
use agentic_ai.RemoteClient.Reads.{reached-same}

-- `MCPToolMetadata`
pub record ToolMetadata : Type 0 where
  pub name : String
  pub classification : String
  pub requires_permission : String

abbrev metadata : String → String → String → String × ToolMetadata
metadata name classification requires_permission = (
  name,
  record {
    name = name;
    classification = classification;
    requires_permission = requires_permission;
  },
)

abbrev pub tool_classification : List (String × ToolMetadata)
tool_classification =
    metadata "get_customer" "READ_ONLY" "READ"
    ∷ metadata "get_contract" "READ_ONLY" "READ"
    ∷ metadata "get_invoice" "READ_ONLY" "READ"
    ∷ metadata "create_credit" "WRITE" "WRITE"
    ∷ metadata "request_approval" "WRITE" "WRITE"
    ∷ []

-- `TOOL_CLASSIFICATION.get(name)`
abbrev pub classified : String → List (String × ToolMetadata) → Option ToolMetadata
classified name [] = none
classified name ((n, m) ∷ rest) = if n == name then some m else classified name rest

abbrev has_class : String → Option ToolMetadata → Bool
has_class c none = false
has_class c (some m) = m.classification == c

-- Whether the table calls a tool read-only.
abbrev pub is_read_only : String → Bool
is_read_only name = has_class "READ_ONLY" (classified name tool_classification)

-- A tool that the table calls read-only leaves the world as it is.
run_tool-OnlyReads : (r : ToolRequest) → is_read_only (tool_name r) ≡ true → OnlyReads (run_tool r)
unfolding run_tool
run_tool-OnlyReads (customer_request id) h =
    payload-OnlyReads (get_customer_tool id) (λ c. customer_payload c)
      (get_customer_tool-OnlyReads id)
run_tool-OnlyReads (contract_request id o) h =
    payload-OnlyReads (get_contract_tool id o) (λ k. contract_payload k)
      (get_contract_tool-OnlyReads id o)
run_tool-OnlyReads (invoice_request id) h =
    payload-OnlyReads (get_invoice_tool id) (λ i. invoice_payload i) (get_invoice_tool-OnlyReads id)
run_tool-OnlyReads (credit_request c i n m) h = absurd (ground (arith, h))
run_tool-OnlyReads (approval_tool_request c i n) h = absurd (ground (arith, h))

post_tool-OnlyReads :
    (token : String) (call : ToolCall)
    → is_read_only (tool_name call.request) ≡ true
    → OnlyReads (post_tool token call)
unfolding post_tool with_token raise
post_tool-OnlyReads token call h = record {
  at = λ env w. elim (Bool-cases (call.x_mcp_token == token)) [
    | inl granted ↦ rw granted ((run_tool-OnlyReads call.request h).at env w)
    | inr denied ↦ rw denied refl
  ];
}

-- The counting of a call changes no table.
counted-same :
    (tool : String) (r : Result Payload) (env : Env) (w : World)
    → ((counted tool r env w).1.stored ≡ w.stored) × ((counted tool r env w).1.pending ≡ w.pending)
unfolding record_mcp_result pure raise ◌>>=◌
counted-same tool (ok p) env w = (refl, refl)
counted-same tool (err e) env w = (refl, refl)

-- A call over the network of a tool that the table calls read-only changes neither the committed tables
-- nor the caller's session, however often it is posted and whatever gets lost.
pub invoke_remote_tool-reads :
    (remote : Remote) (r : ToolRequest) (env : Env) (w : World)
    → is_read_only (tool_name r) ≡ true
    → ((invoke_remote_tool remote r env w).1.stored ≡ w.stored)
      × ((invoke_remote_tool remote r env w).1.pending ≡ w.pending)
unfolding invoke_remote_tool invoke_remote
invoke_remote_tool-reads remote r env w h =
    let net = remote.network in
    let call = tool_call remote r in
    let n = w.mcp_client.posts in
    let o =
      invoke_http_tool (transport net remote.server_token call env w n) remote.mcp w.mcp_client in
    let v = reached net remote.server_token call env w n (o.1.posts - n) in
    let here : v ≡ w =
      reached-same net remote.server_token call env w (post_tool remote.server_token call env w).0
        (ap (λ x. ((post_tool remote.server_token call env w).0, x))
          ((post_tool-OnlyReads remote.server_token call h).at env w))
        n (o.1.posts - n) in
    let same = counted-same (tool_name r) o.0 env (record v { mcp_client = o.1 }) in
    (same.0 ∙ ap (λ x. x.stored) here, same.1 ∙ ap (λ x. x.pending) here)
