-- ===== src/Final/Deployment.antt =====
-- The row of a decided request, over the events of a deployment.
use agentic_ai.Base.{String, ◌≡◌, ◌≢◌, some, List, [], ◌∷◌}
use agentic_ai.Store.{ApprovalRow, find_approval}
use agentic_ai.World.{Env, World}
use agentic_ai.World.Preserves.{preserves_rules}
use agentic_ai.Llm.{Model}
use agentic_ai.Auth.{AuthSettings, Introspection}
use agentic_ai.RateLimit.{Limits}
use agentic_ai.McpServer.Api.{
  ToolRequest, customer_request, contract_request, invoice_request, credit_request,
  approval_tool_request, post_tool,
}
use agentic_ai.RemoteClient.{Remote}
use agentic_ai.App.{AppState, post_all}
use agentic_ai.App.Deployed.{connected}
use agentic_ai.Deployment.{Event, asked, sent, called, call_tool, at_rest, occur, occur_all}
use agentic_ai.Final.Rows.{Final}
use agentic_ai.Final.Keeps.{Held, Retains}
use agentic_ai.Final.Tools.{
  get_customer_tool-Retains, get_contract_tool-Retains, get_invoice_tool-Retains,
  create_credit_tool-Retains, request_approval_tool-Retains, post_tool-Retains, stored_after,
}
use agentic_ai.Final.Deployed.{connected-Final}

module _ (k : String) (a : ApprovalRow) where
  call_tool-Retains : (r : ToolRequest) → Retains k a (call_tool r)
  unfolding call_tool
  call_tool-Retains (customer_request id) =
      search (preserves_rules, get_customer_tool-Retains) depth 8
  call_tool-Retains (contract_request id o) =
      search (preserves_rules, get_contract_tool-Retains) depth 8
  call_tool-Retains (invoice_request id) =
      search (preserves_rules, get_invoice_tool-Retains) depth 8
  call_tool-Retains (credit_request c i n m) =
      search (preserves_rules, create_credit_tool-Retains) depth 8
  call_tool-Retains (approval_tool_request c i n) =
      search (preserves_rules, request_approval_tool-Retains) depth 8

  at_rest-Held : (w : World) → Final k a w.stored → Held k a (at_rest w)
  at_rest-Held w h = record { seen = λ t e. e; kept = h }

module _ (k : String) (a : ApprovalRow) (limits : Limits) (auth : AuthSettings)
    (provider : String → Introspection) (remote : Remote) (model : Model) (token : String)
    (env : Env) (settled : a.status ≢ "PENDING") where
  occur-Final :
      (e : Event) (s : AppState)
      → Final k a s.world.stored
      → Final k a (occur (connected limits auth provider remote model) token env e s).world.stored
  unfolding occur post_all
  occur-Final (asked r) s h =
      connected-Final k a limits auth provider remote model env (r ∷ []) s settled h
  occur-Final (sent call) s h =
      stored_after k a (post_tool token call env (at_rest s.world)) (
        (post_tool-Retains k a token call).at env tt (at_rest s.world) (at_rest-Held k a s.world h))
  occur-Final (called r) s h =
      stored_after k a (call_tool r env (at_rest s.world))
        ((call_tool-Retains k a r).at env tt (at_rest s.world) (at_rest-Held k a s.world h))

-- A request for approval that is no longer pending keeps its row, whatever happens: requests to the
-- application in http mode, with the POSTs and responses that get lost between it and the tool server,
-- POSTs of others to the tool server, with any token, and calls through the protocol, in any order.
pub deployment-Final :
    (k : String) (a : ApprovalRow) (limits : Limits) (auth : AuthSettings)
    (provider : String → Introspection) (remote : Remote) (model : Model) (token : String)
    (env : Env) (es : List Event) (s : AppState)
    → a.status ≢ "PENDING"
    → find_approval k s.world.stored ≡ some a
    → find_approval k
        (occur_all (connected limits auth provider remote model) token env es s).world.stored
      ≡ some a
unfolding occur_all
deployment-Final k a limits auth provider remote model token env [] s settled found = found
deployment-Final k a limits auth provider remote model token env (e ∷ es) s settled found =
    deployment-Final k a limits auth provider remote model token env es
      (occur (connected limits auth provider remote model) token env e s) settled
      (occur-Final k a limits auth provider remote model token env settled e s found)
