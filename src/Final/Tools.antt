-- ===== src/Final/Tools.antt =====
-- The tools, and the client that calls them over the network, keep the row of a decided request.
use agentic_ai.Base.{
  ℕ, zero, suc, ◌+◌, ◌-◌, String, ◌≡◌, refl, sym, subst, Option, none, some, ◌==◌, arith,
  Bool-cases, inl, inr,
}
use agentic_ai.Domain.Errors.{Result, ok, err, http}
use agentic_ai.Payload.{Payload}
use agentic_ai.Store.{Tables, ApprovalRow}
use agentic_ai.World.{Env, World, pure, raise, ◌>>=◌, with_session, record_mcp_result}
use agentic_ai.Repository.{get_customer, get_latest_finalized_invoice, get_contract_for_period}
use agentic_ai.Billing.{settings}
use agentic_ai.McpClient.{invoke_http_tool}
use agentic_ai.McpServer.{
  get_customer_tool, get_contract_tool, get_invoice_tool, look_up_at, create_credit_tool,
  request_approval_tool, with_token,
}
use agentic_ai.McpServer.Api.{
  ToolRequest, customer_request, contract_request, invoice_request, credit_request,
  approval_tool_request, run_tool, ToolCall, post_tool,
}
use agentic_ai.LocalClient.{counted}
use agentic_ai.RemoteClient.{
  Network, Delivery, delivered, request_lost, response_lost, exchange, reached, transport,
  invoke_remote, Remote, tool_call, tool_name, invoke_remote_tool, remote_client,
}
use agentic_ai.Final.Rows.{Final}
use agentic_ai.World.Preserves.{Preserves-if, Preserves-pure, Preserves-raise, preserves_rules}
use agentic_ai.Final.Keeps.{Held, IsHeld, Retains, Retains-session, finality}
use agentic_ai.Preserved.Service.{create_approval-Preserves}
use agentic_ai.Final.Program.{ClientRetains, finality-Laws, create_credit-Retains}

run_tool-pending :
    (r : ToolRequest) (env : Env) (w : World) → (run_tool r env w).1.pending ≡ w.pending
unfolding run_tool get_customer_tool get_contract_tool get_invoice_tool create_credit_tool
    request_approval_tool with_session pure ◌>>=◌
run_tool-pending (customer_request id) env w = ground arith
run_tool-pending (contract_request id o) env w = ground arith
run_tool-pending (invoice_request id) env w = ground arith
run_tool-pending (credit_request c i n m) env w = ground arith
run_tool-pending (approval_tool_request c i n) env w = ground arith

-- A tool leaves the session of its caller alone.
post_tool-pending :
    (token : String) (call : ToolCall) (env : Env) (w : World)
    → (post_tool token call env w).1.pending ≡ w.pending
unfolding post_tool with_token raise
post_tool-pending token call env w = elim (Bool-cases (call.x_mcp_token == token)) [
  | inl granted ↦ rw granted (run_tool-pending call.request env w)
  | inr denied ↦ rw denied refl
]

module _ (k : String) (a : ApprovalRow) where
  pub get_customer_tool-Retains : (id : String) → Retains k a (get_customer_tool id)
  unfolding get_customer_tool get_customer
  get_customer_tool-Retains id = search (preserves_rules, Retains-session) depth 10

  pub get_invoice_tool-Retains : (id : String) → Retains k a (get_invoice_tool id)
  unfolding get_invoice_tool get_latest_finalized_invoice
  get_invoice_tool-Retains id = search (preserves_rules, Retains-session) depth 10

  look_up_at-Retains : (id : String) (o : Option ℕ) → Retains k a (look_up_at id o)
  unfolding look_up_at get_latest_finalized_invoice
  look_up_at-Retains id none = search preserves_rules depth 10
  look_up_at-Retains id (some at) = Preserves-pure (finality k a) at

  pub get_contract_tool-Retains :
      (id : String) (o : Option ℕ) → Retains k a (get_contract_tool id o)
  unfolding get_contract_tool get_contract_for_period
  get_contract_tool-Retains id o =
      search (preserves_rules, Retains-session, look_up_at-Retains) depth 10

  pub create_credit_tool-Retains :
      (c i : String) (n m : String) → Retains k a (create_credit_tool c i n m)
  unfolding create_credit_tool settings
  create_credit_tool-Retains c i n m =
      search (preserves_rules, Retains-session, create_credit-Retains k a) depth 12

  pub request_approval_tool-Retains : (c i n : String) → Retains k a (request_approval_tool c i n)
  unfolding request_approval_tool settings
  request_approval_tool-Retains c i n =
      search
        (
          preserves_rules,
          Retains-session,
          create_approval-Preserves (finality k a) (finality-Laws k a),
        )
        depth 12

  run_tool-Retains : (r : ToolRequest) → Retains k a (run_tool r)
  unfolding run_tool
  run_tool-Retains (customer_request id) =
      search (preserves_rules, get_customer_tool-Retains) depth 8
  run_tool-Retains (contract_request id o) =
      search (preserves_rules, get_contract_tool-Retains) depth 8
  run_tool-Retains (invoice_request id) = search (preserves_rules, get_invoice_tool-Retains) depth 8
  run_tool-Retains (credit_request c i n m) =
      search (preserves_rules, create_credit_tool-Retains) depth 8
  run_tool-Retains (approval_tool_request c i n) =
      search (preserves_rules, request_approval_tool-Retains) depth 8

  pub post_tool-Retains : (token : String) (call : ToolCall) → Retains k a (post_tool token call)
  unfolding post_tool with_token
  post_tool-Retains token call =
      Preserves-if (finality k a) (call.x_mcp_token == token) _ _ (run_tool-Retains call.request)
        (Preserves-raise (finality k a) (http 401 "Unauthorized"))

  pub stored_after : {A : Type 0} (o : Result A × World) → IsHeld k a o → Final k a o.1.stored
  stored_after (ok x, v) g = g.holds.kept
  stored_after (err e, v) g = g.holds

  -- A call of the server, whatever it answers.
  post_tool-Held :
      (token : String) (call : ToolCall) (env : Env) (w : World)
      → Held k a w
      → Held k a (post_tool token call env w).1
  post_tool-Held token call env w h = record {
    seen =
        subst (λ p. (t : Tables) → Final k a t → Final k a (p t))
          (sym (post_tool-pending token call env w)) h.seen;
    kept = stored_after (post_tool token call env w) ((post_tool-Retains token call).at env tt w h);
  }

  exchange-Held :
      (net : Network) (token : String) (call : ToolCall) (env : Env) (d : Delivery) (w : World)
      → Held k a w
      → Held k a (exchange net token call env d w).1
  exchange-Held net token call env delivered w h = post_tool-Held token call env w h
  exchange-Held net token call env (request_lost f) w h = h
  exchange-Held net token call env (response_lost f) w h = post_tool-Held token call env w h

  reached-Held :
      (net : Network) (token : String) (call : ToolCall) (env : Env) (w : World) (n i : ℕ)
      → Held k a w
      → Held k a (reached net token call env w n i)
  unfolding reached
  reached-Held net token call env w n zero h = h
  reached-Held net token call env w n (suc i) h =
      exchange-Held net token call env (net.delivery (n + i)) (reached net token call env w n i)
        (reached-Held net token call env w n i h)

  -- The counting of a call.
  counted-Held :
      (tool : String) (r : Result Payload) (env : Env) (w : World)
      → Held k a w
      → IsHeld k a (counted tool r env w)
  unfolding record_mcp_result pure raise ◌>>=◌
  counted-Held tool (ok p) env w h = record { holds = record { seen = h.seen; kept = h.kept } }
  counted-Held tool (err e) env w h = record { holds = h.kept }

  remote_tool-Retains :
      (remote : Remote) (r : ToolRequest) → Retains k a (invoke_remote_tool remote r)
  unfolding invoke_remote_tool invoke_remote
  remote_tool-Retains remote r = record {
    at = λ env x w h.
        let net = remote.network in
        let call = tool_call remote r in
        let n = w.mcp_client.posts in
        let o =
          invoke_http_tool (transport net remote.server_token call env w n) remote.mcp
            w.mcp_client in
        let held = reached-Held net remote.server_token call env w n (o.1.posts - n) h in
        counted-Held (tool_name r) o.0 env
          (record (reached net remote.server_token call env w n (o.1.posts - n)) {
            mcp_client = o.1;
          })
          (record { seen = held.seen; kept = held.kept });
  }

  pub remote_client-Retains : (remote : Remote) → ClientRetains k a (remote_client remote)
  unfolding remote_client
  remote_client-Retains remote = record {
    preserves = record {
      customer = λ id. search (preserves_rules, remote_tool-Retains) depth 10;
      contract = λ id at. search (preserves_rules, remote_tool-Retains) depth 10;
      invoice = λ id. search (preserves_rules, remote_tool-Retains) depth 10;
    };
    approval = λ c i n. search (preserves_rules, remote_tool-Retains) depth 10;
    credit = λ c i n m. search (preserves_rules, remote_tool-Retains) depth 10;
  }
