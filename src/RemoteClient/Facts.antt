-- ===== src/RemoteClient/Facts.antt =====
-- The facts of a bill over the network, against those from the session.
use agentic_ai.Base.{
  ℕ, suc, String, ◌≡◌, refl, sym, ◌∙◌, ap, true, false, none, some, arith, eq_iff,
}
use agentic_ai.Domain.Errors.{Result, ok, err, is_ok, and_then}
use agentic_ai.Payload.{Payload}
use agentic_ai.Store.{Tables}
use agentic_ai.World.{Env, World, Action, rows, pure, raise, lift, ◌>>=◌, record_mcp_result}
use agentic_ai.Billing.{billing_facts}
use agentic_ai.McpClient.{retries}
use agentic_ai.McpServer.{with_token, get_customer_tool, get_contract_tool, get_invoice_tool}
use agentic_ai.McpServer.Api.{
  ToolRequest, customer_request, contract_request, invoice_request, run_tool, post_tool,
}
use agentic_ai.Wire.{
  customer_payload, contract_payload, invoice_payload, customer_result, contract_result,
  invoice_result,
}
use agentic_ai.Wire.RoundTrip.{
  customer_result-payload, contract_result-payload, invoice_result-payload,
}
use agentic_ai.LocalClient.{counted}
use agentic_ai.LocalClient.Looks.{
  customer_at, invoice_at, contract_at, get_customer_tool-at, get_invoice_tool-at,
  get_contract_tool-at, customer_at-IsId, invoice_at-IsMoney, contract_at-IsMoney,
}
use agentic_ai.Facts.{value_of, Delivers, facts_at, sources-Deliver, session_facts}
use agentic_ai.RemoteClient.{
  Remote, tool_call, tool_name, invoke_remote, invoke_remote_tool, remote_client,
}
use agentic_ai.RemoteClient.Internal.{
  is_http, is_http-and_then, customer_at-internal, invoice_at-internal, contract_at-internal,
}
use agentic_ai.RemoteClient.Reads.{
  one_delivered, invoke_remote-ok, invoke_remote-err, invoke_remote-stored, invoke_remote-closed,
}

-- A world with these tables and a closed circuit.
record IsReady (t : Tables) (w : World) : Type 0 where
  stored : w.stored ≡ t
  closed : w.mcp_client.circuit_open_until ≡ none

-- What the client makes of a call's outcome.
decoded-ok :
    {A : Type 0} (t : Tables) (env : Env) (tool : String) (g : Payload → Result A) (p : Payload)
    (a : A) (o : Result Payload × World)
    → o.0 ≡ ok p
    → g p ≡ ok a
    → IsReady t o.1
    → let (r, w) = (counted tool o.0 >>= λ p. lift (g p)) env o.1 in
      (value_of r ≡ some a) × (is_ok r ≡ true → IsReady t w)
unfolding record_mcp_result pure raise lift ◌>>=◌
decoded-ok t env tool g p a (ok x, w) e reads h = ground (arith, e, reads, h.stored, h.closed)
decoded-ok t env tool g p a (err x, w) e reads h = cc

decoded-err :
    {A : Type 0} (t : Tables) (env : Env) (tool : String) (g : Payload → Result A)
    (o : Result Payload × World)
    → ((p : Payload) → ¬ (o.0 ≡ ok p))
    → let (r, w) = (counted tool o.0 >>= λ p. lift (g p)) env o.1 in
      (value_of r ≡ none) × (is_ok r ≡ true → IsReady t w)
unfolding record_mcp_result pure raise lift ◌>>=◌
decoded-err t env tool g (ok x, w) e = absurd (e x refl)
decoded-err t env tool g (err x, w) e = (refl, λ h. cc)

runs_customer :
    (id : String) (env : Env) (w : World)
    → run_tool (customer_request id) env w
      ≡ (get_customer_tool id >>= λ c. pure (customer_payload c)) env w
unfolding run_tool
runs_customer id env w = refl

runs_invoice :
    (id : String) (env : Env) (w : World)
    → run_tool (invoice_request id) env w
      ≡ (get_invoice_tool id >>= λ i. pure (invoice_payload i)) env w
unfolding run_tool
runs_invoice id env w = refl

runs_contract :
    (id : String) (at : ℕ) (env : Env) (w : World)
    → run_tool (contract_request id (some at)) env w
      ≡ (get_contract_tool id (some at) >>= λ k. pure (contract_payload k)) env w
unfolding run_tool
runs_contract id at env w = refl

module _ (remote : Remote) (same_token : remote.client_token ≡ remote.server_token)
    (success : remote.network.is_success 200 ≡ true)
    (some_through : (n : ℕ)
      → one_delivered remote.network (suc (retries remote.mcp)) n ≡ true) where
  module _ {A : Type 0} (env : Env) (t : Tables) (request : ToolRequest) (m : Action A)
      (f : A → Payload) (g : Payload → Result A)
      (runs : (w : World) → run_tool request env w ≡ (m >>= λ a. pure (f a)) env w) where
    posted_as :
        (r : Result A) (w : World)
        → m env w ≡ (r, w)
        → post_tool remote.server_token (tool_call remote request) env w
          ≡ (and_then r (λ a. ok (f a)), w)
    unfolding post_tool with_token pure ◌>>=◌
    posted_as (ok a) w looks =
        ground (arith, runs w, looks, (eq_iff remote.client_token remote.server_token).1 same_token)
    posted_as (err e) w looks =
        ground (arith, runs w, looks, (eq_iff remote.client_token remote.server_token).1 same_token)

    outcome :
        (r : Result A) (w : World)
        → m env w ≡ (r, w)
        → is_http r ≡ false
        → ((a : A) → r ≡ ok a → g (f a) ≡ ok a)
        → IsReady t w
        → let (x, w') = (invoke_remote_tool remote request >>= λ p. lift (g p)) env w in
          (value_of x ≡ value_of r) × (is_ok x ≡ true → IsReady t w')
    unfolding invoke_remote_tool ◌>>=◌
    outcome (ok a) w looks internal reads ready =
        let call = tool_call remote request in
        let o = invoke_remote remote.network remote.server_token call env remote.mcp w in
        let posts = posted_as (ok a) w looks in
        let answer =
          invoke_remote-ok remote.network remote.server_token call env w (ok (f a)) posts (f a) refl
            success remote.mcp ready.closed (some_through w.mcp_client.posts) in
        decoded-ok t env (tool_name request) g (f a) a o answer (reads a refl) (record {
          stored =
              invoke_remote-stored remote.network remote.server_token call env w (ok (f a)) posts
                remote.mcp
              ∙ ready.stored;
          closed =
              invoke_remote-closed remote.network remote.server_token call env w (ok (f a)) posts
                remote.mcp (f a) answer;
        })
    outcome (err e) w looks internal reads ready =
        let call = tool_call remote request in
        decoded-err t env (tool_name request) g
          (invoke_remote remote.network remote.server_token call env remote.mcp w)
          (invoke_remote-err remote.network remote.server_token call env w (err e)
            (posted_as (err e) w looks) refl (is_http-and_then (err e) f internal) remote.mcp)

    tool-Delivers :
        (q : Tables → Result A)
        → ((w : World) → m env w ≡ (q w.stored, w))
        → is_http (q t) ≡ false
        → ((a : A) → q t ≡ ok a → g (f a) ≡ ok a)
        → Delivers (IsReady t) env (invoke_remote_tool remote request >>= λ p. lift (g p)) (q t)
    tool-Delivers q looks internal reads = record {
      at = λ w ready.
          outcome (q t) w (looks w ∙ ap (λ t. (q t, w)) ready.stored) internal reads ready;
    }

  remote_facts :
      (id : String) (env : Env) (t : Tables)
      → Delivers
          (IsReady t)
          env
          (billing_facts (some (remote_client remote)) id)
          (facts_at id env t)
  unfolding billing_facts remote_client
  remote_facts id env t =
      sources-Deliver (IsReady t) env t _ _ _
        (λ id.
          tool-Delivers env t (customer_request id) (get_customer_tool id) (λ c. customer_payload c)
            (λ p. customer_result p) (runs_customer id env) (λ t. customer_at id t)
            (get_customer_tool-at id env) (customer_at-internal id t)
            (λ c e. customer_result-payload c (customer_at-IsId id t c e)))
        (λ id.
          tool-Delivers env t (invoice_request id) (get_invoice_tool id) (λ c. invoice_payload c)
            (λ p. invoice_result p) (runs_invoice id env) (λ t. invoice_at id env t)
            (get_invoice_tool-at id env) (invoice_at-internal id env t)
            (λ c e. invoice_result-payload c (invoice_at-IsMoney id env t c e)))
        (λ id at.
          tool-Delivers env t (contract_request id (some at)) (get_contract_tool id (some at))
            (λ c. contract_payload c) (λ p. contract_result p) (runs_contract id at env)
            (λ t. contract_at id at t) (get_contract_tool-at id at env)
            (contract_at-internal id at t)
            (λ c e. contract_result-payload c (contract_at-IsMoney id at t c e)))
        id

-- In a session without changes of its own and with a closed circuit: where the two sides have the same
-- token, the library passes on the status 200, and of the POSTs that a call may make at least one gets
-- through with its response, the client in http mode gives the facts of a bill that the session's own
-- queries give, and none where those give none.
pub remote_client_facts :
    (remote : Remote) (id : String) (env : Env) (w : World)
    → remote.client_token ≡ remote.server_token
    → remote.network.is_success 200 ≡ true
    → ((n : ℕ) → one_delivered remote.network (suc (retries remote.mcp)) n ≡ true)
    → w.mcp_client.circuit_open_until ≡ none
    → rows w ≡ w.stored
    → value_of (billing_facts (some (remote_client remote)) id env w).0
      ≡ value_of (billing_facts none id env w).0
remote_client_facts remote id env w same_token success some_through closed fresh =
    ((remote_facts remote same_token success some_through id env w.stored).at w
      (record { stored = refl; closed = closed })).0
    ∙ sym ((session_facts id env w.stored).at w fresh).0
