-- ===== src/RemoteClient/Credits.antt =====
-- How many credits a single `create_credit` of the client in http mode issues.
use agentic_ai.Base.{
  ℕ, zero, suc, ◌+◌, ◌-◌, ◌≤◌, String, ◌≡◌, refl, subst, Bool, true, false, arith, List,
}
use agentic_ai.Base.Int.{ℤ}
use agentic_ai.Domain.Errors.{Result, ok, err, is_ok, http}
use agentic_ai.Payload.{Payload}
use agentic_ai.Store.{CreditRow}
use agentic_ai.World.{Env, World, pure, raise, lift, ◌>>=◌, record_mcp_result}
use agentic_ai.McpClient.{
  McpSettings, McpState, Turn, returned, read_reply, invoke_http_tool, retries,
}
use agentic_ai.McpClient.Outcome.{invoke-posts}
use agentic_ai.McpClient.Last.{IsLast, invoke-IsLast}
use agentic_ai.McpServer.Api.{ToolCall, post_tool}
use agentic_ai.Wire.{credit_result}
use agentic_ai.Safety.Tables.{Claim}
use agentic_ai.LocalClient.{counted}
use agentic_ai.RemoteClient.{
  Network, Delivery, delivered, request_lost, response_lost, timeout, transport_error, server_reply,
  exchange, reached, transport, invoke_remote, Remote, invoke_remote_tool, remote_client,
}
use agentic_ai.RemoteClient.Credited.{
  Credited, Credited-none, Credited-trans, Credited-weaken, claimed, credit_body, one_if,
  one_if-most, post_tool-Credited, post_tool-denial,
}

-- Whether a reply is an object that the call returns.
abbrev is_return : Turn → Bool
is_return (returned d) = true
is_return _ = false

module _ (net : Network) (token : String) (call : ToolCall) (env : Env) (c : Claim)
    (credits : (w : World)
      → Credited c
          (one_if (is_ok (post_tool token call env w).0))
          1
          w.stored.credits
          (post_tool token call env w).1.stored.credits)
    (denials : (w : World) (status : ℕ) (detail : String)
      → (post_tool token call env w).0 ≡ err (http status detail)
      → status ≡ 401)
    (unauthorized : net.is_success 401 ≡ false) where
  exchange-Credited :
      (d : Delivery) (w : World)
      → Credited c 0 1 w.stored.credits (exchange net token call env d w).1.stored.credits
  exchange-Credited delivered w = Credited-weaken c (credits w) (omega arith) (omega arith)
  exchange-Credited (request_lost f) w =
      Credited-weaken c (Credited-none c w.stored.credits) (omega arith) (omega arith)
  exchange-Credited (response_lost f) w = Credited-weaken c (credits w) (omega arith) (omega arith)

  -- A reply that the client returns comes from a tool that was answered.
  reply_ok :
      (w : World) (n : ℕ) (r : Result Payload) (d : Payload)
      → ((status : ℕ) (detail : String) → r ≡ err (http status detail) → status ≡ 401)
      → read_reply (transport net token call env w n) (server_reply r) ≡ returned d
      → is_ok r ≡ true
  unfolding read_reply
  reply_ok w n (ok p) d denied h = refl
  reply_ok w n (err (http status detail)) d denied h =
      ground (arith, h, unauthorized, denied status detail refl)
  reply_ok w n (err e) d denied h = ground (arith, h)

  returned-Credited :
      (w : World) (n : ℕ) (v : World) (x : Delivery) (d : Payload)
      → read_reply (transport net token call env w n) (exchange net token call env x v).0
        ≡ returned d
      → Credited c 1 1 v.stored.credits (exchange net token call env x v).1.stored.credits
  unfolding read_reply
  returned-Credited w n v delivered d h =
      subst
        (λ b.
          Credited c (one_if b) 1 v.stored.credits (post_tool token call env v).1.stored.credits)
        (reply_ok w n (post_tool token call env v).0 d (denials v) h) (credits v)
  returned-Credited w n v (request_lost timeout) d h = cc
  returned-Credited w n v (request_lost (transport_error m)) d h = cc
  returned-Credited w n v (response_lost timeout) d h = cc
  returned-Credited w n v (response_lost (transport_error m)) d h = cc

  reached-Credited :
      (w : World) (n k : ℕ)
      → Credited c 0 k w.stored.credits (reached net token call env w n k).stored.credits
  unfolding reached
  reached-Credited w n zero = Credited-none c w.stored.credits
  reached-Credited w n (suc k) =
      Credited-weaken c
        (Credited-trans c (reached-Credited w n k)
          (exchange-Credited (net.delivery (n + k)) (reached net token call env w n k)))
        (omega arith) (omega arith)

  -- After a call that returns, its last POST has added one.
  last-Credited :
      (w : World) (n : ℕ) (s : McpState) (d : Payload)
      → IsLast (transport net token call env w n) n s d
      → Credited c 1
          (s.posts - n)
          w.stored.credits
          (reached net token call env w n (s.posts - n)).stored.credits
  unfolding reached
  last-Credited w n s d (m, posts, late, last) =
      let count : suc (m - n) ≡ s.posts - n = omega (arith, posts, late) in
      let here : m ≡ n + (m - n) = omega (arith, late) in
      let before = reached net token call env w n (m - n) in
      let last' =
        subst
          (λ k.
            read_reply (transport net token call env w n)
              (exchange net token call env (net.delivery k) before).0
            ≡ returned d)
          here last in
      subst (λ k. Credited c 1 k w.stored.credits (reached net token call env w n k).stored.credits)
        count
        (Credited-weaken c
          (Credited-trans c (reached-Credited w n (m - n))
            (returned-Credited w n before (net.delivery (n + (m - n))) d last'))
          (omega arith) (omega arith))

  call-Credited :
      (most : ℕ) (w : World) (n : ℕ) (r : Result Payload) (s : McpState)
      → ((d : Payload) → r ≡ ok d → IsLast (transport net token call env w n) n s d)
      → s.posts ≤ n + most
      → Credited c
          (one_if (is_ok r))
          most
          w.stored.credits
          (reached net token call env w n (s.posts - n)).stored.credits
  call-Credited most w n (ok d) s last few =
      Credited-weaken c (last-Credited w n s d (last d refl)) (omega arith) (omega (arith, few))
  call-Credited most w n (err e) s last few =
      Credited-weaken c (reached-Credited w n (s.posts - n)) (omega arith) (omega (arith, few))

  pub invoke_remote-Credited :
      (cfg : McpSettings) (w : World)
      → Credited c
          (one_if (is_ok (invoke_remote net token call env cfg w).0))
          (suc (retries cfg))
          w.stored.credits
          (invoke_remote net token call env cfg w).1.stored.credits
  unfolding invoke_remote
  invoke_remote-Credited cfg w =
      let n = w.mcp_client.posts in
      let t = transport net token call env w n in
      let o = invoke_http_tool t cfg w.mcp_client in
      call-Credited (suc (retries cfg)) w n o.0 o.1 (λ d h. invoke-IsLast t cfg d w.mcp_client h)
        (invoke-posts t cfg w.mcp_client)

-- What follows a call, its counting and the reading of its payload, writes no credit.
decoded-Credited :
    (c : Claim) (tool : String) (env : Env) (most : ℕ) (before : List CreditRow)
    (o : Result Payload × World)
    → Credited c (one_if (is_ok o.0)) most before o.1.stored.credits
    → let (r, w) = (counted tool o.0 >>= λ payload. lift (credit_result payload)) env o.1 in
      Credited c (one_if (is_ok r)) most before w.stored.credits
unfolding record_mcp_result pure raise lift ◌>>=◌
decoded-Credited c tool env most before (ok p, v) h =
    Credited-weaken c h (one_if-most (is_ok (credit_result p))) (omega arith)
decoded-Credited c tool env most before (err e, v) h =
    Credited-weaken c h (omega arith) (omega arith)

-- In http mode, where the library rejects a response with the status 401, a single `create_credit`
-- issues no more credits than a call has attempts, all of the same claim, and at least one if it
-- returns. What was there before stays.
pub create_credit-Credited :
    (remote : Remote) (customer_id invoice_id : String) (amount : ℤ) (reason : String) (env : Env)
    (w : World)
    → remote.network.is_success 401 ≡ false
    → Credited
        (claimed customer_id invoice_id amount reason env)
        (one_if (
          is_ok
            ((remote_client remote).create_credit customer_id invoice_id amount reason env w).0))
        (suc (retries remote.mcp))
        w.stored.credits
        ((remote_client remote).create_credit customer_id invoice_id amount reason env
          w).1.stored.credits
unfolding remote_client invoke_remote_tool ◌>>=◌
create_credit-Credited remote customer_id invoice_id amount reason env w unauthorized =
    let call = credit_body customer_id invoice_id amount reason env remote.client_token in
    decoded-Credited (claimed customer_id invoice_id amount reason env) "create_credit" env
      (suc (retries remote.mcp)) w.stored.credits
      (invoke_remote remote.network remote.server_token call env remote.mcp w)
      (invoke_remote-Credited remote.network remote.server_token call env
        (claimed customer_id invoice_id amount reason env)
        (post_tool-Credited customer_id invoice_id amount reason env remote.server_token
          remote.client_token)
        (post_tool-denial customer_id invoice_id amount reason env remote.server_token
          remote.client_token)
        unauthorized remote.mcp w)
