-- ===== src/RemoteClient/Reads.antt =====
-- A tool that only reads, asked over the network.
use agentic_ai.Base.{
  ℕ, zero, suc, ◌+◌, ◌-◌, ◌≡◌, refl, sym, ap, ◌∙◌, String, Bool, true, false, none, ◌||◌, arith,
}
use agentic_ai.Domain.Errors.{http, bad_value, Result, ok, err, is_ok}
use agentic_ai.Payload.{Payload}
use agentic_ai.World.{Env, World}
use agentic_ai.McpClient.{
  McpSettings, returned, answered, not_json, read_reply, invoke_http_tool, retries,
}
use agentic_ai.McpClient.Outcome.{Answers, turn, is_again, answer_now, answer_later, invoke-Answers}
use agentic_ai.McpClient.Last.{invoke-IsLast}
use agentic_ai.McpClient.Closed.{invoke-IsReclosed}
use agentic_ai.McpServer.Api.{ToolCall, post_tool}
use agentic_ai.RemoteClient.{
  Network, Delivery, delivered, request_lost, response_lost, Failure, timeout, transport_error,
  failed, server_reply, exchange, reached, transport, invoke_remote,
}
use agentic_ai.RemoteClient.Internal.{is_http}

abbrev gets_through : Delivery → Bool
gets_through delivered = true
gets_through _ = false

-- Whether one of the next POSTs gets through and is answered, from the n-th on.
abbrev pub one_delivered : Network → ℕ → ℕ → Bool
one_delivered net zero n = false
one_delivered net (suc k) n = gets_through (net.delivery n) || one_delivered net k (suc n)

-- Any other exception is answered as an internal error.
server_reply_internal :
    (r : Result Payload)
    → is_ok r ≡ false
    → is_http r ≡ false
    → server_reply r ≡ answered 500 (not_json (bad_value "JSONDecodeError"))
server_reply_internal (ok p) h g = cc
server_reply_internal (err (http status detail)) h g = cc
server_reply_internal (err e) h g = ground (arith, g)

module _ (net : Network) (token : String) (call : ToolCall) (env : Env) (w : World)
    (r : Result Payload) (reads : post_tool token call env w ≡ (r, w)) where
  exchange-same : (d : Delivery) → (exchange net token call env d w).1 ≡ w
  exchange-same delivered = ap (λ o. o.1) reads
  exchange-same (request_lost f) = refl
  exchange-same (response_lost f) = ap (λ o. o.1) reads

  pub reached-same : (n k : ℕ) → reached net token call env w n k ≡ w
  unfolding reached
  reached-same n zero = refl
  reached-same n (suc k) =
      ap (λ v. (exchange net token call env (net.delivery (n + k)) v).1) (reached-same n k)
      ∙ exchange-same (net.delivery (n + k))

  turn-at :
      (n m : ℕ) (d : Delivery)
      → net.delivery m ≡ d
      → turn (transport net token call env w n) m
        ≡ read_reply (transport net token call env w n) (exchange net token call env d w).0
  turn-at n m d e =
      ap
        (λ v.
          read_reply (transport net token call env w n)
            (exchange net token call env (net.delivery m) v).0)
        (reached-same n (m - n))
      ∙ ap (λ d. read_reply (transport net token call env w n) (exchange net token call env d w).0)
          e

  -- A POST that fails on its way is tried again.
  failed-again :
      (n : ℕ) (f : Failure)
      → is_again (read_reply (transport net token call env w n) (failed f)) ≡ true
  unfolding read_reply
  failed-again n timeout = refl
  failed-again n (transport_error m) = refl

  module _ (p : Payload) (found : r ≡ ok p) (success : net.is_success 200 ≡ true) where
    delivered-returned :
        (n : ℕ)
        → read_reply (transport net token call env w n) (exchange net token call env delivered w).0
          ≡ returned p
    unfolding read_reply
    delivered-returned n = ground (arith, reads, found, success)

    by_delivery :
        (n k m : ℕ)
        → (one_delivered net k (suc m) ≡ true
            → Answers (transport net token call env w n) k (suc m) p)
        → (d : Delivery) → net.delivery m ≡ d
        → (gets_through d || one_delivered net k (suc m)) ≡ true
        → Answers (transport net token call env w n) (suc k) m p
    by_delivery n k m later delivered e h =
        answer_now (transport net token call env w n) p k m
          (turn-at n m delivered e ∙ delivered-returned n)
    by_delivery n k m later (request_lost f) e h =
        answer_later (transport net token call env w n) p k m
          (ap is_again (turn-at n m (request_lost f) e) ∙ failed-again n f) (later h)
    by_delivery n k m later (response_lost f) e h =
        answer_later (transport net token call env w n) p k m
          (ap is_again (turn-at n m (response_lost f) e) ∙ failed-again n f) (later h)

    read-Answers :
        (n k m : ℕ)
        → one_delivered net k m ≡ true
        → Answers (transport net token call env w n) k m p
    read-Answers n zero m h = absurd (ground (arith, h))
    read-Answers n (suc k) m h =
        by_delivery n k m (λ g. read-Answers n k (suc m) g) (net.delivery m) refl h

    -- What the tool finds, the call returns.
    pub invoke_remote-ok :
        (cfg : McpSettings)
        → w.mcp_client.circuit_open_until ≡ none
        → one_delivered net (suc (retries cfg)) w.mcp_client.posts ≡ true
        → (invoke_remote net token call env cfg w).0 ≡ ok p
    unfolding invoke_remote
    invoke_remote-ok cfg closed some_through =
        let n = w.mcp_client.posts in
        (invoke-Answers (transport net token call env w n) cfg w.mcp_client p closed).1
          (read-Answers n (suc (retries cfg)) n some_through)

  module _ (lost : is_ok r ≡ false) (internal : is_http r ≡ false) where
    not_returned :
        (n m : ℕ) (x : Delivery) (d : Payload)
        → ¬ (
            read_reply (transport net token call env w n) (exchange net token call env x w).0
            ≡ returned d)
    unfolding read_reply
    not_returned n m delivered d h = ground (arith, reads, server_reply_internal r lost internal, h)
    not_returned n m (request_lost timeout) d h = cc
    not_returned n m (request_lost (transport_error e)) d h = cc
    not_returned n m (response_lost timeout) d h = cc
    not_returned n m (response_lost (transport_error e)) d h = cc

    -- Where the tool raises, so does the call.
    pub invoke_remote-err :
        (cfg : McpSettings) (d : Payload) → ¬ ((invoke_remote net token call env cfg w).0 ≡ ok d)
    unfolding invoke_remote
    invoke_remote-err cfg d h =
        let n = w.mcp_client.posts in
        let (m, posts, late, last) =
          invoke-IsLast (transport net token call env w n) cfg d w.mcp_client h in
        not_returned n m (net.delivery m) d (sym (turn-at n m (net.delivery m) refl) ∙ last)

  -- Either way the tables stay, and after a call that returns the circuit is closed.
  pub invoke_remote-stored :
      (cfg : McpSettings) → (invoke_remote net token call env cfg w).1.stored ≡ w.stored
  unfolding invoke_remote
  invoke_remote-stored cfg =
      let n = w.mcp_client.posts in
      let o = invoke_http_tool (transport net token call env w n) cfg w.mcp_client in
      ap (λ v. v.stored) (reached-same n (o.1.posts - n))

  pub invoke_remote-closed :
      (cfg : McpSettings) (p : Payload)
      → (invoke_remote net token call env cfg w).0 ≡ ok p
      → (invoke_remote net token call env cfg w).1.mcp_client.circuit_open_until ≡ none
  unfolding invoke_remote
  invoke_remote-closed cfg p h =
      let n = w.mcp_client.posts in
      invoke-IsReclosed (transport net token call env w n) cfg p w.mcp_client h
