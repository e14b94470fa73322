-- ===== src/Final/Deployed.antt =====
-- The application's own parts keep the row of a decided request: the local tool client, the client
-- of the language model, and the guards before the endpoints.
use agentic_ai.Base.{String, ◌≡◌, ◌≢◌, some, List}
use agentic_ai.Domain.Errors.{Result, ok, err}
use agentic_ai.Store.{ApprovalRow, find_approval}
use agentic_ai.World.{Env, World, Action, pure, raise, ◌>>=◌, record_mcp_result}
use agentic_ai.Wire.{Payload}
use agentic_ai.LocalClient.{
  Cut, Cuts, in_time, cut_before, cut_after, wrapped, with_timeout, counted, invoke_local_tool,
  local_client,
}
use agentic_ai.Llm.{Model, llm_client}
use agentic_ai.Auth.{AuthSettings, Introspection}
use agentic_ai.RateLimit.{Limits}
use agentic_ai.App.{AppState, ApiRequest, post_all}
use agentic_ai.App.Guards.{post_all-Keeps}
use agentic_ai.App.Deployed.{application, deployed, connected}
use agentic_ai.Billing.{BillingMcpClient}
use agentic_ai.RemoteClient.{Remote, remote_client}
use agentic_ai.Final.Rows.{Final}
use agentic_ai.World.Preserves.{preserves_rules}
use agentic_ai.Final.Keeps.{Held, IsHeld, Retains, finality}
use agentic_ai.Final.Program.{ClientRetains, finality-Program}
use agentic_ai.Final.Tools.{
  create_credit_tool-Retains, request_approval_tool-Retains, remote_client-Retains,
}
use agentic_ai.Preserved.Requests.{handle-Kept}
use agentic_ai.Preserved.Local.{local_client-Preserves, parse_request-Preserves}

module _ (k : String) (a : ApprovalRow) where
  timed-IsHeld :
      (c : Cut) (m : Action Payload) (env : Env) (w : World)
      → Held k a w
      → IsHeld k a (m env w)
      → IsHeld k a (with_timeout c m env w)
  unfolding with_timeout
  timed-IsHeld in_time m env w h r = wrapped-IsHeld (m env w) r
    where
      wrapped-IsHeld : (o : Result Payload × World) → IsHeld k a o → IsHeld k a (wrapped o)
      wrapped-IsHeld (ok p, v) g = record { holds = g.holds }
      wrapped-IsHeld (err e, v) g = record { holds = g.holds }
  timed-IsHeld cut_before m env w h r = record { holds = h.kept }
  timed-IsHeld cut_after m env w h r = record { holds = left (m env w) r }
    where
      left : (o : Result Payload × World) → IsHeld k a o → Final k a o.1.stored
      left (ok p, v) g = g.holds.kept
      left (err e, v) g = g.holds

  counted-IsHeld :
      (tool : String) (r : Result Payload) (env : Env) (w : World)
      → IsHeld k a (r, w)
      → IsHeld k a (counted tool r env w)
  unfolding record_mcp_result pure raise ◌>>=◌
  counted-IsHeld tool (ok p) env w h = record {
    holds = record { seen = h.holds.seen; kept = h.holds.kept };
  }
  counted-IsHeld tool (err e) env w h = record { holds = h.holds }

  tool-Retains :
      (cuts : Cuts) (tool : String) (call : Action Payload)
      → Retains k a call
      → Retains k a (invoke_local_tool cuts tool call)
  unfolding invoke_local_tool
  tool-Retains cuts tool call r = record {
    at = λ env x w h.
        counted-IsHeld tool (with_timeout (cuts tool w) call env w).0 env
          (with_timeout (cuts tool w) call env w).1
          (timed-IsHeld (cuts tool w) call env w h (r.at env x w h));
  }

  local_client-Retains : (cuts : Cuts) → ClientRetains k a (local_client cuts)
  unfolding local_client
  local_client-Retains cuts = record {
    preserves = local_client-Preserves (finality k a) cuts;
    approval =
        λ c i n. search (preserves_rules, tool-Retains, request_approval_tool-Retains k a) depth 10;
    credit =
        λ c i n m. search (preserves_rules, tool-Retains, create_credit_tool-Retains k a) depth 10;
  }

module _ (k : String) (a : ApprovalRow) (client : BillingMcpClient)
    (keeps : ClientRetains k a client) (limits : Limits) (auth : AuthSettings)
    (provider : String → Introspection) (model : Model) (env : Env)
    (settled : a.status ≢ "PENDING") where
  application-Final :
      (rs : List ApiRequest) (s : AppState)
      → Final k a s.world.stored
      → Final k a (post_all (application client limits auth provider model) env rs s).world.stored
  application-Final rs s found =
      post_all-Keeps (Final k a) (application client limits auth provider model) env
        (λ r w h.
          handle-Kept (finality k a) (some client) (llm_client model)
            (finality-Program k a client (llm_client model) keeps
              (parse_request-Preserves (finality k a) model) settled)
            env r w tt h)
        rs s found

-- A request for approval that is no longer pending keeps its row, whatever requests are sent: its
-- status, its amount, its approver and the instant of the decision.
pub deployed-Final :
    (k : String) (a : ApprovalRow) (limits : Limits) (auth : AuthSettings)
    (provider : String → Introspection) (cuts : Cuts) (model : Model) (env : Env)
    (rs : List ApiRequest) (s : AppState)
    → a.status ≢ "PENDING"
    → find_approval k s.world.stored ≡ some a
    → find_approval k (post_all (deployed limits auth provider cuts model) env rs s).world.stored
      ≡ some a
deployed-Final k a limits auth provider cuts model env rs s settled found =
    application-Final k a (local_client cuts) (local_client-Retains k a cuts) limits auth provider
      model env settled rs s found

-- The same with the tools over the network, whatever POSTs and responses get lost there.
pub connected-Final :
    (k : String) (a : ApprovalRow) (limits : Limits) (auth : AuthSettings)
    (provider : String → Introspection) (remote : Remote) (model : Model) (env : Env)
    (rs : List ApiRequest) (s : AppState)
    → a.status ≢ "PENDING"
    → find_approval k s.world.stored ≡ some a
    → find_approval k (post_all (connected limits auth provider remote model) env rs s).world.stored
      ≡ some a
connected-Final k a limits auth provider remote model env rs s settled found =
    application-Final k a (remote_client remote) (remote_client-Retains k a remote) limits auth
      provider model env settled rs s found
