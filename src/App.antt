-- ===== src/App.antt =====
-- The application behind its middleware (src/api/main.py, src/api/routes/chat.py): a request passes
-- its dependencies in their order, authorization and the rate limit, then the validation of its body
-- (src/api/schemas/chat.py), and then the endpoint. The body is parsed JSON here.
pub mod Access
pub mod Passes
pub mod Guards
pub mod Deployed
use agentic_ai.Base.{
  ℕ, suc, String, Bool, true, false, ◌&&◌, ◌||◌, Option, none, some, List, [], ◌∷◌, leb, ◌==◌,
  if◌then◌else◌, count,
}
use agentic_ai.Domain.Errors.{Error, http, Result, ok, err, is_ok}
use agentic_ai.Domain.Models.{is_customer_id}
use agentic_ai.World.{Env, World}
use agentic_ai.McpClient.{renewed}
use agentic_ai.Billing.{BillingMcpClient}
use agentic_ai.Workflow.{LlmClient}
use agentic_ai.Routes.{ChatResponse, chat, approval_decision}
use agentic_ai.RateLimit.{Limits, Windows, rate_limit_chat, rate_limit_approval}
use agentic_ai.Auth.{AuthSettings, Introspection, Headers, CallerContext, Permission, authorize}
use agentic_ai.ErrorHandler.{failure_status}

-- What the process is configured with, and the parties that it talks to.
pub record App : Type 0 where
  pub limits : Limits
  pub auth : AuthSettings
  pub provider : String → Introspection
  pub client : Option BillingMcpClient
  pub llm : LlmClient

pub record AppState : Type 0 where
  pub windows : Windows
  pub world : World

-- A request with its headers: `post_chat headers message customer_id request_id`, and
-- `post_decision headers approval_id decision approver_id`.
pub data ApiRequest : Type 0 where
  post_chat : Headers → String → String → Option String → ApiRequest
  post_decision : Headers → String → String → String → ApiRequest

pub data Answer : Type 0 where
  response : ChatResponse → Answer
  failure : ℕ → Answer

abbrev pub answer_of : Result ChatResponse → Answer
answer_of (ok r) = response r
answer_of (err e) = failure (failure_status e)

-- The constraints of `ChatRequest`.
abbrev pub is_chat_request : String → String → Option String → Bool
is_chat_request message customer_id request_id =
    (leb 1 (count message) && leb (count message) 2000)
    && (is_customer_id customer_id && fits request_id)
  where
    fits : Option String → Bool
    fits none = true
    fits (some id) = leb (count id) 64

-- The constraints of `ApprovalActionRequest`.
abbrev pub is_action_request : String → String → Bool
is_action_request decision approver_id =
    (leb 3 (count approver_id) && leb (count approver_id) 128)
    && ((decision == "approve") || (decision == "reject"))

-- The last steps: the body's validation and the endpoint, after a rate limit has been checked.
abbrev pub limited :
    Result (Unit {0}) × Windows
    → Bool
    → (World → Result ChatResponse × World)
    → World
    → Answer × AppState
limited (err e, windows) valid endpoint w =
    (failure (failure_status e), record { windows = windows; world = w })
limited (ok _, windows) false endpoint w = (failure 422, record { windows = windows; world = w })
limited (ok _, windows) true endpoint w =
    let (r, w') = endpoint w in (answer_of r, record { windows = windows; world = w' })

-- The dependency on a permission, before the others.
abbrev pub permitted : Result CallerContext → Answer × AppState → AppState → Answer × AppState
permitted (err e) rest s = (failure (failure_status e), s)
permitted (ok caller) rest s = rest

-- The limiter has read the clock once, and the request has a tool client of its own.
abbrev pub ticked : World → World
ticked w = record w { draws = suc w.draws; mcp_client = renewed w.mcp_client }

unfoldable pub post : App → Env → ApiRequest → AppState → Answer × AppState
post app env (post_chat h message customer_id request_id) s =
    permitted (authorize app.auth app.provider Permission.write h)
      (limited (rate_limit_chat app.limits h.x_api_key (env.now s.world.draws) s.windows)
        (is_chat_request message customer_id request_id)
        (chat app.client app.llm message customer_id request_id env) (ticked s.world))
      s
post app env (post_decision h approval_id decision approver_id) s =
    permitted (authorize app.auth app.provider Permission.approve h)
      (limited (rate_limit_approval app.limits h.x_api_key (env.now s.world.draws) s.windows)
        (is_action_request decision approver_id)
        (approval_decision app.client approval_id decision approver_id env) (ticked s.world))
      s

-- The state after a sequence of requests.
unfoldable pub post_all : App → Env → List ApiRequest → AppState → AppState
post_all app env [] s = s
post_all app env (r ∷ rs) s = post_all app env rs (post app env r s).1

-- Whether a request carries credentials for its endpoint.
unfoldable pub is_authorized : App → ApiRequest → Bool
is_authorized app (post_chat h message customer_id request_id) =
    is_ok (authorize app.auth app.provider Permission.write h)
is_authorized app (post_decision h approval_id decision approver_id) =
    is_ok (authorize app.auth app.provider Permission.approve h)
