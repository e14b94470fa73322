-- ===== src/App/Passes.antt =====
-- Nothing is committed past the guards of a request.
use agentic_ai.Base.{◌≡◌, ◌≢◌, true, arith}
use agentic_ai.Domain.Errors.{is_ok}
use agentic_ai.World.{Env}
use agentic_ai.Auth.{Permission, authorize}
use agentic_ai.RateLimit.{rate_limit_chat, rate_limit_approval}
use agentic_ai.App.{
  App, AppState, ApiRequest, post_chat, post_decision, post, is_chat_request, is_action_request,
}

-- The guards of a request: its permission, its caller's rate limit, and the form of its body.
abbrev pub Passes : App → Env → ApiRequest → AppState → Type 0
Passes app env (post_chat h m c i) s =
    (is_ok (authorize app.auth app.provider Permission.write h) ≡ true)
    × (is_ok (rate_limit_chat app.limits h.x_api_key (env.now s.world.draws) s.windows).0 ≡ true)
    × (is_chat_request m c i ≡ true)
Passes app env (post_decision h k d by) s =
    (is_ok (authorize app.auth app.provider Permission.approve h) ≡ true)
    × (is_ok (rate_limit_approval app.limits h.x_api_key (env.now s.world.draws) s.windows).0
        ≡ true)
    × (is_action_request d by ≡ true)

-- A request that changes what is committed carries the credentials that its endpoint requires, is
-- within its caller's rate limit, and has a well-formed body.
pub post-Passes :
    (app : App) (env : Env) (r : ApiRequest) (s : AppState)
    → (post app env r s).1.world.stored ≢ s.world.stored
    → Passes app env r s
unfolding post
post-Passes app env (post_chat h m c i) s changed = ground arith
post-Passes app env (post_decision h k d by) s changed = ground arith
