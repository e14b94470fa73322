-- ===== src/App/Guards.antt =====
-- What the endpoints keep of the committed tables, the application keeps: its guards touch none.
use agentic_ai.Base.{Bool, true, false, List, [], ◌∷◌}
use agentic_ai.Domain.Errors.{Result, ok, err}
use agentic_ai.Store.{Tables}
use agentic_ai.World.{Env, World}
use agentic_ai.Auth.{CallerContext, Permission, authorize}
use agentic_ai.RateLimit.{Windows, rate_limit_chat, rate_limit_approval}
use agentic_ai.Routes.{ChatResponse, Request, chats, decides, handle, chat, approval_decision}
use agentic_ai.App.{
  App, AppState, ApiRequest, post_chat, post_decision, post, post_all, is_chat_request,
  is_action_request, ticked, limited, permitted,
}

module _ (P : Tables → Type 0) where
  -- What an endpoint's session leaves, behind any outcome of the rate limit and the validation.
  limited-Keeps :
      (l : Result (Unit {0}) × Windows) (valid : Bool)
      (endpoint : World → Result ChatResponse × World) (w : World)
      → P w.stored
      → P (endpoint w).1.stored
      → P (limited l valid endpoint w).1.world.stored
  limited-Keeps (err e, windows) valid endpoint w h k = h
  limited-Keeps (ok x, windows) false endpoint w h k = h
  limited-Keeps (ok x, windows) true endpoint w h k = k

  guarded-Keeps :
      (p : Result CallerContext) (l : Result (Unit {0}) × Windows) (valid : Bool)
      (endpoint : World → Result ChatResponse × World) (s : AppState)
      → P s.world.stored
      → P (endpoint (ticked s.world)).1.stored
      → P (permitted p (limited l valid endpoint (ticked s.world)) s).1.world.stored
  guarded-Keeps (err e) l valid endpoint s h k = h
  guarded-Keeps (ok c) l valid endpoint s h k = limited-Keeps l valid endpoint (ticked s.world) h k

module _ (P : Tables → Type 0) (app : App) (env : Env)
    (served : (r : Request) (w : World)
      → P w.stored
      → P (handle app.client app.llm r env w).stored) where
  post-Keeps :
      (r : ApiRequest) (s : AppState) → P s.world.stored → P (post app env r s).1.world.stored
  unfolding post handle
  post-Keeps (post_chat h m c i) s safe =
      guarded-Keeps P (authorize app.auth app.provider Permission.write h)
        (rate_limit_chat app.limits h.x_api_key (env.now s.world.draws) s.windows)
        (is_chat_request m c i) (chat app.client app.llm m c i env) s safe
        (served (chats m c i) (ticked s.world) safe)
  post-Keeps (post_decision h k d by) s safe =
      guarded-Keeps P (authorize app.auth app.provider Permission.approve h)
        (rate_limit_approval app.limits h.x_api_key (env.now s.world.draws) s.windows)
        (is_action_request d by) (approval_decision app.client k d by env) s safe
        (served (decides k d by) (ticked s.world) safe)

  pub post_all-Keeps :
      (rs : List ApiRequest) (s : AppState)
      → P s.world.stored
      → P (post_all app env rs s).world.stored
  unfolding post_all
  post_all-Keeps [] s h = h
  post_all-Keeps (r ∷ rs) s h = post_all-Keeps rs (post app env r s).1 (post-Keeps r s h)
