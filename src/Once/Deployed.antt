-- ===== src/Once/Deployed.antt =====
-- The credits of one claim in the application with its own parts, in local mode.
use agentic_ai.Base.{String, ◌≡◌, false, some, List}
use agentic_ai.World.{Env}
use agentic_ai.Auth.{AuthSettings, Introspection}
use agentic_ai.RateLimit.{Limits}
use agentic_ai.Llm.{Model, llm_client}
use agentic_ai.LocalClient.{Cuts, local_client}
use agentic_ai.App.{AppState, ApiRequest, post_all}
use agentic_ai.App.Guards.{post_all-Keeps}
use agentic_ai.App.Deployed.{deployed}
use agentic_ai.Preserved.Requests.{handle-Kept}
use agentic_ai.Preserved.Local.{local_client-Preserves, parse_request-Preserves}
use agentic_ai.Once.Rows.{IsOnce}
use agentic_ai.Once.Keeps.{once}
use agentic_ai.Once.Program.{once-Program}

-- In local mode, whatever the language model answers, whichever tools time out, and whichever flushes
-- the database refuses: if the committed credits are of different claims, each with a known key, they
-- are after any sequence of requests. A claim is the request id, the customer, the invoice and the
-- amount.
pub deployed-IsOnce :
    (limits : Limits) (auth : AuthSettings) (provider : String → Introspection) (cuts : Cuts)
    (model : Model) (env : Env) (rs : List ApiRequest) (s : AppState)
    → env.settings.http_mode ≡ false
    → IsOnce s.world.stored
    → IsOnce (post_all (deployed limits auth provider cuts model) env rs s).world.stored
deployed-IsOnce limits auth provider cuts model env rs s local apart =
    post_all-Keeps IsOnce (deployed limits auth provider cuts model) env
      (λ r w h.
        handle-Kept once (some (local_client cuts)) (llm_client model)
          (once-Program (some (local_client cuts)) (llm_client model)
            (local_client-Preserves once cuts) (parse_request-Preserves once model))
          env r w local h)
      rs s apart
