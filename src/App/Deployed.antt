-- ===== src/App/Deployed.antt =====
-- The application with its own parts keeps the money rules: the tool client in local mode and the
-- client of the language model, whatever that answers.
use agentic_ai.Base.{String, ◌≡◌, false, some, List, [], ◌∷◌}
use agentic_ai.World.{Env, World}
use agentic_ai.Safety.Tables.{IsSafe}
use agentic_ai.Safety.Requests.{serve-IsSafe}
use agentic_ai.Auth.{AuthSettings, Introspection}
use agentic_ai.RateLimit.{Limits}
use agentic_ai.Llm.{Model, llm_client}
use agentic_ai.Llm.Safe.{parse_request-KeepsSound}
use agentic_ai.LocalClient.{Cuts, local_client}
use agentic_ai.LocalClient.Reads.{local_client-ReadsSoundly}
use agentic_ai.Routes.{Request, handle, serve}
use agentic_ai.RemoteClient.{Remote, remote_client}
use agentic_ai.Billing.{BillingMcpClient}
use agentic_ai.App.{App, AppState, ApiRequest, post_all}
use agentic_ai.App.Guards.{post_all-Keeps}

-- The application with a tool client.
abbrev pub application :
    BillingMcpClient → Limits → AuthSettings → (String → Introspection) → Model → App
application client limits auth provider model = record {
  limits = limits;
  auth = auth;
  provider = provider;
  client = some client;
  llm = llm_client model;
}

abbrev pub deployed : Limits → AuthSettings → (String → Introspection) → Cuts → Model → App
deployed limits auth provider cuts = application (local_client cuts) limits auth provider

-- The application that calls its tools over http.
abbrev pub connected : Limits → AuthSettings → (String → Introspection) → Remote → Model → App
connected limits auth provider remote = application (remote_client remote) limits auth provider

module _ (cuts : Cuts) (model : Model) (env : Env) (local : env.settings.http_mode ≡ false) where
  served-IsSafe :
      (r : Request) (w : World)
      → IsSafe env.settings w.stored
      → IsSafe env.settings (handle (some (local_client cuts)) (llm_client model) r env w).stored
  unfolding serve
  served-IsSafe r w =
      serve-IsSafe (some (local_client cuts)) (local_client-ReadsSoundly cuts) (llm_client model)
        (λ m. parse_request-KeepsSound model m) env local (r ∷ []) w

-- Whatever the language model answers, and whichever tools time out: in local mode, if the committed
-- tables satisfy the money rules, they do after any sequence of requests. So every credit is a
-- positive amount within the automatic limit or repeats the claim of an approved request, and every
-- request for approval lies above that limit and within the maximum.
pub deployed-IsSafe :
    (limits : Limits) (auth : AuthSettings) (provider : String → Introspection) (cuts : Cuts)
    (model : Model) (env : Env) (rs : List ApiRequest) (s : AppState)
    → env.settings.http_mode ≡ false
    → IsSafe env.settings s.world.stored
    → IsSafe env.settings
        (post_all (deployed limits auth provider cuts model) env rs s).world.stored
deployed-IsSafe limits auth provider cuts model env rs s local safe =
    post_all-Keeps (IsSafe env.settings) (deployed limits auth provider cuts model) env
      (served-IsSafe cuts model env local) rs s safe
