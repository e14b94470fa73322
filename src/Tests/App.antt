-- ===== src/Tests/App.antt =====
-- The application with its own parts on the seeded database: requests with and without credentials, a
-- language model that fails, and tools that answer in time.
use agentic_ai.Base.{◌≡◌, ◌≢◌, refl, none, some, List, [], ◌∷◌, arith, eq_iff, ap}
use agentic_ai.Base.Lists.{keep}
use agentic_ai.Store.{find_approval}
use agentic_ai.Auth.{Headers, authorize, resolve_permission}
use agentic_ai.RateLimit.{check_rate_limit, popleft, rate_limit_approval}
use agentic_ai.Billing.{billing_facts}
use agentic_ai.Llm.{Model, interrupted}
use agentic_ai.LocalClient.{Cuts, in_time, local_client}
use agentic_ai.LocalClient.Facts.{local_client_facts}
use agentic_ai.Facts.{value_of}
use agentic_ai.Safety.Tables.{IsSafe}
use agentic_ai.App.{
  App, AppState, ApiRequest, post_chat, post_decision, post, post_all, is_authorized,
}
use agentic_ai.App.Access.{post_all-authorized}
use agentic_ai.App.Passes.{Passes, post-Passes}
use agentic_ai.App.Deployed.{deployed, deployed-IsSafe}
use agentic_ai.Final.Deployed.{deployed-Final}
use agentic_ai.Once.Rows.{IsOnce}
use agentic_ai.Once.Deployed.{deployed-IsOnce}
use agentic_ai.Fixtures.{program, test_env, default_settings, seeded, waiting, waiting_world}
use agentic_ai.Tests.Auth.{by_key, approver, provider}
use agentic_ai.Tests.RateLimit.{two}

abbrev stranger : Headers
stranger = record approver { x_api_key = "guess" }

abbrev pub failing_model : Model
failing_model = record { acompletion = λ m w. interrupted; parse = λ s. none }

abbrev timely : Cuts
timely tool w = in_time

abbrev app : App
app = deployed two by_key provider timely failing_model

abbrev state_of : AppState
state_of = record { windows = λ key. []; world = waiting_world "PENDING" 5000 }

abbrev pub requests : List ApiRequest
requests =
    post_chat stranger "My bill is wrong" "CUST-001" none
    ∷ post_chat approver "I was charged $150.00 instead of $100.00" "CUST-001" (some "r-9")
    ∷ post_decision approver "A1" "reject" "boss"
    ∷ []

deployed-IsSafe_example :
    IsSafe default_settings
      (post_all app test_env requests (record { windows = λ key. []; world = seeded })).world.stored
deployed-IsSafe_example =
    deployed-IsSafe two by_key provider timely failing_model test_env requests
      (record { windows = λ key. []; world = seeded }) refl (record { bounded = tt; covered = tt })

deployed-IsOnce_example :
    IsOnce
      (post_all app test_env requests (record { windows = λ key. []; world = seeded })).world.stored
deployed-IsOnce_example =
    deployed-IsOnce two by_key provider timely failing_model test_env requests
      (record { windows = λ key. []; world = seeded }) refl (record { distinct = tt; known = tt })

deployed-Final_example :
    find_approval "A1"
      (post_all app test_env requests
        (record { windows = λ key. []; world = waiting_world "APPROVED" 5000 })).world.stored
    ≡ some (waiting "APPROVED" 5000)
deployed-Final_example =
    deployed-Final "A1" (waiting "APPROVED" 5000) two by_key provider timely failing_model test_env
      requests (record { windows = λ key. []; world = waiting_world "APPROVED" 5000 })
      (ground (arith, eq_iff "APPROVED" "PENDING")) refl

post_all-authorized_example :
    post_all app test_env requests state_of
    ≡ post_all app test_env (keep (is_authorized app) requests) state_of
post_all-authorized_example = post_all-authorized app test_env requests state_of

rejected :
    (post app test_env (post_decision approver "A1" "reject" "boss") state_of).1.world.stored
    ≢ (waiting_world "PENDING" 5000).stored
unfolding program post authorize resolve_permission rate_limit_approval check_rate_limit popleft
rejected e = let h = ap (λ t. t.approvals) e in cc

post-Passes_example : Passes app test_env (post_decision approver "A1" "reject" "boss") state_of
post-Passes_example =
    post-Passes app test_env (post_decision approver "A1" "reject" "boss") state_of rejected

local_client_facts_example :
    value_of (billing_facts (some (local_client timely)) "CUST-001" test_env seeded).0
    ≡ value_of (billing_facts none "CUST-001" test_env seeded).0
local_client_facts_example =
    local_client_facts timely (λ tool w. refl) "CUST-001" test_env seeded refl
