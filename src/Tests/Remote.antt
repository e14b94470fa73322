-- ===== src/Tests/Remote.antt =====
-- The tool server over a network that loses the first response of a call.
use agentic_ai.Base.{
  ℕ, ◌≡◌, refl, zero, suc, none, true, some, List, [], ◌∷◌, leb, ltb, ◌&&◌, ◌==ℕ◌, if◌then◌else◌,
  arith, eq_iff,
}
use agentic_ai.Base.Int.{pos}
use agentic_ai.Base.Lists.{length}
use agentic_ai.Base.Text.{decimal, show_amount, split_on, parse_ℕ}
use agentic_ai.Domain.Models.{money}
use agentic_ai.Domain.Errors.{is_ok}
use agentic_ai.Store.{find_approval}
use agentic_ai.McpClient.{
  retries, invoke_http_tool, ensure_circuit_closed, attempts_from, read_reply, retry_backoff,
  record_success,
}
use agentic_ai.World.{
  ◌>>=◌, now, uuid4, flush, commit, with_session, pure, lift, raise, record_mcp_result,
}
use agentic_ai.Repository.{create_credit}
use agentic_ai.Billing.{settings, billing_facts}
use agentic_ai.McpServer.{create_credit_tool, with_token}
use agentic_ai.McpServer.Api.{
  run_tool, post_tool, credit_request, invoice_request, approval_tool_request,
}
use agentic_ai.RemoteClient.{
  Network, delivered, response_lost, timeout, Remote, reached, invoke_remote, invoke_remote_tool,
  remote_client,
}
use agentic_ai.RemoteClient.Credited.{Credited, claimed, one_if}
use agentic_ai.RemoteClient.Credits.{create_credit-Credited}
use agentic_ai.RemoteClient.Classification.{invoke_remote_tool-reads}
use agentic_ai.RemoteClient.Reads.{one_delivered}
use agentic_ai.RemoteClient.Facts.{remote_client_facts}
use agentic_ai.Facts.{value_of}
use agentic_ai.App.{post_decision}
use agentic_ai.App.Deployed.{connected}
use agentic_ai.Deployment.{Event, asked, sent, called, occur_all}
use agentic_ai.Final.Deployment.{deployment-Final}
use agentic_ai.Fixtures.{test_env, seeded, waiting, waiting_world}
use agentic_ai.Tests.App.{failing_model}
use agentic_ai.Tests.Auth.{by_key, approver, provider}
use agentic_ai.Tests.McpClient.{defaults}
use agentic_ai.Tests.RateLimit.{two}

abbrev pub lossy : Network
lossy = record {
  delivery = λ n. if n ==ℕ 0 then response_lost timeout else delivered;
  is_success = λ c. leb 200 c && ltb c 300;
  now = λ n. 7;
}

abbrev pub lossy_remote : Remote
lossy_remote = record {
  network = lossy;
  mcp = defaults;
  client_token = "token";
  server_token = "token";
}

create_credit-Credited_example :
    Credited
      (claimed "CUST-001" "INV-001" (pos 1000) "Billing discrepancy" test_env)
      (one_if (
        is_ok
          ((remote_client lossy_remote).create_credit "CUST-001" "INV-001"
            (pos 1000)
            "Billing discrepancy"
            test_env
            seeded).0))
      (suc (retries defaults))
      seeded.stored.credits
      ((remote_client lossy_remote).create_credit "CUST-001" "INV-001"
        (pos 1000)
        "Billing discrepancy"
        test_env
        seeded).1.stored.credits
create_credit-Credited_example =
    create_credit-Credited lossy_remote "CUST-001" "INV-001" (pos 1000) "Billing discrepancy"
      test_env seeded refl

-- A request, a POST without the token, and a call through the protocol.
abbrev events : List Event
events =
    asked (post_decision approver "A1" "reject" "boss")
    ∷ sent (record {
      x_mcp_token = "guess";
      request = credit_request "CUST-001" "INV-001" "10.00" "x";
    })
    ∷ called (approval_tool_request "CUST-001" "INV-001" "40.00")
    ∷ []

deployment-Final_example :
    find_approval "A1"
      (occur_all
        (connected two by_key provider lossy_remote failing_model)
        "token"
        test_env
        events
        (record { windows = λ key. []; world = waiting_world "APPROVED" 5000 })).world.stored
    ≡ some (waiting "APPROVED" 5000)
deployment-Final_example =
    deployment-Final "A1" (waiting "APPROVED" 5000) two by_key provider lossy_remote failing_model
      "token" test_env events
      (record { windows = λ key. []; world = waiting_world "APPROVED" 5000 })
      (ground (arith, eq_iff "APPROVED" "PENDING")) refl

lossy_through : (n : ℕ) → one_delivered lossy 3 n ≡ true
lossy_through zero = refl
lossy_through (suc n) = ground arith

remote_client_facts_example :
    value_of (billing_facts (some (remote_client lossy_remote)) "CUST-001" test_env seeded).0
    ≡ value_of (billing_facts none "CUST-001" test_env seeded).0
remote_client_facts_example =
    remote_client_facts lossy_remote "CUST-001" test_env seeded refl refl lossy_through refl refl

invoke_remote_tool-reads_example :
    ((invoke_remote_tool lossy_remote (invoice_request "CUST-001") test_env seeded).1.stored
      ≡ seeded.stored)
    × ((invoke_remote_tool lossy_remote (invoice_request "CUST-001") test_env seeded).1.pending
        ≡ seeded.pending)
invoke_remote_tool-reads_example =
    invoke_remote_tool-reads lossy_remote (invoice_request "CUST-001") test_env seeded refl

-- The first POST ran the tool, its response was lost, and the second ran it again.
credited_twice :
    length
      ((remote_client lossy_remote).create_credit "CUST-001" "INV-001"
        (pos 1000)
        "Billing discrepancy"
        test_env
        seeded).1.stored.credits
    ≡ 2
unfolding remote_client invoke_remote_tool invoke_remote reached invoke_http_tool
    ensure_circuit_closed attempts_from read_reply retry_backoff record_success post_tool run_tool
    with_token create_credit_tool settings create_credit flush commit with_session now uuid4 pure
    lift raise ◌>>=◌ record_mcp_result decimal show_amount split_on parse_ℕ money
credited_twice = refl
