-- ===== src/Tests/RemoteDecision.antt =====
-- A decision over a network that loses every response of a call.
use agentic_ai.Base.{◌≡◌, refl, suc, true, some, ltb, if◌then◌else◌}
use agentic_ai.Base.Int.{pos}
use agentic_ai.Base.Lists.{length}
use agentic_ai.Base.Text.{decimal, show_amount, split_on, parse_ℕ, show_ℕ, digits_fuel, scan_ℕ}
use agentic_ai.Domain.Models.{money}
use agentic_ai.Domain.Errors.{external_service, err}
use agentic_ai.Store.{find_approval}
use agentic_ai.World.{
  Env, ◌>>=◌, now, uuid4, flush, commit, with_session, pure, lift, raise, query, record_mcp_result,
}
use agentic_ai.Repository.{
  create_credit, get_workflow_by_approval, with_workflow, set_approval_decision, ensure_idempotency,
  insert_key,
}
use agentic_ai.Billing.{
  settings, process_approval, decide, approve, create_credit_if_allowed, issue_credit,
  credit_reason,
}
use agentic_ai.McpClient.{
  invoke_http_tool, ensure_circuit_closed, attempts_from, read_reply, retry_backoff, record_failure,
  retries,
}
use agentic_ai.McpServer.{create_credit_tool, with_token}
use agentic_ai.McpServer.Api.{run_tool, post_tool}
use agentic_ai.RemoteClient.{
  delivered, response_lost, timeout, Remote, reached, invoke_remote, invoke_remote_tool,
  remote_client,
}
use agentic_ai.RemoteClient.Credited.{claimed}
use agentic_ai.RemoteClient.Added.{Added}
use agentic_ai.RemoteClient.Decision.{approval_decision-Added}
use agentic_ai.Routes.{approval_decision}
use agentic_ai.Fixtures.{default_settings, test_env, waiting, waiting_world}
use agentic_ai.Tests.McpClient.{defaults}
use agentic_ai.Tests.Remote.{lossy, lossy_remote}

abbrev deaf : Remote
deaf = record lossy_remote {
  network = record lossy { delivery = λ n. if ltb n 3 then response_lost timeout else delivered };
}

abbrev http_env : Env
http_env = record test_env { settings = record default_settings { http_mode = true } }

fails :
    (approval_decision
      (some (remote_client deaf))
      "A1"
      "approve"
      "boss"
      http_env
      (waiting_world "PENDING" 5000)).0
    ≡ err (external_service "MCP request timed out")
unfolding approval_decision with_session ◌>>=◌ process_approval get_workflow_by_approval
    with_workflow query lift raise pure now decide approve set_approval_decision flush
    create_credit_if_allowed ensure_idempotency insert_key settings issue_credit remote_client
    invoke_remote_tool invoke_remote reached invoke_http_tool ensure_circuit_closed attempts_from
    read_reply retry_backoff record_failure post_tool run_tool with_token create_credit_tool
    create_credit commit uuid4 record_mcp_result
fails = refl

approval_decision-Added_example :
    Added
      (claimed "CUST-001" "INV-001" (pos 5000) credit_reason http_env)
      (suc (retries defaults))
      (waiting_world "PENDING" 5000).stored
      (approval_decision
        (some (remote_client deaf))
        "A1"
        "approve"
        "boss"
        http_env
        (waiting_world "PENDING" 5000)).1.stored
approval_decision-Added_example =
    approval_decision-Added deaf "A1" "approve" "boss" http_env (waiting_world "PENDING" 5000)
      (waiting "PENDING" 5000) refl refl fails

-- The request is still open, and its credit was issued three times.
credited_thrice :
    let t =
      (approval_decision
        (some (remote_client deaf))
        "A1"
        "approve"
        "boss"
        http_env
        (waiting_world "PENDING" 5000)).1.stored in
    (length t.credits ≡ 3) × (find_approval "A1" t ≡ some (waiting "PENDING" 5000))
unfolding approval_decision with_session ◌>>=◌ process_approval get_workflow_by_approval
    with_workflow query lift raise pure now decide approve set_approval_decision flush
    create_credit_if_allowed ensure_idempotency insert_key settings issue_credit remote_client
    invoke_remote_tool invoke_remote reached invoke_http_tool ensure_circuit_closed attempts_from
    read_reply retry_backoff record_failure post_tool run_tool with_token create_credit_tool
    create_credit commit uuid4 record_mcp_result decimal show_amount split_on parse_ℕ money show_ℕ
    digits_fuel scan_ℕ
credited_thrice = (refl, refl)
