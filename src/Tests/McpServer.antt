-- ===== src/Tests/McpServer.antt =====
-- The tools of mcp_server/services/billing_service.py on the seeded database.
use agentic_ai.Base.{◌≡◌, refl, none}
use agentic_ai.Base.Text.{decimal, parse_ℕ, split_on}
use agentic_ai.Domain.Errors.{not_found, ok, err}
use agentic_ai.Routes.{approval_decision}
use agentic_ai.McpServer.{ApprovalResult, request_approval_tool}
use agentic_ai.McpServer.Unresolved.{request_approval-IsUnresolved}
use agentic_ai.Fixtures.{program, test_env, seeded}

abbrev asked : ApprovalResult
asked = record {
  approval_id = "4";
  customer_id = "CUST-001";
  invoice_id = "INV-001";
  amount = "50.00";
  status = "pending";
}

tool_asks : (request_approval_tool "CUST-001" "INV-001" "50.00" test_env seeded).0 ≡ ok asked
unfolding program request_approval_tool decimal parse_ℕ split_on
tool_asks = refl

request_approval-IsUnresolved_example :
    (approval_decision none "4" "approve" "ann" test_env
      (request_approval_tool "CUST-001" "INV-001" "50.00" test_env seeded).1).0
    ≡ err (not_found "Approval request not found")
request_approval-IsUnresolved_example =
    request_approval-IsUnresolved "CUST-001" "INV-001" "50.00" test_env seeded asked none "approve"
      "ann" refl refl tool_asks
