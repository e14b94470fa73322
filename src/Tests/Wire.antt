-- ===== src/Tests/Wire.antt =====
-- A contract on its way through the tool server, and calls of the server with and without its token.
use agentic_ai.Base.{◌≡◌, refl, none, List, [], ◌∷◌}
use agentic_ai.Base.Int.{pos}
use agentic_ai.Base.Text.{upper}
use agentic_ai.Base.Lists.{keep}
use agentic_ai.Domain.Status.{ContractStatus}
use agentic_ai.Domain.Errors.{ok}
use agentic_ai.Domain.Models.{Contract, money}
use agentic_ai.Wire.{contract_payload, contract_result}
use agentic_ai.Wire.RoundTrip.{IsMoney, contract_result-payload}
use agentic_ai.McpServer.Api.{
  ToolCall, credit_request, invoice_request, has_token, post_tools, post_tools-authorized,
}
use agentic_ai.Fixtures.{test_env, seeded}

abbrev contract : Contract
contract = record {
  id = "CON-001";
  customer_id = "CUST-001";
  monthly_price = record { amount = pos 10000; currency = "USD" };
  effective_from = 100;
  effective_to = none;
  status = ContractStatus.active;
}

contract-IsMoney : IsMoney contract.monthly_price
unfolding money upper
contract-IsMoney = refl

contract_result-payload_example : contract_result (contract_payload contract) ≡ ok contract
contract_result-payload_example = contract_result-payload contract contract-IsMoney

abbrev tool_calls : List ToolCall
tool_calls =
    record { x_mcp_token = "guess"; request = credit_request "CUST-001" "INV-001" "999.00" "mine" }
    ∷ record { x_mcp_token = "dev-token"; request = invoice_request "CUST-001" }
    ∷ []

post_tools-authorized_example :
    post_tools "dev-token" tool_calls test_env seeded
    ≡ post_tools "dev-token" (keep (has_token "dev-token") tool_calls) test_env seeded
post_tools-authorized_example = post_tools-authorized "dev-token" tool_calls test_env seeded
