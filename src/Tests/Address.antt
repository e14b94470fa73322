-- ===== src/Tests/Address.antt =====
-- The configured default address of the tool server, with the path of the protocol.
use agentic_ai.Base.{◌≡◌, refl, none}
use agentic_ai.Base.Text.{◌+s+◌}
use agentic_ai.McpClient.Address.{rstrip, without_suffix, slashes, tool_url, tool_url-same}

bare : rstrip "http://localhost:9000" ≡ "http://localhost:9000"
unfolding rstrip
bare = refl

no_path : without_suffix "/mcp" "http://localhost:9000" ≡ none
unfolding without_suffix
no_path = refl

tool_url-same_example :
    tool_url ("http://localhost:9000" +s+ "/mcp" +s+ slashes 2) "get_customer"
    ≡ tool_url ("http://localhost:9000" +s+ slashes 1) "get_customer"
tool_url-same_example = tool_url-same "http://localhost:9000" "get_customer" 2 1 bare no_path
