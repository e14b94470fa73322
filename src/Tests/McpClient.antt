-- ===== src/Tests/McpClient.antt =====
-- The client of src/infrastructure/mcp/client.py against a server that is down, and one that recovers.
use agentic_ai.Base.{
  is_some, ◌*◌, ◌≤◌, ◌≡◌, ◌↔◌, [], ◌∷◌, refl, arith, leb, ltb, ◌&&◌, if◌then◌else◌,
}
use agentic_ai.Domain.Errors.{ok}
use agentic_ai.Payload.{text}
use agentic_ai.McpClient.{
  Transport, McpSettings, answered, object, not_object, timed_out, read_reply,
  ensure_circuit_closed, record_success, record_failure, retry_backoff, attempts_from,
  invoke_http_tool, new_client, calls,
}
use agentic_ai.McpClient.Outcome.{Answers, invoke-Answers}
use agentic_ai.McpClient.Breaker.{outage-opens}
use agentic_ai.McpClient.Outage.{outage-posts}

-- The default settings, in tenths of a second.
abbrev pub defaults : McpSettings
defaults = record {
  mcp_retry_attempts = 3;
  mcp_retry_backoff_seconds = 2;
  mcp_circuit_breaker_threshold = 3;
  mcp_circuit_breaker_cooldown_seconds = 300;
}

abbrev dead : Transport
dead = record { post = λ n. timed_out; is_success = λ c. leb 200 c && ltb c 300; now = λ n. 7 }

abbrev recovers : Transport
recovers = record dead {
  post = λ n.
      if leb 1 n then answered 200 (object (("customer_id", text "CUST-001") ∷ [])) else timed_out;
}

recovers_at_second :
    invoke_http_tool recovers defaults new_client
    ≡ (ok (("customer_id", text "CUST-001") ∷ []), record new_client { posts = 2; sleeps = 2 ∷ [] })
unfolding invoke_http_tool ensure_circuit_closed attempts_from read_reply retry_backoff
    record_success
recovers_at_second = refl

-- Twenty calls, nine requests.
dead_nine : (calls dead defaults 20 new_client).posts ≡ 9
unfolding calls invoke_http_tool ensure_circuit_closed attempts_from read_reply retry_backoff
    record_failure
dead_nine = refl

invoke-Answers_example :
    ((invoke_http_tool recovers defaults new_client).0 ≡ ok (("customer_id", text "CUST-001") ∷ []))
    ↔ Answers recovers 3 0 (("customer_id", text "CUST-001") ∷ [])
invoke-Answers_example =
    invoke-Answers recovers defaults new_client (("customer_id", text "CUST-001") ∷ []) refl

outage-opens_example : is_some (calls dead defaults 20 new_client).circuit_open_until ≡ leb 3 20
unfolding read_reply
outage-opens_example = outage-opens dead defaults 20 (λ n. refl) (λ m n. omega arith) (omega arith)

-- Answers that are no objects make every call raise, and are not counted.
abbrev listing : Transport
listing = record dead { post = λ n. answered 200 not_object }

uncounted : (calls listing defaults 10 new_client).consecutive_failures ≡ 0
unfolding calls invoke_http_tool ensure_circuit_closed attempts_from read_reply retry_backoff
    record_failure
uncounted = refl

outage-posts_example : (calls dead defaults 20 new_client).posts ≤ 3 * 3
unfolding read_reply
outage-posts_example = outage-posts dead defaults 20 (λ n. refl) (λ m n. omega arith) (omega arith)
