-- ===== src/McpClient.antt =====
-- `BillingMCPClient._invoke_http_tool` of src/infrastructure/mcp/client.py: retries and a circuit
-- breaker around the tool server. The HTTP library, the server behind it and the clock are
-- arguments: the outcome of the n-th POST, and the n-th reading of the clock.
pub mod Address
pub mod Outcome
pub mod Breaker
pub mod Outage
pub mod Last
pub mod Closed
use agentic_ai.Base.{
  ℕ, zero, suc, ◌+◌, ◌-◌, ◌*◌, String, Bool, ◌||◌, Option, none, some, List, [], ◌∷◌, ◌++◌, ltb,
  leb, ◌==ℕ◌, if◌then◌else◌,
}
use agentic_ai.Base.Text.{◌+s+◌, show_ℕ}
use agentic_ai.Domain.Errors.{Error, external_service, Result, ok, err}
use agentic_ai.Payload.{Payload}

pub record McpSettings : Type 0 where
  pub mcp_retry_attempts : ℕ
  pub mcp_retry_backoff_seconds : ℕ
  pub mcp_circuit_breaker_threshold : ℕ
  pub mcp_circuit_breaker_cooldown_seconds : ℕ

-- The content of a response: an object, other JSON, or what `response.json()` raises on.
pub data Body : Type 0 where
  object : Payload → Body
  not_object : Body
  not_json : Error → Body

-- What comes of `client.post`: a response, or one of the library's exceptions.
pub data Reply : Type 0 where
  answered : ℕ → Body → Reply
  timed_out : Reply
  transport_failed : String → Reply

pub record Transport : Type 0 where
  pub post : ℕ → Reply
  -- `raise_for_status` passes the response on
  pub is_success : ℕ → Bool
  pub now : ℕ → ℕ

-- The client's own state, with the number of POSTs and of clock readings so far, and its sleeps.
pub record McpState : Type 0 where
  pub consecutive_failures : ℕ
  pub circuit_open_until : Option ℕ
  pub posts : ℕ
  pub readings : ℕ
  pub sleeps : List ℕ

-- What one pass of the loop comes to: a `return`, an exception that no `except` takes, an error to
-- try again after, and one to give up on.
pub data Turn : Type 0 where
  returned : Payload → Turn
  raised : Error → Turn
  again : Error → Turn
  given_up : Error → Turn

abbrev pub read_body : Body → Turn
read_body (object data') = returned data'
read_body not_object = raised (external_service "MCP response is not an object")
read_body (not_json e) = raised e

-- `status_code >= 500 or status_code == 429`
abbrev pub retryable : ℕ → Bool
retryable status_code = leb 500 status_code || (status_code ==ℕ 429)

abbrev http_failure : ℕ → Error
http_failure status_code = external_service ("MCP request failed: HTTP " +s+ show_ℕ status_code)

unfoldable pub read_reply : Transport → Reply → Turn
read_reply t (answered status_code body) =
    if retryable status_code
    then again (http_failure status_code)
    else if t.is_success status_code
    then read_body body
    else given_up (http_failure status_code)
read_reply t timed_out = again (external_service "MCP request timed out")
read_reply t (transport_failed message) =
    again (external_service ("MCP transport error: " +s+ message))

-- The client once the circuit's time is over.
abbrev pub reclosed : McpState → McpState
reclosed s = record s {
  readings = suc s.readings;
  circuit_open_until = none;
  consecutive_failures = 0;
}

unfoldable pub ensure_circuit_closed : Transport → McpState → Result (Unit {0}) × McpState
ensure_circuit_closed t s = elim s.circuit_open_until [
  | none ↦ (ok tt, s)
  | some until ↦ if leb until (t.now s.readings) then (ok tt, reclosed s) else (
    err (external_service "MCP circuit breaker is open"),
    record s { readings = suc s.readings },
  )
]

unfoldable pub record_success : McpState → McpState
record_success s = record s { consecutive_failures = 0; circuit_open_until = none }

unfoldable pub record_failure : Transport → McpSettings → McpState → McpState
record_failure t cfg s =
    if ltb (suc s.consecutive_failures) cfg.mcp_circuit_breaker_threshold
    then record s { consecutive_failures = suc s.consecutive_failures }
    else record s {
      consecutive_failures = suc s.consecutive_failures;
      circuit_open_until = some (t.now s.readings + cfg.mcp_circuit_breaker_cooldown_seconds);
      readings = suc s.readings;
    }

-- `if delay > 0: await asyncio.sleep(delay)`
unfoldable pub retry_backoff : McpSettings → ℕ → McpState → McpState
retry_backoff cfg attempt s =
    let delay = cfg.mcp_retry_backoff_seconds * attempt in
    if ltb 0 delay then record s { sleeps = s.sleeps ++ delay ∷ [] } else s

abbrev pub posted : McpState → McpState
posted s = record s { posts = suc s.posts }

-- The end of a pass, `retry` being what comes after an error to try again after.
abbrev pub take_turn :
    Transport
    → McpSettings
    → McpState
    → Turn
    → (Error → Result Payload × McpState)
    → Result Payload × McpState
take_turn t cfg s (returned data') retry = (ok data', record_success s)
take_turn t cfg s (raised e) retry = (err e, s)
take_turn t cfg s (again e) retry = retry e
take_turn t cfg s (given_up e) retry = (err e, record_failure t cfg s)

-- The loop from the pass `attempt` on, with `left` passes after it.
unfoldable pub attempts_from :
    Transport → McpSettings → ℕ → ℕ → McpState → Result Payload × McpState
attempts_from t cfg zero attempt s =
    take_turn t cfg (posted s) (read_reply t (t.post s.posts))
      (λ e. (err e, record_failure t cfg (posted s)))
attempts_from t cfg (suc left) attempt s =
    take_turn t cfg (posted s) (read_reply t (t.post s.posts))
      (λ e. attempts_from t cfg left (suc attempt) (retry_backoff cfg attempt (posted s)))

-- The passes after the first: `attempts = max(1, mcp_retry_attempts)`.
abbrev pub retries : McpSettings → ℕ
retries cfg = cfg.mcp_retry_attempts - 1

unfoldable pub invoke_http_tool : Transport → McpSettings → McpState → Result Payload × McpState
invoke_http_tool t cfg s =
    let (closed, s') = ensure_circuit_closed t s in
    elim closed [ ok _ ↦ attempts_from t cfg (retries cfg) 1 s' | err e ↦ (err e, s') ]

-- A new client, before its first call.
abbrev pub new_client : McpState
new_client = record {
  consecutive_failures = 0;
  circuit_open_until = none;
  posts = 0;
  readings = 0;
  sleeps = [];
}

-- The client of the next request, which has no failures yet; the counts go on.
abbrev pub renewed : McpState → McpState
renewed s = record s { consecutive_failures = 0; circuit_open_until = none }

-- The client after a number of calls.
unfoldable pub calls : Transport → McpSettings → ℕ → McpState → McpState
calls t cfg zero s = s
calls t cfg (suc n) s = calls t cfg n (invoke_http_tool t cfg s).1
