-- ===== src/Middleware.antt =====
-- `apply_security_and_request_limits` of src/api/main.py. The rest of the application is an argument:
-- what it makes of its state, and its response or the exception that none of its handlers takes.
pub mod Answers
pub mod TraceIds
use agentic_ai.Base.{
  ℕ, suc, String, Bool, true, false, ◌&&◌, Option, none, some, List, [], ◌∷◌, leb, ltb, ◌==◌, ◌==ℕ◌,
  if◌then◌else◌, count,
}
use agentic_ai.Base.Text.{parse_ℕ, split_on}
use agentic_ai.Base.Lists.{length}
use agentic_ai.Domain.Errors.{bad_value, Result, ok, err}

-- What the middleware reads of a request.
pub record HttpRequest : Type 0 where
  pub method : String
  pub path : String
  pub x_trace_id : Option String
  pub traceparent : Option String
  pub content_length : Option String

pub record Response {ℓ} (B : Type ℓ) : Type ℓ where
  pub status_code : ℕ
  pub content : B
  pub headers : String → Option String

-- The counters of `record_http_request`, by method, path and status.
pub record HttpMetrics : Type 0 where
  pub requests_total : String → String → ℕ → ℕ
  pub requests_failed : String → String → ℕ → ℕ

abbrev pub count_one : (String → String → ℕ → ℕ) → String → String → ℕ → String → String → ℕ → ℕ
count_one counter method path status m p s =
    if (m == method) && (p == path) && (s ==ℕ status) then suc (counter m p s) else counter m p s

unfoldable pub record_http_request : String → String → ℕ → HttpMetrics → HttpMetrics
record_http_request method path status_code h = record {
  requests_total = count_one h.requests_total method path status_code;
  requests_failed =
      if leb 400 status_code
      then count_one h.requests_failed method path status_code
      else h.requests_failed;
}

-- `if x:` of a header that may be missing
abbrev pub given : Option String → Bool
given none = false
given (some s) = if s == "" then false else true

-- `if len(parts) >= 4 and len(parts[1]) == 32: return parts[1]`
abbrev pub trace_part : List String → Option String
trace_part (a ∷ b ∷ c ∷ d ∷ rest) = if count b ==ℕ 32 then some b else none
trace_part _ = none

abbrev pub of_traceparent : Option String → Option String
of_traceparent none = none
of_traceparent (some traceparent) =
    if traceparent == "" then none else trace_part (split_on b'-' traceparent)

abbrev pub or_else : Option String → String → String
or_else none d = d
or_else (some s) d = s

-- `_extract_trace_id`, `hex` being the text of a new identifier.
unfoldable pub extract_trace_id : String → HttpRequest → String
extract_trace_id hex request =
    if given request.x_trace_id
    then or_else request.x_trace_id ""
    else or_else (of_traceparent request.traceparent) hex

-- `content_length is not None and int(content_length) > max_request_body_bytes`
abbrev pub exceeds : ℕ → Option String → Result Bool
exceeds max_bytes none = ok false
exceeds max_bytes (some text) = elim (parse_ℕ text) [
  | none ↦ err (bad_value "invalid literal for int() with base 10")
  | some n ↦ ok (ltb max_bytes n)
]

-- `response.headers[name] = value`
abbrev pub set_header {ℓ} : {B : Type ℓ} → String → String → Response B → Response B
set_header name value r = record r { headers = λ k. if k == name then some value else r.headers k }

abbrev pub secured {ℓ} : {B : Type ℓ} → String → Response B → Response B
secured trace_id r = set_header "X-Trace-Id" trace_id (
    set_header "Content-Security-Policy" "default-src 'none'; frame-ancestors 'none'" (
      set_header "Cache-Control" "no-store" (
        set_header "Referrer-Policy" "no-referrer"
          (set_header "X-Frame-Options" "DENY" (set_header "X-Content-Type-Options" "nosniff" r)))))

module _ {ℓ κ} {B : Type ℓ} {S : Type κ} where
  -- The `try … finally` around the rest of the application, and the headers after it.
  abbrev pub answered :
      String
      → HttpRequest
      → Result (Response B) × S
      → HttpMetrics
      → Result (Response B) × HttpMetrics × S
  answered trace_id request (ok response, s) h = (
    ok (secured trace_id response),
    record_http_request request.method request.path response.status_code h,
    s,
  )
  answered trace_id request (err e, s) h =
      (err e, record_http_request request.method request.path 500 h, s)

  -- The answer to a body that is too large; `too_large` is its content.
  abbrev pub refused :
      String → HttpRequest → B → HttpMetrics → S → Result (Response B) × HttpMetrics × S
  refused trace_id request too_large h s = (
    ok (
        set_header "X-Trace-Id" trace_id
          (record { status_code = 413; content = too_large; headers = λ k. none })),
    record_http_request request.method request.path 413 h,
    s,
  )

  unfoldable pub apply_limits :
      ℕ
      → String
      → B
      → HttpRequest
      → (S → Result (Response B) × S)
      → HttpMetrics
      → S
      → Result (Response B) × HttpMetrics × S
  apply_limits max_bytes hex too_large request call_next h s =
      let trace_id = extract_trace_id hex request in
      if (request.method == "POST") && (request.path == "/api/chat")
      then elim (exceeds max_bytes request.content_length) [
        | err e ↦ (err e, h, s)
        | ok true ↦ refused trace_id request too_large h s
        | ok false ↦ answered trace_id request (call_next s) h
      ]
      else answered trace_id request (call_next s) h
