-- ===== src/Middleware/Answers.antt =====
-- What the middleware guarantees of every answer, and when it lets a request pass.
use agentic_ai.Base.{
  refl, inl, inr, ◌⊎◌, Bool, true, false, ◌==◌, ◌&&◌, ℕ, String, ◌≡◌, some, arith, eq_iff, ltb,
  if◌then◌else◌,
}
use agentic_ai.Base.Text.{show_ℕ}
use agentic_ai.Base.Digits.{parse_ℕ-show_ℕ}
use agentic_ai.Domain.Errors.{Result, ok, err}
use agentic_ai.Middleware.{
  HttpRequest, Response, HttpMetrics, extract_trace_id, record_http_request, apply_limits, exceeds,
  answered, refused,
}

-- What comes of a request whose rest of the application does this: a response carries the trace id and is
-- counted once under its own status; an exception is the application's and is counted once under 500, or
-- it is that of a length that is no number, which nothing counts.
abbrev pub IsTraced :
    {B S : Type 0}
    → ℕ
    → String
    → HttpRequest
    → Result (Response B) × S
    → HttpMetrics
    → Result (Response B) × HttpMetrics × S
    → Type 0
IsTraced max_bytes hex request inner h (ok r, h', s') =
    (r.headers "X-Trace-Id" ≡ some (extract_trace_id hex request))
    × (h' ≡ record_http_request request.method request.path r.status_code h)
IsTraced max_bytes hex request inner h (err e, h', s') =
    ((inner.0 ≡ err e) × (h' ≡ record_http_request request.method request.path 500 h))
    ⊎ ((exceeds max_bytes request.content_length ≡ err e) × (h' ≡ h))

-- A response of the middleware carries the request's trace id and is counted once, under its own
-- status. An exception that leaves it is the application's, counted once under 500, or that of a
-- declared length that is no number, which is not counted.
pub apply_limits-IsTraced :
    {B S : Type 0} (max_bytes : ℕ) (hex : String) (too_large : B) (request : HttpRequest)
    (call_next : S → Result (Response B) × S) (h : HttpMetrics) (s : S)
    → IsTraced max_bytes hex request
        (call_next s)
        h
        (apply_limits max_bytes hex too_large request call_next h s)
unfolding apply_limits
apply_limits-IsTraced {B = B} {S = S} max_bytes hex too_large request call_next h s =
    by_test ((request.method == "POST") && (request.path == "/api/chat"))
  where
    passed :
        (o : Result (Response B) × S)
        → IsTraced max_bytes hex request o h (answered (extract_trace_id hex request) request o h)
    passed (ok r, s') = (refl, refl)
    passed (err e, s') = inl (refl, refl)

    by_length :
        (x : Result Bool)
        → exceeds max_bytes request.content_length ≡ x
        → IsTraced max_bytes hex request (call_next s) h (elim x [
          | err e ↦ (err e, h, s)
          | ok true ↦ refused (extract_trace_id hex request) request too_large h s
          | ok false ↦ answered (extract_trace_id hex request) request (call_next s) h
        ])
    by_length (err e) x = inr (x, refl)
    by_length (ok true) x = (refl, refl)
    by_length (ok false) x = passed (call_next s)

    by_test :
        (chat : Bool)
        → IsTraced max_bytes hex request (call_next s) h (
            if chat
            then elim (exceeds max_bytes request.content_length) [
              | err e ↦ (err e, h, s)
              | ok true ↦ refused (extract_trace_id hex request) request too_large h s
              | ok false ↦ answered (extract_trace_id hex request) request (call_next s) h
            ]
            else answered (extract_trace_id hex request) request (call_next s) h)
    by_test true = by_length (exceeds max_bytes request.content_length) refl
    by_test false = passed (call_next s)

-- The status of an answer; an exception is answered by the server, with 500.
abbrev pub status_of : {B : Type 0} → Result (Response B) → ℕ
status_of (ok r) = r.status_code
status_of (err e) = 500

-- A chat request that declares the length of its body, in decimal notation, reaches the rest of the
-- application exactly if the length is within the limit; else the answer is 413, and the
-- application's state does not change.
pub apply_limits-length :
    {B S : Type 0} (max_bytes : ℕ) (hex : String) (too_large : B) (request : HttpRequest)
    (call_next : S → Result (Response B) × S) (h : HttpMetrics) (s : S) (n : ℕ)
    → request.method ≡ "POST"
    → request.path ≡ "/api/chat"
    → request.content_length ≡ some (show_ℕ n)
    → (status_of (apply_limits max_bytes hex too_large request call_next h s).0
        ≡ (if ltb max_bytes n then 413 else status_of (call_next s).0))
      × ((apply_limits max_bytes hex too_large request call_next h s).2
          ≡ (if ltb max_bytes n then s else (call_next s).1))
unfolding apply_limits
apply_limits-length max_bytes hex too_large request call_next h s n posts chats declared =
    let post = (eq_iff request.method "POST").1 posts in
    let chat = (eq_iff request.path "/api/chat").1 chats in
    (
      ground (arith, post, chat, declared, parse_ℕ-show_ℕ n),
      ground (arith, post, chat, declared, parse_ℕ-show_ℕ n),
    )
