-- ===== src/Tests/Middleware.antt =====
-- The middleware before an application that answers everything with 200.
use agentic_ai.Base.{ℕ, String, ◌≡◌, refl, none, some, ltb, if◌then◌else◌}
use agentic_ai.Base.Text.{show_ℕ}
use agentic_ai.Domain.Errors.{Result, ok}
use agentic_ai.Middleware.{HttpRequest, Response, HttpMetrics, extract_trace_id, apply_limits}
use agentic_ai.Middleware.Answers.{IsTraced, apply_limits-IsTraced, apply_limits-length, status_of}
use agentic_ai.Middleware.TraceIds.{traceparent_of, extract_trace_id-traceparent}

abbrev traced : HttpRequest
traced = record {
  method = "POST";
  path = "/api/chat";
  x_trace_id = none;
  traceparent =
      some (traceparent_of "00" "0af7651916cd43dd8448eb211c80319c" "b7ad6b7169203331" "01");
  content_length = some (show_ℕ 70000);
}

abbrev answer : Response String
answer = record { status_code = 200; content = "done"; headers = λ k. none }

abbrev served : ℕ → Result (Response String) × ℕ
served n = (ok answer, n)

abbrev no_metrics : HttpMetrics
no_metrics = record { requests_total = λ m p s. 0; requests_failed = λ m p s. 0 }

abbrev live : HttpRequest
live = record traced { method = "GET"; path = "/health/live" }

apply_limits-IsTraced_example :
    IsTraced 65536 "h" live
      (served 1)
      no_metrics
      (apply_limits 65536 "h" "too large" live served no_metrics 1)
apply_limits-IsTraced_example = apply_limits-IsTraced 65536 "h" "too large" live served no_metrics 1

apply_limits-length_example :
    (status_of (apply_limits 65536 "h" "too large" traced served no_metrics 1).0
      ≡ (if ltb 65536 70000 then 413 else status_of (served 1).0))
    × ((apply_limits 65536 "h" "too large" traced served no_metrics 1).2
        ≡ (if ltb 65536 70000 then 1 else (served 1).1))
apply_limits-length_example =
    apply_limits-length 65536 "h" "too large" traced served no_metrics 1 70000 refl refl refl

extract_trace_id-traceparent_example :
    extract_trace_id "h" traced ≡ "0af7651916cd43dd8448eb211c80319c"
extract_trace_id-traceparent_example =
    extract_trace_id-traceparent "h" "00" "0af7651916cd43dd8448eb211c80319c" "b7ad6b7169203331" "01"
      traced refl refl refl refl refl refl refl
