-- ===== src/Tests/RateLimit.antt =====
-- The limiter of src/api/rate_limit.py at a limit of two requests in sixty seconds.
use agentic_ai.Base.{ℕ, ◌+◌, ◌≤◌, ◌≡◌, String, List, [], ◌∷◌, refl, arith}
use agentic_ai.RateLimit.{Limits, popleft, check_rate_limit, admit}
use agentic_ai.RateLimit.Bound.{arrived, admit-Bounded}
use agentic_ai.RateLimit.Callers.{only, only-admit}

abbrev pub two : Limits
two = record { api_rate_limit_requests = 2; api_rate_limit_window_seconds = 60 }

abbrev arrivals : List (String × ℕ)
arrivals = ("chat:a", 10) ∷ ("chat:b", 20) ∷ ("chat:a", 30) ∷ ("chat:a", 40) ∷ ("chat:a", 71) ∷ []

third_refused :
    admit two arrivals (λ key. [])
    ≡ ("chat:a", 10) ∷ ("chat:b", 20) ∷ ("chat:a", 30) ∷ ("chat:a", 71) ∷ []
unfolding admit check_rate_limit popleft
third_refused = refl

admit-Bounded_example : arrived "chat:a" 10 (10 + 60) (admit two arrivals (λ key. [])) ≤ 2
admit-Bounded_example = admit-Bounded two "chat:a" 10 10 arrivals (omega arith)

only-admit_example :
    only "chat:b" (admit two arrivals (λ key. [])) ≡ admit two (only "chat:b" arrivals) (λ key. [])
only-admit_example = only-admit two "chat:b" arrivals (λ key. [])
