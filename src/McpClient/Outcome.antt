-- ===== src/McpClient/Outcome.antt =====
-- What a call to the tool server returns, and how often it asks.
use agentic_ai.Base.{
  ◌⊎◌, inl, inr, subst, Bool, true, false, none, ℕ, zero, suc, ◌+◌, ◌≤◌, ◌<◌, ◌≡◌, ◌↔◌, arith,
}
use agentic_ai.Domain.Errors.{ok}
use agentic_ai.Payload.{Payload}
use agentic_ai.McpClient.{
  Transport, McpSettings, McpState, Turn, returned, again, read_reply, posted, attempts_from,
  retry_backoff, record_failure, record_success, ensure_circuit_closed, invoke_http_tool, retries,
  reclosed, reclosed,
}

module _ (t : Transport) (cfg : McpSettings) where
  pub attempts-posts :
      (left attempt : ℕ) (s : McpState)
      → (s.posts < (attempts_from t cfg left attempt s).1.posts)
        × ((attempts_from t cfg left attempt s).1.posts ≤ s.posts + suc left)
  unfolding attempts_from retry_backoff record_failure record_success
  attempts-posts zero attempt s = ground arith
  attempts-posts (suc left) attempt s =
      ground (arith, attempts-posts left (suc attempt) (retry_backoff cfg attempt (posted s)))

  -- A call asks the server at most as often as attempts are configured, at least once allowed.
  pub invoke-posts :
      (s : McpState) → (invoke_http_tool t cfg s).1.posts ≤ s.posts + suc (retries cfg)
  unfolding invoke_http_tool ensure_circuit_closed
  invoke-posts s =
      ground (arith, attempts-posts (retries cfg) 1 s, attempts-posts (retries cfg) 1 (reclosed s))

-- Whether a pass of the loop is to be tried again.
abbrev pub is_again : Turn → Bool
is_again (again _) = true
is_again _ = false

-- The turn that the n-th POST gives.
abbrev pub turn : Transport → ℕ → Turn
turn t n = read_reply t (t.post n)

-- A number of POSTs, from the n-th on, that are all to be tried again.
abbrev pub AllAgain : Transport → ℕ → ℕ → Type 0
AllAgain t zero n = Unit
AllAgain t (suc i) n = (is_again (turn t n) ≡ true) × AllAgain t i (suc n)

-- Of the POSTs from the n-th on, the first that is not to be tried again is among the next `passes`
-- and gives an object.
abbrev pub Answers : Transport → ℕ → ℕ → Payload → Type 0
Answers t passes n data' =
    (i : ℕ) × (i < passes) × AllAgain t i n × (turn t (n + i) ≡ returned data')

module _ (t : Transport) (data' : Payload) where
  pub answer_now : (passes n : ℕ) → turn t n ≡ returned data' → Answers t (suc passes) n data'
  answer_now passes n e =
      (0, omega arith, tt, subst (λ x. turn t x ≡ returned data') (omega arith) e)

  pub answer_later :
      (passes n : ℕ)
      → is_again (turn t n) ≡ true
      → Answers t passes (suc n) data'
      → Answers t (suc passes) n data'
  answer_later passes n e (i, below, all, here) = (
    suc i,
    omega (arith, below),
    (e, all),
    subst (λ x. turn t x ≡ returned data') (omega arith) here,
  )

  answer_cases :
      (passes n : ℕ)
      → Answers t (suc passes) n data'
      → (turn t n ≡ returned data')
        ⊎ ((is_again (turn t n) ≡ true) × Answers t passes (suc n) data')
  answer_cases passes n (zero, below, all, here) =
      inl (subst (λ x. turn t x ≡ returned data') (omega arith) here)
  answer_cases passes n (suc i, below, all, here) = inr (
    all.0,
    (i, omega (arith, below), all.1, subst (λ x. turn t x ≡ returned data') (omega arith) here),
  )

  no_answer : (n : ℕ) → ¬ (Answers t 0 n data')
  no_answer n (i, below, all, here) = omega (arith, below)

module _ (t : Transport) (cfg : McpSettings) (data' : Payload) where
  pub posts-retry_backoff :
      (attempt : ℕ) (s : McpState) → (retry_backoff cfg attempt s).posts ≡ s.posts
  unfolding retry_backoff
  posts-retry_backoff attempt s = ground arith

  loop_cases :
      (left attempt : ℕ) (s : McpState)
      → (attempts_from t cfg (suc left) attempt s).0 ≡ ok data'
      → (turn t s.posts ≡ returned data')
        ⊎ ((is_again (turn t s.posts) ≡ true)
            × ((attempts_from t cfg left (suc attempt) (retry_backoff cfg attempt (posted s))).0
                ≡ ok data'))
  unfolding attempts_from
  loop_cases left attempt s h = ground arith

  attempts-Answers :
      (left attempt : ℕ) (s : McpState)
      → (attempts_from t cfg left attempt s).0 ≡ ok data'
      → Answers t (suc left) s.posts data'
  unfolding attempts_from
  attempts-Answers zero attempt s h = answer_now t data' 0 s.posts (ground arith)
  attempts-Answers (suc left) attempt s h = elim (loop_cases left attempt s h) [
    | inl e ↦ answer_now t data' (suc left) s.posts e
    | inr (e, rest) ↦
        let ih = attempts-Answers left (suc attempt) (retry_backoff cfg attempt (posted s)) rest in
        answer_later t data' (suc left) s.posts e
          (subst (λ n. Answers t (suc left) n data') (posts-retry_backoff attempt (posted s)) ih)
  ]

  Answers-attempts :
      (left attempt : ℕ) (s : McpState)
      → Answers t (suc left) s.posts data'
      → (attempts_from t cfg left attempt s).0 ≡ ok data'
  unfolding attempts_from retry_backoff
  Answers-attempts zero attempt s h =
      ground (arith, answer_cases t data' 0 s.posts h, no_answer t data' (suc s.posts))
  Answers-attempts (suc left) attempt s h =
      let ih = Answers-attempts left (suc attempt) (retry_backoff cfg attempt (posted s)) in
      ground (arith, answer_cases t data' (suc left) s.posts h, ih)

-- While the circuit is closed, a call returns an object exactly if, of the next POSTs that its
-- attempts allow, the first that does not call for another attempt is answered with that object.
pub invoke-Answers :
    (t : Transport) (cfg : McpSettings) (s : McpState) (data' : Payload)
    → s.circuit_open_until ≡ none
    → ((invoke_http_tool t cfg s).0 ≡ ok data') ↔ Answers t (suc (retries cfg)) s.posts data'
unfolding invoke_http_tool ensure_circuit_closed
invoke-Answers t cfg s data' closed = (
  λ h. attempts-Answers t cfg data' (retries cfg) 1 s (ground (arith, h, closed)),
  λ h. ground (arith, closed, Answers-attempts t cfg data' (retries cfg) 1 s h),
)
