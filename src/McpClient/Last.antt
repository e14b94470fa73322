-- ===== src/McpClient/Last.antt =====
-- A call that returns has its object from the last POST that it made.
use agentic_ai.Base.{
  ℕ, zero, suc, ◌≤◌, ◌≡◌, refl, sym, ap, ◌∙◌, subst, ◌⊎◌, arith, leb, Option-cases, Bool-cases, inl,
  inr,
}
use agentic_ai.Payload.{Payload}
use agentic_ai.Domain.Errors.{Error, external_service, Result, ok, err, ok_inj}
use agentic_ai.McpClient.{
  Transport, McpSettings, McpState, Turn, returned, raised, again, given_up, take_turn, posted,
  attempts_from, retry_backoff, record_failure, record_success, ensure_circuit_closed,
  invoke_http_tool, retries, reclosed,
}
use agentic_ai.McpClient.Outcome.{turn, posts-retry_backoff}

-- The POST before the client's number of POSTs gave this object.
abbrev pub IsLast : Transport → ℕ → McpState → Payload → Type 0
IsLast t n s d = (m : ℕ) × (s.posts ≡ suc m) × (n ≤ m) × (turn t m ≡ returned d)

module _ (t : Transport) (cfg : McpSettings) (d : Payload) where
  turn-IsLast :
      (s : McpState) (x : Turn) (retry : Error → Result Payload × McpState)
      → turn t s.posts ≡ x
      → ((e : Error) → (retry e).0 ≡ ok d → IsLast t s.posts (retry e).1 d)
      → (take_turn t cfg (posted s) x retry).0 ≡ ok d
      → IsLast t s.posts (take_turn t cfg (posted s) x retry).1 d
  unfolding record_success
  turn-IsLast s (returned y) retry e rest h =
      (s.posts, refl, omega arith, e ∙ ap returned (ok_inj h))
  turn-IsLast s (raised y) retry e rest h = cc
  turn-IsLast s (again y) retry e rest h = rest y h
  turn-IsLast s (given_up y) retry e rest h = cc

  sooner : (m n : ℕ) (s : McpState) → m ≤ n → IsLast t n s d → IsLast t m s d
  sooner m n s le (k, e, late, last) = (k, e, omega (arith, le, late), last)

  attempts-IsLast :
      (left attempt : ℕ) (s : McpState)
      → (attempts_from t cfg left attempt s).0 ≡ ok d
      → IsLast t s.posts (attempts_from t cfg left attempt s).1 d
  unfolding attempts_from
  attempts-IsLast zero attempt s h =
      turn-IsLast s (turn t s.posts) (λ e. (err e, record_failure t cfg (posted s))) refl
        (λ e g. cc) h
  attempts-IsLast (suc left) attempt s h =
      let s' = retry_backoff cfg attempt (posted s) in
      turn-IsLast s (turn t s.posts) (λ e. attempts_from t cfg left (suc attempt) s') refl
        (λ x e.
          sooner s.posts s'.posts (attempts_from t cfg left (suc attempt) s').1
            (omega (arith, posts-retry_backoff t cfg d attempt (posted s)))
            (attempts-IsLast left (suc attempt) s' e))
        h

  -- The three courses of a call.
  pub invoke_cases :
      (s : McpState)
      → (invoke_http_tool t cfg s ≡ attempts_from t cfg (retries cfg) 1 s)
        ⊎ (invoke_http_tool t cfg s ≡ attempts_from t cfg (retries cfg) 1 (reclosed s))
        ⊎ ((e : Error) × ((invoke_http_tool t cfg s).0 ≡ err e))
  unfolding invoke_http_tool ensure_circuit_closed
  invoke_cases s = elim (Option-cases s.circuit_open_until) [
    | inl none' ↦ inl (ground (arith, none'))
    | inr (until, open_until) ↦ elim (Bool-cases (leb until (t.now s.readings))) [
      | inl over ↦ inr (inl (ground (arith, open_until, over)))
      | inr early ↦
          inr (
            inr (external_service "MCP circuit breaker is open", ground (arith, open_until, early)))
    ]
  ]

  pub invoke-IsLast :
      (s : McpState)
      → (invoke_http_tool t cfg s).0 ≡ ok d
      → IsLast t s.posts (invoke_http_tool t cfg s).1 d
  invoke-IsLast s h = elim (invoke_cases s) [
    | inl e ↦
        subst (λ o. IsLast t s.posts o.1 d) (sym e)
          (attempts-IsLast (retries cfg) 1 s (sym (ap (λ o. o.0) e) ∙ h))
    | inr (inl e) ↦
        subst (λ o. IsLast t s.posts o.1 d) (sym e)
          (attempts-IsLast (retries cfg) 1 (reclosed s) (sym (ap (λ o. o.0) e) ∙ h))
    | inr (inr (x, e)) ↦ cc (sym e ∙ h)
  ]
