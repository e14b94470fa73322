-- ===== src/McpClient/Closed.antt =====
-- A call that returns leaves its circuit closed.
use agentic_ai.Base.{ℕ, zero, suc, ◌≡◌, refl, sym, ap, ◌∙◌, none, inl, inr}
use agentic_ai.Payload.{Payload}
use agentic_ai.Domain.Errors.{Error, Result, ok, err}
use agentic_ai.McpClient.{
  Transport, McpSettings, McpState, Turn, returned, raised, again, given_up, take_turn, posted,
  attempts_from, retry_backoff, record_failure, record_success, invoke_http_tool, retries, reclosed,
}
use agentic_ai.McpClient.Outcome.{turn}
use agentic_ai.McpClient.Last.{invoke_cases}

-- If the call returns, its circuit is closed.
abbrev IsReclosed : Payload → Result Payload × McpState → Type 0
IsReclosed d o = o.0 ≡ ok d → o.1.circuit_open_until ≡ none

module _ (t : Transport) (cfg : McpSettings) (d : Payload) where
  turn-IsReclosed :
      (s : McpState) (x : Turn) (retry : Error → Result Payload × McpState)
      → ((e : Error) → IsReclosed d (retry e))
      → IsReclosed d (take_turn t cfg s x retry)
  unfolding record_success
  turn-IsReclosed s (returned y) retry rest h = refl
  turn-IsReclosed s (raised y) retry rest h = cc
  turn-IsReclosed s (again y) retry rest h = rest y h
  turn-IsReclosed s (given_up y) retry rest h = cc

  attempts-IsReclosed :
      (left attempt : ℕ) (s : McpState) → IsReclosed d (attempts_from t cfg left attempt s)
  unfolding attempts_from
  attempts-IsReclosed zero attempt s =
      turn-IsReclosed (posted s) (turn t s.posts) (λ e. (err e, record_failure t cfg (posted s)))
        (λ e g. cc)
  attempts-IsReclosed (suc left) attempt s =
      let s' = retry_backoff cfg attempt (posted s) in
      turn-IsReclosed (posted s) (turn t s.posts) (λ e. attempts_from t cfg left (suc attempt) s')
        (λ e. attempts-IsReclosed left (suc attempt) s')

  pub invoke-IsReclosed :
      (s : McpState)
      → (invoke_http_tool t cfg s).0 ≡ ok d
      → (invoke_http_tool t cfg s).1.circuit_open_until ≡ none
  invoke-IsReclosed s h = elim (invoke_cases t cfg d s) [
    | inl e ↦
        ap (λ o. o.1.circuit_open_until) e
        ∙ attempts-IsReclosed (retries cfg) 1 s (sym (ap (λ o. o.0) e) ∙ h)
    | inr (inl e) ↦
        ap (λ o. o.1.circuit_open_until) e
        ∙ attempts-IsReclosed (retries cfg) 1 (reclosed s) (sym (ap (λ o. o.0) e) ∙ h)
    | inr (inr (x, e)) ↦ cc (sym e ∙ h)
  ]
