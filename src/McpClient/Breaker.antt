-- ===== src/McpClient/Breaker.antt =====
-- When the circuit of a client opens.
use agentic_ai.Base.{
  ℕ, zero, suc, ◌+◌, ◌≤◌, ◌<◌, ◌≡◌, refl, none, some, is_some, leb, arith, sym, ◌∙◌, subst, ◌⊎◌,
  inl, inr,
}
use agentic_ai.McpClient.{
  Transport, McpSettings, McpState, attempts_from, invoke_http_tool, retries, calls, new_client,
}
use agentic_ai.McpClient.Outage.{IsDown, IsShort, attempts-fail, invoke_closed, invoke_open}

module _ (t : Transport) (cfg : McpSettings) (down : IsDown t) (short : IsShort t cfg) where
  -- The state after this many calls to a server that is down: they are all counted and too few, or they
  -- are enough and the circuit is open beyond every reading of the clock.
  abbrev IsCounted : ℕ → McpState → Type 0
  IsCounted k s =
      ((s.circuit_open_until ≡ none)
        × (s.consecutive_failures ≡ k)
        × (k < cfg.mcp_circuit_breaker_threshold))
      ⊎ ((until : ℕ) × (s.circuit_open_until ≡ some until)
          × ((n : ℕ) → t.now n < until)
          × (cfg.mcp_circuit_breaker_threshold ≤ k))

  closed-IsCounted :
      (k : ℕ) (s : McpState)
      → s.circuit_open_until ≡ none
      → s.consecutive_failures ≡ k
      → IsCounted (suc k) (attempts_from t cfg (retries cfg) 1 s).1
  closed-IsCounted k s closed count = elim (attempts-fail t cfg down short (retries cfg) 1 s) [
    | inl (lt, failed, same) ↦
        inl (same ∙ closed, omega (arith, failed, count), omega (arith, lt, count))
    | inr (ge, opened) ↦ inr (
      t.now s.readings + cfg.mcp_circuit_breaker_cooldown_seconds,
      opened,
      λ n. short s.readings n,
      omega (arith, ge, count),
    )
  ]

  invoke-IsCounted :
      (k : ℕ) (s : McpState) → IsCounted k s → IsCounted (suc k) (invoke_http_tool t cfg s).1
  invoke-IsCounted k s (inl (closed, count, few)) =
      subst (IsCounted (suc k)) (sym (invoke_closed t cfg down short s closed))
        (closed-IsCounted k s closed count)
  invoke-IsCounted k s (inr (until, opened, later, enough)) =
      subst (IsCounted (suc k))
        (sym (invoke_open t cfg down short s until opened (later s.readings)))
        (inr (until, opened, later, omega (arith, enough)))

  calls-IsCounted : (n k : ℕ) (s : McpState) → IsCounted k s → IsCounted (k + n) (calls t cfg n s)
  unfolding calls
  calls-IsCounted zero k s h = subst (λ j. IsCounted j s) (omega arith) h
  calls-IsCounted (suc n) k s h =
      subst (λ j. IsCounted j (calls t cfg n (invoke_http_tool t cfg s).1)) (omega arith)
        (calls-IsCounted n (suc k) (invoke_http_tool t cfg s).1 (invoke-IsCounted k s h))

  open_at :
      (n : ℕ) (s : McpState)
      → IsCounted n s
      → is_some s.circuit_open_until ≡ leb cfg.mcp_circuit_breaker_threshold n
  open_at n s (inl (closed, count, few)) = ground (arith, closed, few)
  open_at n s (inr (until, opened, later, enough)) = ground (arith, opened, enough)

-- With a positive threshold: as long as the tool server is down, and no more than a cool-down passes, the
-- circuit of a client is open exactly from the call on that reaches the threshold.
pub outage-opens :
    (t : Transport) (cfg : McpSettings) (n : ℕ)
    → IsDown t
    → IsShort t cfg
    → 0 < cfg.mcp_circuit_breaker_threshold
    → is_some (calls t cfg n new_client).circuit_open_until
      ≡ leb cfg.mcp_circuit_breaker_threshold n
outage-opens t cfg n down short h = open_at t cfg down short n (calls t cfg n new_client) (
    subst (λ j. IsCounted t cfg down short j (calls t cfg n new_client)) (omega arith)
      (calls-IsCounted t cfg down short n 0 new_client (inl (refl, refl, h))))
