-- ===== src/McpClient/Outage.antt =====
-- How the circuit breaker shields a tool server that is down.
use agentic_ai.Base.{
  ℕ, zero, suc, ◌+◌, ◌*◌, ◌≤◌, ◌<◌, ◌≡◌, Bool, true, false, none, some, arith, sym, ap, ◌∙◌, subst,
  some_inj, Option-cases, ◌⊎◌, inl, inr,
}
use native.Mathlib.Nat.{suc-mul, mul-le-mul_right}
use agentic_ai.McpClient.{
  Transport, McpSettings, McpState, Turn, again, given_up, posted, attempts_from, retry_backoff,
  record_failure, ensure_circuit_closed, invoke_http_tool, retries, calls, new_client,
}
use agentic_ai.McpClient.Outcome.{attempts-posts, turn}

-- Whether a POST has failed.
abbrev pub is_failure : Turn → Bool
is_failure (again _) = true
is_failure (given_up _) = true
is_failure _ = false

-- Every POST fails.
abbrev pub IsDown : Transport → Type 0
IsDown t = (n : ℕ) → is_failure (turn t n) ≡ true

-- The readings of the clock lie within one cool-down.
abbrev pub IsShort : Transport → McpSettings → Type 0
IsShort t cfg = (m n : ℕ) → t.now n < t.now m + cfg.mcp_circuit_breaker_cooldown_seconds

module _ (t : Transport) (cfg : McpSettings) (down : IsDown t) (short : IsShort t cfg) where
  -- While the circuit is closed every failure has cost at most a call's attempts; an open circuit
  -- stays open.
  abbrev IsShielded : McpState → Type 0
  IsShielded s =
      (s.circuit_open_until ≡ none
        → (s.consecutive_failures < cfg.mcp_circuit_breaker_threshold)
          × (s.posts ≤ s.consecutive_failures * suc (retries cfg)))
      × ((until : ℕ)
          → s.circuit_open_until ≡ some until
          → (s.posts ≤ cfg.mcp_circuit_breaker_threshold * suc (retries cfg))
            × ((n : ℕ) → t.now n < until))

  one_more : (n : ℕ) → suc n * suc (retries cfg) ≡ n * suc (retries cfg) + suc (retries cfg)
  one_more n = suc-mul n (suc (retries cfg))

  threshold :
      {n : ℕ}
      → n < cfg.mcp_circuit_breaker_threshold
      → cfg.mcp_circuit_breaker_threshold ≤ suc n
      → cfg.mcp_circuit_breaker_threshold ≡ suc n
  threshold lt ge = omega (arith, lt, ge)

  -- A call through a closed circuit counts as one failure, and opens the circuit at the threshold.
  pub attempts-fail :
      (left attempt : ℕ) (s : McpState)
      → ((suc s.consecutive_failures < cfg.mcp_circuit_breaker_threshold)
          × ((attempts_from t cfg left attempt s).1.consecutive_failures
              ≡ suc s.consecutive_failures)
          × ((attempts_from t cfg left attempt s).1.circuit_open_until ≡ s.circuit_open_until))
        ⊎ ((cfg.mcp_circuit_breaker_threshold ≤ suc s.consecutive_failures)
            × ((attempts_from t cfg left attempt s).1.circuit_open_until
                ≡ some (t.now s.readings + cfg.mcp_circuit_breaker_cooldown_seconds)))
  unfolding attempts_from retry_backoff record_failure
  attempts-fail zero attempt s = ground (arith, down s.posts)
  attempts-fail (suc left) attempt s =
      ground (
        arith,
        down s.posts,
        attempts-fail left (suc attempt) (retry_backoff cfg attempt (posted s)),
      )

  attempts-IsShielded :
      (s : McpState)
      → s.circuit_open_until ≡ none
      → IsShielded s
      → IsShielded (attempts_from t cfg (retries cfg) 1 s).1
  attempts-IsShielded s closed h =
      let (few, cheap) = h.0 closed in
      let posts = (attempts-posts t cfg (retries cfg) 1 s).1 in
      elim (attempts-fail (retries cfg) 1 s) [
        | inl (lt, failed, same) ↦ (
          λ e. (
            omega (arith, lt, failed),
            omega (
              arith,
              posts,
              cheap,
              one_more s.consecutive_failures,
              ap (λ n. n * suc (retries cfg)) failed,
            ),
          ),
          λ until e. ground (arith, e, same, closed),
        )
        | inr (ge, opened) ↦ (
          λ e. ground (arith, e, opened),
          λ until e. (
            omega (
              arith,
              posts,
              cheap,
              one_more s.consecutive_failures,
              ap (λ n. n * suc (retries cfg)) (threshold few ge),
            ),
            λ n. subst (λ u. t.now n < u) (some_inj (sym opened ∙ e)) (short s.readings n),
          ),
        )
      ]

  pub invoke_closed :
      (s : McpState)
      → s.circuit_open_until ≡ none
      → (invoke_http_tool t cfg s).1 ≡ (attempts_from t cfg (retries cfg) 1 s).1
  unfolding invoke_http_tool ensure_circuit_closed
  invoke_closed s closed = ground (arith, closed)

  pub invoke_open :
      (s : McpState) (until : ℕ)
      → s.circuit_open_until ≡ some until
      → t.now s.readings < until
      → (invoke_http_tool t cfg s).1 ≡ record s { readings = suc s.readings }
  unfolding invoke_http_tool ensure_circuit_closed
  invoke_open s until opened early = ground (arith, opened, early)

  invoke-IsShielded : (s : McpState) → IsShielded s → IsShielded (invoke_http_tool t cfg s).1
  invoke-IsShielded s h = elim (Option-cases s.circuit_open_until) [
    | inl closed ↦ subst IsShielded (sym (invoke_closed s closed)) (attempts-IsShielded s closed h)
    | inr (until, opened) ↦
        subst IsShielded (sym (invoke_open s until opened ((h.1 until opened).1 s.readings))) h
  ]

  calls-IsShielded : (n : ℕ) (s : McpState) → IsShielded s → IsShielded (calls t cfg n s)
  unfolding calls
  calls-IsShielded zero s h = h
  calls-IsShielded (suc n) s h =
      calls-IsShielded n (invoke_http_tool t cfg s).1 (invoke-IsShielded s h)

  shielded-posts :
      (s : McpState)
      → IsShielded s
      → s.posts ≤ cfg.mcp_circuit_breaker_threshold * suc (retries cfg)
  shielded-posts s h = elim (Option-cases s.circuit_open_until) [
    | inl closed ↦
        let (few, cheap) = h.0 closed in
        omega (
          arith,
          cheap,
          mul-le-mul_right {m = s.consecutive_failures} {n = cfg.mcp_circuit_breaker_threshold}
              (suc (retries cfg)) (omega (arith, few)),
        )
    | inr (until, opened) ↦ (h.1 until opened).0
  ]

-- With a positive threshold: as long as the tool server is down, and no more than a cool-down passes, a
-- client asks it at most as often as its threshold of calls with all their attempts does, however many
-- calls are made.
pub outage-posts :
    (t : Transport) (cfg : McpSettings) (n : ℕ)
    → IsDown t
    → IsShort t cfg
    → 0 < cfg.mcp_circuit_breaker_threshold
    → (calls t cfg n new_client).posts ≤ cfg.mcp_circuit_breaker_threshold * suc (retries cfg)
outage-posts t cfg n down short h = shielded-posts t cfg down short (calls t cfg n new_client) (
    calls-IsShielded t cfg down short n new_client
      (λ _. (h, omega arith), λ until e. ground (arith, e)))
