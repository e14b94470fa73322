-- ===== src/RateLimit/Callers.antt =====
-- The limiter treats each caller apart.
use agentic_ai.Base.{
  ℕ, ◌≡◌, String, false, List, [], ◌∷◌, arith, refl, ◌==◌, eq_iff, Bool-cases, ◌∙◌, eq_refl, false,
  inl, inr,
}
use agentic_ai.Base.Lists.{keep}
use agentic_ai.RateLimit.{Limits, Windows, check_rate_limit, admit}

-- The arrivals of one key.
abbrev pub only : String → List (String × ℕ) → List (String × ℕ)
only k = keep (λ arrival. k == arrival.0)

module _ (lim : Limits) (k : String) where
  -- A check reads and writes the queue of its own key only.
  check-local :
      (x : ℕ) (ws vs : Windows)
      → ws k ≡ vs k
      → ((check_rate_limit lim k x ws).0 ≡ (check_rate_limit lim k x vs).0)
        × ((check_rate_limit lim k x ws).1 k ≡ (check_rate_limit lim k x vs).1 k)
  unfolding check_rate_limit
  check-local x ws vs e = ground (arith, eq_refl k)

  check-elsewhere :
      (key : String) (x : ℕ) (ws : Windows)
      → (k == key) ≡ false
      → (check_rate_limit lim key x ws).1 k ≡ ws k
  unfolding check_rate_limit
  check-elsewhere key x ws ne = ground arith

  only-admit_at :
      (xs : List (String × ℕ)) (ws vs : Windows)
      → ws k ≡ vs k
      → only k (admit lim xs ws) ≡ admit lim (only k xs) vs
  unfolding admit
  only-admit_at [] ws vs e = refl
  only-admit_at ((key, x) ∷ xs) ws vs e = elim (Bool-cases (k == key)) [
    | inl same ↦
        let eq = (eq_iff k key).0 same in
        let (answers, queues) = check-local x ws vs e in
        let ih =
          only-admit_at xs (check_rate_limit lim k x ws).1 (check_rate_limit lim k x vs).1 queues in
        ground (arith, same, eq, answers, ih)
    | inr other ↦
        let ih =
          only-admit_at xs (check_rate_limit lim key x ws).1 vs
            (check-elsewhere key x ws other ∙ e) in
        ground (arith, other, ih)
  ]

-- A caller gets through as if it were alone: what is let through of one key depends on the arrivals
-- of that key only.
pub only-admit :
    (lim : Limits) (k : String) (xs : List (String × ℕ)) (ws : Windows)
    → only k (admit lim xs ws) ≡ admit lim (only k xs) ws
only-admit lim k xs ws = only-admit_at lim k xs ws ws refl
