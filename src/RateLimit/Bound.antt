-- ===== src/RateLimit/Bound.antt =====
-- How many requests of one caller the limiter lets through.
use agentic_ai.Base.{
  ℕ, ◌+◌, ◌≤◌, ◌<◌, ◌≡◌, String, Bool, ◌&&◌, List, [], ◌∷◌, ◌++◌, arith, leb, refl, ◌==◌,
  if◌then◌else◌, eq_iff, ◌⊎◌, inl, inr,
}
use agentic_ai.Base.Lists.{length, length-append}
use agentic_ai.Domain.Errors.{is_ok}
use agentic_ai.RateLimit.{Limits, Windows, popleft, check_rate_limit, admit}

-- The instants between two others, both included.
abbrev pub in_span : ℕ → ℕ → ℕ → Bool
in_span from till x = leb from x && leb x till

-- How many instants lie in a span.
abbrev pub spanned : ℕ → ℕ → List ℕ → ℕ
spanned from till [] = 0
spanned from till (x ∷ xs) = (if in_span from till x then 1 else 0) + spanned from till xs

-- How many arrivals of a key lie in a span.
abbrev pub arrived : String → ℕ → ℕ → List (String × ℕ) → ℕ
arrived k from till [] = 0
arrived k from till ((key, x) ∷ xs) =
    (if (k == key) && in_span from till x then 1 else 0) + arrived k from till xs

-- The clock never goes back: the arrivals' instants ascend from `at`.
abbrev pub Ascends : ℕ → List (String × ℕ) → Type 0
Ascends at [] = Unit
Ascends at ((key, x) ∷ xs) = (at ≤ x) × Ascends x xs

spanned-append :
    (from till : ℕ) (xs : List ℕ) (x : ℕ)
    → spanned from till (xs ++ x ∷ [])
      ≡ spanned from till xs + (if in_span from till x then 1 else 0)
spanned-append from till [] x = ground arith
spanned-append from till (y ∷ xs) x = omega (arith, spanned-append from till xs x)

le_or_lt : (a b : ℕ) → (a ≤ b) ⊎ (b < a)
le_or_lt a b = omega arith

spanned-≤ : (from till : ℕ) (xs : List ℕ) → spanned from till xs ≤ length xs
spanned-≤ from till [] = omega arith
spanned-≤ from till (x ∷ xs) = ground (arith, spanned-≤ from till xs)

module _ (window now : ℕ) where
  length-popleft : (xs : List ℕ) → length (popleft window now xs) ≤ length xs
  unfolding popleft
  length-popleft [] = omega arith
  length-popleft (x ∷ xs) = ground (arith, length-popleft xs)

  -- What is dropped lies before every span that reaches `now`.
  spanned-popleft :
      (from : ℕ) (xs : List ℕ)
      → now ≤ from + window
      → spanned from (from + window) (popleft window now xs) ≡ spanned from (from + window) xs
  unfolding popleft
  spanned-popleft from [] h = refl
  spanned-popleft from (x ∷ xs) h = ground (arith, spanned-popleft from xs h)

module _ (lim : Limits) (k : String) (from : ℕ) where
  abbrev till : ℕ
  till = from + lim.api_rate_limit_window_seconds

  -- Past the end of the span nothing is counted any more.
  admit-late :
      (at : ℕ) (xs : List (String × ℕ)) (ws : Windows)
      → till < at
      → Ascends at xs
      → arrived k from till (admit lim xs ws) ≡ 0
  unfolding admit
  admit-late at [] ws h asc = refl
  admit-late at ((key, x) ∷ xs) ws h asc =
      let ih = admit-late x xs (check_rate_limit lim key x ws).1 (omega (arith, h, asc.0)) asc.1 in
      ground (arith, h, asc.0, ih)

  module _ (key : String) (x : ℕ) (ws : Windows) where
    abbrev checked : Windows
    checked = (check_rate_limit lim key x ws).1

    abbrev window_left : List ℕ
    window_left = popleft lim.api_rate_limit_window_seconds x (ws key)

    -- A check never makes a queue longer than the limit.
    check-length :
        length (ws k) ≤ lim.api_rate_limit_requests
        → length (checked k) ≤ lim.api_rate_limit_requests
    unfolding check_rate_limit
    check-length h = ground (
      arith,
      eq_iff k key,
      length-popleft lim.api_rate_limit_window_seconds x (ws key),
      length-append window_left (x ∷ []),
    )

    -- A check counts in the span what it lets through there.
    check-spanned :
        x ≤ till
        → spanned from till (checked k)
          ≡ spanned from till (ws k)
            + (if is_ok (check_rate_limit lim key x ws).0 && ((k == key) && in_span from till x)
                then 1
                else 0)
    unfolding check_rate_limit
    check-spanned h = ground (
      arith,
      eq_iff k key,
      spanned-popleft lim.api_rate_limit_window_seconds x from (ws key) h,
      spanned-append from till window_left x,
    )

  admit-bound :
      (at : ℕ) (xs : List (String × ℕ)) (ws : Windows)
      → Ascends at xs
      → length (ws k) ≤ lim.api_rate_limit_requests
      → spanned from till (ws k) + arrived k from till (admit lim xs ws)
        ≤ lim.api_rate_limit_requests
  unfolding admit
  admit-bound at [] ws asc len = omega (arith, len, spanned-≤ from till (ws k))
  admit-bound at ((key, x) ∷ xs) ws asc len =
      let ws' = (check_rate_limit lim key x ws).1 in
      let ih = admit-bound x xs ws' asc.1 (check-length key x ws len) in
      elim (le_or_lt x till) [
        | inl h ↦ ground (arith, ih, check-spanned key x ws h)
        | inr h ↦
            let late = admit-late x xs ws' h asc.1 in
            ground (arith, h, late, len, spanned-≤ from till (ws k))
      ]

-- From an empty limiter, and with a clock that never goes back, no more than the configured number
-- of requests of one key get through in any span as long as the window, both of its ends included.
pub admit-Bounded :
    (lim : Limits) (k : String) (from at : ℕ) (xs : List (String × ℕ))
    → Ascends at xs
    → arrived k from (from + lim.api_rate_limit_window_seconds) (admit lim xs (λ key. []))
      ≤ lim.api_rate_limit_requests
admit-Bounded lim k from at xs asc =
    omega (arith, admit-bound lim k from at xs (λ key. []) asc (omega arith))
