-- ===== src/RateLimit.antt =====
-- src/api/rate_limit.py: the sliding window of each caller. The module's dictionary of queues is a
-- function (a missing key is an empty queue) that is passed on explicitly, under its lock; instants
-- and the window are numbers of one unit.
pub mod Bound
pub mod Callers
use agentic_ai.Base.{
  ℕ, ◌+◌, String, Bool, true, false, List, [], ◌∷◌, ◌++◌, ltb, leb, ◌==◌, if◌then◌else◌,
}
use agentic_ai.Base.Lists.{length}
use agentic_ai.Domain.Errors.{Result, ok, err, http, is_ok}
use agentic_ai.Base.Text.{◌+s+◌}

pub record Limits : Type 0 where
  pub api_rate_limit_requests : ℕ
  pub api_rate_limit_window_seconds : ℕ

abbrev pub Windows : Type 0
Windows = String → List ℕ

-- `while timestamps and now - timestamps[0] > window: timestamps.popleft()`
unfoldable pub popleft : ℕ → ℕ → List ℕ → List ℕ
popleft window now [] = []
popleft window now (x ∷ xs) =
    let rest = popleft window now xs in if ltb (x + window) now then rest else x ∷ xs

-- `_request_windows[key] = timestamps`
abbrev pub set : String → List ℕ → Windows → Windows
set key timestamps ws k = if k == key then timestamps else ws k

unfoldable pub check_rate_limit : Limits → String → ℕ → Windows → Result (Unit {0}) × Windows
check_rate_limit lim key now ws =
    let timestamps = popleft lim.api_rate_limit_window_seconds now (ws key) in
    if leb lim.api_rate_limit_requests (length timestamps)
    then (err (http 429 "Rate limit exceeded"), set key timestamps ws)
    else (ok tt, set key (timestamps ++ now ∷ []) ws)

-- `x_api_key or "anonymous"`
abbrev pub caller : String → String
caller x_api_key = if x_api_key == "" then "anonymous" else x_api_key

unfoldable pub rate_limit_chat : Limits → String → ℕ → Windows → Result (Unit {0}) × Windows
rate_limit_chat lim x_api_key = check_rate_limit lim ("chat:" +s+ caller x_api_key)

unfoldable pub rate_limit_approval : Limits → String → ℕ → Windows → Result (Unit {0}) × Windows
rate_limit_approval lim x_api_key = check_rate_limit lim ("approval:" +s+ caller x_api_key)

-- The arrivals, each a key and an instant, that are let through, one after the other.
unfoldable pub admit : Limits → List (String × ℕ) → Windows → List (String × ℕ)
admit lim [] ws = []
admit lim ((key, now) ∷ xs) ws =
    let (answer, ws') = check_rate_limit lim key now ws in
    let rest = admit lim xs ws' in if is_ok answer then (key, now) ∷ rest else rest
