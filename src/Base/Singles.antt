-- ===== src/Base/Singles.antt =====
-- The texts that are cut out of a table of characters: single characters, checked one by one.
use Prim.Native.Char.{Char, code}
use Prim.Native.String.{slice}
use agentic_ai.Base.{
  ℕ, zero, suc, ◌+◌, ◌<◌, ◌≡◌, refl, Bool, true, false, ◌&&◌, not, none, some, String, arith, leb,
  ◌==ℕ◌, ◌-◌, Bool-cases, inl, inr, subst, sym,
}
use agentic_ai.Base.Text.{digit_value, upper_char}

-- A test of all numbers below a bound.
abbrev all_below : ℕ → (ℕ → Bool) → Bool
all_below zero p = true
all_below (suc n) p = p n && all_below n p

all_below_sound : (n : ℕ) (p : ℕ → Bool) (k : ℕ) → all_below n p ≡ true → k < n → p k ≡ true
all_below_sound zero p k h lt = absurd (omega arith)
all_below_sound (suc n) p k h lt = ground (arith, all_below_sound n p k)

-- A digit is a single character, with its value.
abbrev pub IsDigit : ℕ → String → Type 0
IsDigit k s = (c : Char) × (s ≡ String.◌∷◌ c "") × (digit_value (code c) ≡ some k)

abbrev is_digit_of : ℕ → String → Bool
is_digit_of k String.[] = false
is_digit_of k (String.◌∷◌ c String.[]) = elim (digit_value (code c)) [
  | none ↦ false
  | some j ↦ j ==ℕ k
]
is_digit_of k (String.◌∷◌ c (String.◌∷◌ d s)) = false

is_digit_of-IsDigit : (k : ℕ) (s : String) → is_digit_of k s ≡ true → IsDigit k s
is_digit_of-IsDigit k String.[] h = cc
is_digit_of-IsDigit k (String.◌∷◌ c String.[]) h = (c, refl, ground arith)
is_digit_of-IsDigit k (String.◌∷◌ c (String.◌∷◌ d s)) h = cc

pub slice-IsDigit : (k : ℕ) → k < 10 → IsDigit k (slice "0123456789" k (k + 1))
slice-IsDigit k lt =
    is_digit_of-IsDigit k (slice "0123456789" k (k + 1))
      (all_below_sound 10 (λ k. is_digit_of k (slice "0123456789" k (k + 1))) k refl lt)

-- A single character that `upper` leaves alone.
abbrev pub IsUpper : String → Type 0
IsUpper s = (c : Char) × (s ≡ String.◌∷◌ c "") × (upper_char c ≡ String.◌∷◌ c "")

abbrev is_upper : String → Bool
is_upper String.[] = false
is_upper (String.◌∷◌ c String.[]) = not (leb b'a' (code c) && leb (code c) b'z')
is_upper (String.◌∷◌ c (String.◌∷◌ d s)) = false

is_upper-IsUpper : (s : String) → is_upper s ≡ true → IsUpper s
is_upper-IsUpper String.[] h = cc
is_upper-IsUpper (String.◌∷◌ c String.[]) h = (c, refl, ground arith)
is_upper-IsUpper (String.◌∷◌ c (String.◌∷◌ d s)) h = cc

abbrev letters : String
letters = "ABCDEFGHIJKLMNOPQRSTUVWXYZ"

letter_IsUpper : (k : ℕ) → k < 26 → IsUpper (slice letters k (k + 1))
letter_IsUpper k lt =
    is_upper-IsUpper (slice letters k (k + 1))
      (all_below_sound 26 (λ k. is_upper (slice letters k (k + 1))) k refl lt)

pub upper_char-IsUpper : (c : Char) → IsUpper (upper_char c)
upper_char-IsUpper c = elim (Bool-cases (leb b'a' (code c) && leb (code c) b'z')) [
  | inl lower ↦
      let k = code c - b'a' in
      let e : upper_char c ≡ slice letters k (k + 1) = ground (arith, lower) in
      subst IsUpper (sym e) (letter_IsUpper k (ground (arith, lower)))
  | inr other ↦ let e : upper_char c ≡ String.◌∷◌ c "" = ground (arith, other) in (c, e, e)
]
