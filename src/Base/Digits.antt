-- ===== src/Base/Digits.antt =====
-- Decimal notation is read back.
use Prim.Native.Char.{code}
use Prim.Native.String.append
use agentic_ai.Base.{
  ℕ, zero, suc, ◌+◌, ◌*◌, ◌/◌, ◌%◌, ◌≤◌, ◌≡◌, ◌≢◌, refl, sym, ◌∙◌, some, String, arith, ltb,
  Bool-cases, inl, inr, Option-cases, some_inj, ap,
}
use agentic_ai.Base.Singles.{IsDigit, slice-IsDigit}
use agentic_ai.Base.Text.{◌+s+◌, digit, digits_fuel, digit_value, scan_ℕ, parse_ℕ, show_ℕ}

-- Reading a text after another.
scan-append : (s t : String) (n m : ℕ) → scan_ℕ n s ≡ some m → scan_ℕ n (s +s+ t) ≡ scan_ℕ m t
unfolding scan_ℕ
scan-append String.[] t n m h = rw (append.nil t) (ap (λ (k : ℕ). scan_ℕ k t) (some_inj h))
scan-append (String.◌∷◌ c s) t n m h = elim (Option-cases (digit_value (code c))) [
  | inl e ↦ absurd (ground (arith, e, h))
  | inr (d, e) ↦
      rw (append.cons c s t)
        (ground (arith, e, scan-append s t (n * 10 + d) m (ground (arith, e, h))))
]

-- One digit, read after those of `m`.
scan_IsDigit : (k m : ℕ) (s : String) → IsDigit k s → scan_ℕ m s ≡ some (m * 10 + k)
unfolding scan_ℕ
scan_IsDigit k m s (c, e, v) = ap (scan_ℕ m) e ∙ ground (arith, v)

scan-digit : (n m : ℕ) → scan_ℕ m (digit n) ≡ some (m * 10 + n % 10)
scan-digit n m = scan_IsDigit (n % 10) m (digit n) (slice-IsDigit (n % 10) (omega arith))

scan-digits : (f n : ℕ) → n ≤ f → scan_ℕ 0 (digits_fuel f n) ≡ some n
unfolding digits_fuel
scan-digits zero n h = scan-digit n 0 ∙ ap some (omega (arith, h))
scan-digits (suc f) n h = elim (Bool-cases (ltb n 10)) [
  | inl one ↦ rw one (scan-digit n 0 ∙ ap some (ground (arith, one)))
  | inr more ↦ rw more (
      scan-append (digits_fuel f (n / 10)) (digit n) 0 (n / 10)
        (scan-digits f (n / 10) (ground (arith, more, h)))
      ∙ scan-digit n (n / 10)
      ∙ ap some (omega arith))
]

append-ne : (s t : String) → t ≢ "" → s +s+ t ≢ ""
append-ne String.[] t h e = h (sym (append.nil t) ∙ e)
append-ne (String.◌∷◌ c s) t h e = cc (sym (append.cons c s t) ∙ e)

digit-ne : (n : ℕ) → digit n ≢ ""
unfolding scan_ℕ
digit-ne n e = let read = sym (scan-digit n 1) ∙ ap (scan_ℕ 1) e in omega (arith, some_inj read)

digits-ne : (f n : ℕ) → digits_fuel f n ≢ ""
unfolding digits_fuel
digits-ne zero n = digit-ne n
digits-ne (suc f) n = elim (Bool-cases (ltb n 10)) [
  | inl one ↦ rw one (digit-ne n)
  | inr more ↦ rw more (append-ne (digits_fuel f (n / 10)) (digit n) (digit-ne n))
]

parse-scan : (s : String) (n : ℕ) → s ≢ "" → scan_ℕ 0 s ≡ some n → parse_ℕ s ≡ some n
unfolding parse_ℕ
parse-scan String.[] n ne h = absurd (ne refl)
parse-scan (String.◌∷◌ c s) n ne h = h

-- The decimal notation of a number is read back as the number.
pub parse_ℕ-show_ℕ : (n : ℕ) → parse_ℕ (show_ℕ n) ≡ some n
unfolding show_ℕ
parse_ℕ-show_ℕ n = parse-scan (digits_fuel n n) n (digits-ne n n) (scan-digits n n (omega arith))
