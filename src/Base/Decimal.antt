-- ===== src/Base/Decimal.antt =====
-- The text of an amount is read back as the amount.
use Prim.Native.Char.{Char, code}
use Prim.Native.String.append
use Prim.Native.String.count as Count
use agentic_ai.Base.{
  ℕ, zero, suc, ◌+◌, ◌*◌, ◌/◌, ◌%◌, ◌<◌, ◌≡◌, refl, ap, ◌∙◌, true, some, ◌∷◌, String, arith, ltb,
  count, Bool-cases, inl, inr,
}
use agentic_ai.Base.Int.{ℤ, pos, negsuc}
use agentic_ai.Base.Text.{
  ◌+s+◌, digit, digits_fuel, parse_ℕ, show_ℕ, show_cents, show_amount, split_on, unsigned, negated,
  decimal, digit_value, scan_ℕ,
}
use agentic_ai.Base.Singles.{IsDigit, slice-IsDigit}
use agentic_ai.Base.Digits.{parse_ℕ-show_ℕ}
use agentic_ai.Base.Parts.{lacks, lacks-append, split-join, split-end}

pub digit-IsDigit : (n : ℕ) → IsDigit (n % 10) (digit n)
digit-IsDigit n = slice-IsDigit (n % 10) (omega arith)

-- A digit is no character before `0`.
IsDigit-lacks : (k sep : ℕ) (s : String) → IsDigit k s → sep < 48 → lacks sep s ≡ true
IsDigit-lacks k sep s (c, e, v) lt = ap (lacks sep) e ∙ ground (arith, v, lt)

digit-lacks : (sep n : ℕ) → sep < 48 → lacks sep (digit n) ≡ true
digit-lacks sep n lt = IsDigit-lacks (n % 10) sep (digit n) (digit-IsDigit n) lt

digits_lacks : (sep f n : ℕ) → sep < 48 → lacks sep (digits_fuel f n) ≡ true
unfolding digits_fuel
digits_lacks sep zero n lt = digit-lacks sep n lt
digits_lacks sep (suc f) n lt = elim (Bool-cases (ltb n 10)) [
  | inl one ↦ rw one (digit-lacks sep n lt)
  | inr more ↦ rw more (
      lacks-append sep (digits_fuel f (n / 10)) (digit n) (digits_lacks sep f (n / 10) lt)
        (digit-lacks sep n lt))
]

show_ℕ-lacks : (sep n : ℕ) → sep < 48 → lacks sep (show_ℕ n) ≡ true
unfolding show_ℕ
show_ℕ-lacks sep n = digits_lacks sep n n

two_characters :
    (c d : Char) (j k : ℕ)
    → digit_value (code c) ≡ some j
    → digit_value (code d) ≡ some k
    → parse_ℕ (String.◌∷◌ c (String.◌∷◌ d "")) ≡ some (j * 10 + k)
unfolding parse_ℕ scan_ℕ
two_characters c d j k vc vd = ground (arith, vc, vd)

-- Two digits are two characters, and are read as a number.
two_digits :
    (j k : ℕ) (s t : String)
    → IsDigit j s
    → IsDigit k t
    → (count (s +s+ t) ≡ 2) × (parse_ℕ (s +s+ t) ≡ some (j * 10 + k))
two_digits j k s t (c, es, vc) (d, et, vd) =
    let e = ap (λ x. x +s+ t) es ∙ append.cons c "" t ∙ ap (String.◌∷◌ c) (append.nil t ∙ et) in
    let long = Count.cons c (String.◌∷◌ d "") ∙ ap suc (Count.cons d "" ∙ ap suc Count.nil) in
    (ap count e ∙ long, ap parse_ℕ e ∙ two_characters c d j k vc vd)

-- The text of an unsigned amount.
unsigned-show_cents : (n : ℕ) → unsigned (split_on b'.' (show_cents n)) ≡ some n
unsigned-show_cents n =
    let tens = digit (n % 100 / 10) in
    let ones = digit (n % 10) in
    let (long, read) =
      two_digits (n % 100 / 10 % 10) (n % 10 % 10) tens ones (digit-IsDigit (n % 100 / 10))
        (digit-IsDigit (n % 10)) in
    let parts =
      split-join "." (show_ℕ (n / 100)) (tens +s+ ones) (show_ℕ-lacks b'.' (n / 100) (omega arith))
      ∙ ap (λ r. show_ℕ (n / 100) ∷ r)
          (split-end b'.' (tens +s+ ones) (
            lacks-append b'.' tens ones (digit-lacks b'.' (n % 100 / 10) (omega arith))
              (digit-lacks b'.' (n % 10) (omega arith)))) in
    ap unsigned parts ∙ ground (arith, long, read, parse_ℕ-show_ℕ (n / 100))

decimal_cons :
    (c : Char) (s : String) (n : ℕ)
    → lacks b'-' (String.◌∷◌ c s) ≡ true
    → unsigned (split_on b'.' (String.◌∷◌ c s)) ≡ some n
    → decimal (String.◌∷◌ c s) ≡ some (pos n)
unfolding decimal
decimal_cons c s n h e = ground (arith, h, e)

-- Without a sign, a text is read as it stands.
decimal-unsigned :
    (s : String) (n : ℕ)
    → lacks b'-' s ≡ true
    → unsigned (split_on b'.' s) ≡ some n
    → decimal s ≡ some (pos n)
unfolding split_on parse_ℕ
decimal-unsigned String.[] n h e = cc
decimal-unsigned (String.◌∷◌ c s) n h e = decimal_cons c s n h e

pub show_cents-lacks : (sep n : ℕ) → sep < 46 → lacks sep (show_cents n) ≡ true
show_cents-lacks sep n lt =
    let tens = digit (n % 100 / 10) in
    let ones = digit (n % 10) in
    lacks-append sep (show_ℕ (n / 100)) ("." +s+ tens +s+ ones)
      (show_ℕ-lacks sep (n / 100) (omega (arith, lt)))
      (lacks-append sep "." (tens +s+ ones) (ground (arith, lt)) (
        lacks-append sep tens ones (digit-lacks sep (n % 100 / 10) (omega (arith, lt)))
          (digit-lacks sep (n % 10) (omega (arith, lt)))))

decimal_minus : (t : String) → decimal (String.◌∷◌ "-" t) ≡ negated (unsigned (split_on b'.' t))
unfolding decimal
decimal_minus t = refl

-- The text of an amount is read back as the amount.
pub decimal-show_amount : (n : ℤ) → decimal (show_amount n) ≡ some n
unfolding show_amount
decimal-show_amount (pos n) =
    decimal-unsigned (show_cents n) n (show_cents-lacks b'-' n (omega arith))
      (unsigned-show_cents n)
decimal-show_amount (negsuc n) =
    ap decimal (append.cons "-" "" (show_cents (suc n)) ∙ ap (String.◌∷◌ "-") (append.nil _))
    ∙ decimal_minus (show_cents (suc n))
    ∙ ap negated (unsigned-show_cents (suc n))
