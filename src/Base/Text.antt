-- ===== src/Base/Text.antt =====
-- Text: upper case, decimal notation and the text of an amount, as the language's `str` gives them.
use Prim.Native.Char.{Char, code}
use Prim.Native.String.{slice, ◌++◌ as ◌<>◌}
use text.Mathlib.Text.{find?}
use agentic_ai.Base.{
  ℕ, zero, suc, ◌+◌, ◌-◌, ◌/◌, ◌%◌, ◌≡◌, refl, Bool, true, false, none, some, List, [], ◌∷◌, String,
  ◌&&◌, leb, ltb, if◌then◌else◌, Option, ◌*◌, count, ◌==ℕ◌,
}
use agentic_ai.Base.Int.{ℤ, pos, negsuc}

infixr 65 ◌+s+◌
abbrev pub ◌+s+◌ : String → String → String
s +s+ t = s <> t

abbrev pub codes : String → List ℕ
codes String.[] = []
codes (String.◌∷◌ c s) = code c ∷ codes s

-- `part in text`
abbrev pub contains : String → String → Bool
contains text part = elim (find? text part) [ none ↦ false | some _ ↦ true ]

-- `str.upper` of one character; a character that is no ASCII letter stays as it is.
abbrev pub upper_char : Char → String
upper_char c =
    if leb b'a' (code c) && leb (code c) b'z'
    then slice "ABCDEFGHIJKLMNOPQRSTUVWXYZ" (code c - b'a') (code c - b'a' + 1)
    else String.◌∷◌ c String.[]

unfoldable pub upper : String → String
upper String.[] = String.[]
upper (String.◌∷◌ c s) = upper_char c +s+ upper s

-- The value of a digit's code point.
abbrev pub digit_value : ℕ → Option ℕ
digit_value c = if leb b'0' c && leb c b'9' then some (c - b'0') else none

-- The number that digits stand for after those of `n`.
unfoldable pub scan_ℕ : ℕ → String → Option ℕ
scan_ℕ n String.[] = some n
scan_ℕ n (String.◌∷◌ c s) = elim (digit_value (code c)) [
  | none ↦ none
  | some d ↦ scan_ℕ (n * 10 + d) s
]

-- `int` of a text of digits; signs, blanks and underscores are refused.
unfoldable pub parse_ℕ : String → Option ℕ
unfolding scan_ℕ
parse_ℕ String.[] = none
parse_ℕ (String.◌∷◌ c s) = scan_ℕ 0 (String.◌∷◌ c s)

-- A character before the first of the parts.
abbrev pub onto : Char → List String → List String
onto c [] = String.◌∷◌ c String.[] ∷ []
onto c (x ∷ xs) = String.◌∷◌ c x ∷ xs

-- `text.split(separator)` at a separator of one character.
unfoldable pub split_on : ℕ → String → List String
split_on sep String.[] = "" ∷ []
split_on sep (String.◌∷◌ c s) =
    let rest = split_on sep s in if code c ==ℕ sep then "" ∷ rest else onto c rest

abbrev pub digit : ℕ → String
digit n = slice "0123456789" (n % 10) (n % 10 + 1)

-- The decimal digits of a number; one unit of fuel for each digit but the last.
unfoldable pub digits_fuel : ℕ → ℕ → String
digits_fuel zero n = digit n
digits_fuel (suc f) n =
    let front = digits_fuel f (n / 10) in if ltb n 10 then digit n else front +s+ digit n

-- `str` of a number: it has at most as many digits as its value is large.
unfoldable pub show_ℕ : ℕ → String
unfolding digits_fuel
show_ℕ n = digits_fuel n n

abbrev pub show_cents : ℕ → String
show_cents n = show_ℕ (n / 100) +s+ "." +s+ digit (n % 100 / 10) +s+ digit (n % 10)

-- `str` of a `Decimal` with two places, given in cents.
unfoldable pub show_amount : ℤ → String
unfolding show_ℕ
show_amount (pos n) = show_cents n
show_amount (negsuc n) = "-" +s+ show_cents (suc n)

-- The cents that digits before and after the point stand for.
abbrev pub cents : Option ℕ → Option ℕ → Option ℕ
cents (some whole) (some part) = some (whole * 100 + part)
cents _ _ = none

-- `Decimal` of a text without a sign, with no more than two places; in cents.
abbrev pub unsigned : List String → Option ℕ
unsigned (whole ∷ []) = cents (parse_ℕ whole) (some 0)
unsigned (whole ∷ part ∷ []) =
    if count part ==ℕ 2
    then cents (parse_ℕ whole) (parse_ℕ part)
    else if count part ==ℕ 1
    then cents (parse_ℕ whole) (parse_ℕ (part +s+ "0"))
    else none
unsigned _ = none

abbrev pub positive : Option ℕ → Option ℤ
positive none = none
positive (some n) = some (pos n)

abbrev pub negated : Option ℕ → Option ℤ
negated none = none
negated (some zero) = some (pos 0)
negated (some (suc n)) = some (negsuc n)

-- `Decimal` of a text in cents, where it has no more than two places and no exponent.
unfoldable pub decimal : String → Option ℤ
decimal String.[] = none
decimal (String.◌∷◌ c s) =
    if code c ==ℕ b'-'
    then negated (unsigned (split_on b'.' s))
    else positive (unsigned (split_on b'.' (String.◌∷◌ c s)))

upper_usd : upper "uSd" ≡ "USD"
unfolding upper
upper_usd = refl

show_amount_examples : show_amount (negsuc 12344) ≡ "-123.45"
unfolding show_amount
show_amount_examples = refl
