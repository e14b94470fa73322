-- ===== src/Llm/Fallback.antt =====
-- The pattern of `LLMClient._regex_fallback`, `\$\s*([0-9]+(?:\.[0-9]{1,2})?)`: none of its parts
-- has to give back a character, so that each takes as much as it can.
use Prim.Native.Char.{Char, code}
use agentic_ai.Base.{
  ℕ, zero, suc, String, Bool, ◌&&◌, ◌||◌, Option, none, some, List, [], ◌∷◌, leb, ◌≡◌, refl, ◌==ℕ◌,
  if◌then◌else◌, count,
}
use agentic_ai.Base.Text.{◌+s+◌, parse_ℕ, show_ℕ}
use agentic_ai.Workflow.{ParsedBillingRequest}

-- `\s`, on code points.
abbrev pub is_space : ℕ → Bool
is_space c =
    (leb 9 c && leb c 13)
    || (leb 28 c && leb c 32)
    || (c ==ℕ 133)
    || (c ==ℕ 160)
    || (c ==ℕ 5760)
    || (leb 8192 c && leb c 8202)
    || (c ==ℕ 8232)
    || (c ==ℕ 8233)
    || (c ==ℕ 8239)
    || (c ==ℕ 8287)
    || (c ==ℕ 12288)

-- `[0-9]`
abbrev pub is_ascii_digit : ℕ → Bool
is_ascii_digit c = leb b'0' c && leb c b'9'

-- What `\s*` leaves.
unfoldable pub skip_spaces : String → String
skip_spaces String.[] = ""
skip_spaces (String.◌∷◌ c s) =
    let rest = skip_spaces s in if is_space (code c) then rest else String.◌∷◌ c s

-- A character before the text that was taken.
abbrev pub taking : Char → String × String → String × String
taking c (taken, rest) = (String.◌∷◌ c taken, rest)

-- What `[0-9]*` takes, and what it leaves.
unfoldable pub take_digits : String → String × String
take_digits String.[] = ("", "")
take_digits (String.◌∷◌ c s) =
    let found = take_digits s in
    if is_ascii_digit (code c) then taking c found else ("", String.◌∷◌ c s)

-- `(?:\.[0-9]{1,2})?`
abbrev pub places : Char → Char → String → String × String
places dot a String.[] =
    if (code dot ==ℕ b'.') && is_ascii_digit (code a)
    then (String.◌∷◌ dot (String.◌∷◌ a ""), "")
    else ("", String.◌∷◌ dot (String.◌∷◌ a ""))
places dot a (String.◌∷◌ b s) =
    if (code dot ==ℕ b'.') && is_ascii_digit (code a)
    then if is_ascii_digit (code b)
      then (String.◌∷◌ dot (String.◌∷◌ a (String.◌∷◌ b "")), s)
      else (String.◌∷◌ dot (String.◌∷◌ a ""), String.◌∷◌ b s)
    else ("", String.◌∷◌ dot (String.◌∷◌ a (String.◌∷◌ b s)))

abbrev pub fraction : String → String × String
fraction String.[] = ("", "")
fraction (String.◌∷◌ c String.[]) = ("", String.◌∷◌ c "")
fraction (String.◌∷◌ dot (String.◌∷◌ a s)) = places dot a s

-- The group `(…)` and what follows it, after digits and what follows them.
abbrev pub group : String × String → Option (String × String)
group (String.[], rest) = none
group (String.◌∷◌ c whole, rest) =
    let (part, after) = fraction rest in some (String.◌∷◌ c whole +s+ part, after)

-- A match that begins with this character.
unfoldable pub match_at : Char → String → Option (String × String)
match_at c s = if code c ==ℕ b'$' then group (take_digits (skip_spaces s)) else none

-- `re.findall`: the groups of the matches from the left, each after the end of the one before; one
-- unit of fuel for each character.
unfoldable pub find_all : ℕ → String → List String
find_all zero s = []
find_all (suc n) String.[] = []
find_all (suc n) (String.◌∷◌ c s) = elim (match_at c s) [
  | none ↦ find_all n s
  | some (amount, after) ↦ amount ∷ find_all n after
]

-- The text of `Decimal(amount)`: without the zeros that lead.
unfoldable pub decimal_text : String → String
decimal_text amount =
    let (whole, part) = take_digits amount in
    elim (parse_ℕ whole) [ none ↦ amount | some n ↦ show_ℕ n +s+ part ]

-- `amounts[0]` and `amounts[1]`, where they are there.
abbrev pub first_two : List String → Option String × Option String
first_two [] = (none, none)
first_two (a ∷ []) = (some (decimal_text a), none)
first_two (a ∷ b ∷ rest) = (some (decimal_text a), some (decimal_text b))

unfoldable pub regex_fallback : String → ParsedBillingRequest
regex_fallback message =
    let (claimed, expected) = first_two (find_all (count message) message) in
    record {
      claimed_amount = claimed;
      expected_amount = expected;
      requested_action = "investigate";
    }

two_amounts : find_all 60 "I paid $ 0120.50, not $100.999!" ≡ "0120.50" ∷ "100.99" ∷ []
unfolding find_all match_at skip_spaces take_digits
two_amounts = refl
