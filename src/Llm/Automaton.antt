-- ===== src/Llm/Automaton.antt =====
-- The pattern of the fallback as an automaton that reads a message once, character by character, against
-- `re.findall`.
use Prim.Native.Char.{Char, code}
use Prim.Native.String.append
use agentic_ai.Base.{
  ℕ, ◌≤◌, ◌≡◌, refl, sym, ap, ◌∙◌, true, false, Option, none, some, String, List, [], ◌∷◌, arith,
  count, ◌==ℕ◌, Bool-cases, inl, inr, if◌then◌else◌,
}
use agentic_ai.Base.Text.{◌+s+◌}
use agentic_ai.Llm.Fallback.{
  is_space, is_ascii_digit, skip_spaces, take_digits, fraction, group, match_at, find_all,
}
use agentic_ai.Llm.Enough.{all_matches, digit_no_start, find_all-enough}

-- What of the pattern was read last: nothing, the dollar sign and blanks, a digit of the whole part, the
-- point, or the first digit after it.
pub data State : Type 0 where
  idle dollar whole tenth : State
  point : Char → State

-- A character of the amount that is being read.
abbrev pub extend : Char → List String → List String
extend c [] = []
extend c (amount ∷ amounts) = String.◌∷◌ c amount ∷ amounts

-- The amounts of the rest of a message; within an amount, what is left of it comes first. The point is
-- part of the amount once a digit follows, so that it is handed on.
unfoldable pub scan : State → String → List String
scan idle String.[] = []
scan idle (String.◌∷◌ c s) =
    let started = scan dollar s in
    let ahead = scan idle s in if code c ==ℕ b'$' then started else ahead
scan dollar String.[] = []
scan dollar (String.◌∷◌ c s) =
    let blank = scan dollar s in
    let digit = scan whole s in
    let ahead = scan idle s in
    if is_space (code c)
    then blank
    else if is_ascii_digit (code c)
    then extend c digit
    else if code c ==ℕ b'$'
    then blank
    else ahead
scan whole String.[] = "" ∷ []
scan whole (String.◌∷◌ c s) =
    let digit = scan whole s in
    let pointed = scan (point c) s in
    let started = scan dollar s in
    let ahead = scan idle s in
    if is_ascii_digit (code c)
    then extend c digit
    else if code c ==ℕ b'.'
    then pointed
    else if code c ==ℕ b'$'
    then "" ∷ started
    else "" ∷ ahead
scan (point dot) String.[] = "" ∷ []
scan (point dot) (String.◌∷◌ c s) =
    let digit = scan tenth s in
    let started = scan dollar s in
    let ahead = scan idle s in
    if is_ascii_digit (code c)
    then extend dot (extend c digit)
    else if code c ==ℕ b'$'
    then "" ∷ started
    else "" ∷ ahead
scan tenth String.[] = "" ∷ []
scan tenth (String.◌∷◌ c s) =
    let started = scan dollar s in
    let ahead = scan idle s in
    if is_ascii_digit (code c)
    then extend c ("" ∷ ahead)
    else if code c ==ℕ b'$'
    then "" ∷ started
    else "" ∷ ahead

scanned : scan idle "I paid $ 0120.50, not $100.999!" ≡ "0120.50" ∷ "100.99" ∷ []
unfolding scan
scanned = refl

-- The second place of an amount, if a digit is there.
abbrev second : String → String
second String.[] = ""
second (String.◌∷◌ c s) = if is_ascii_digit (code c) then String.◌∷◌ c "" else ""

-- The amount of a match, if there is one, before others.
abbrev before : Option (String × String) → List String → List String
before none amounts = amounts
before (some (amount, after)) amounts = amount ∷ amounts

-- What the automaton reads of a text, in each state.
record IsScanned (s : String) : Type 0 where
  idle_scan : scan idle s ≡ all_matches s
  dollar_scan : scan dollar s ≡ before (group (take_digits (skip_spaces s))) (all_matches s)
  whole_scan : scan whole s ≡ ((take_digits s).0 +s+ (fraction (take_digits s).1).0) ∷ all_matches s
  point_scan :
      (dot : Char)
      → (code dot ==ℕ b'.') ≡ true
      → scan (point dot) s ≡ (fraction (String.◌∷◌ dot s)).0 ∷ all_matches s
  tenth_scan : scan tenth s ≡ second s ∷ all_matches s

abbrev front : String → List String → List String
front amount amounts = amount ∷ amounts

match_started :
    (c : Char) (s : String)
    → (code c ==ℕ b'$') ≡ true
    → match_at c s ≡ group (take_digits (skip_spaces s))
unfolding match_at
match_started c s start = ground (arith, start)

started :
    (c : Char) (s : String)
    → (code c ==ℕ b'$') ≡ true
    → all_matches (String.◌∷◌ c s) ≡ before (group (take_digits (skip_spaces s))) (all_matches s)
unfolding all_matches
started c s start =
    rw (all_matches, match_started c s start) (by_match (group (take_digits (skip_spaces s))))
  where
    by_match :
        (o : Option (String × String))
        → ◌≡◌ {A = List String}
            (elim o [ none ↦ all_matches s | some (amount, after) ↦ amount ∷ all_matches s ])
            (before o (all_matches s))
    by_match none = refl
    by_match (some (amount, after)) = refl

passed :
    (c : Char) (s : String)
    → (code c ==ℕ b'$') ≡ false
    → all_matches (String.◌∷◌ c s) ≡ all_matches s
unfolding all_matches match_at
passed c s other = ground (arith, other)

no_fraction :
    (c : Char) → (code c ==ℕ b'.') ≡ false → (t : String) → (fraction (String.◌∷◌ c t)).0 ≡ ""
no_fraction c other String.[] = refl
no_fraction c other (String.◌∷◌ a String.[]) = ground (arith, other)
no_fraction c other (String.◌∷◌ a (String.◌∷◌ b t)) = ground (arith, other)

no_place :
    (dot c : Char)
    → is_ascii_digit (code c) ≡ false
    → (s : String) → (fraction (String.◌∷◌ dot (String.◌∷◌ c s))).0 ≡ ""
no_place dot c mark String.[] = ground (arith, mark)
no_place dot c mark (String.◌∷◌ b s) = ground (arith, mark)

point_fraction :
    (dot c : Char)
    → (code dot ==ℕ b'.') ≡ true
    → is_ascii_digit (code c) ≡ true
    → (s : String)
    → (fraction (String.◌∷◌ dot (String.◌∷◌ c s))).0 ≡ String.◌∷◌ dot (String.◌∷◌ c (second s))
point_fraction dot c is_dot digit String.[] = ground (arith, is_dot, digit)
point_fraction dot c is_dot digit (String.◌∷◌ b s) = ground (arith, is_dot, digit)

taken :
    (c : Char) (s : String)
    → is_ascii_digit (code c) ≡ true
    → take_digits (String.◌∷◌ c s) ≡ (String.◌∷◌ c (take_digits s).0, (take_digits s).1)
unfolding take_digits
taken c s digit = ground (arith, digit)

untaken :
    (c : Char) (s : String)
    → is_ascii_digit (code c) ≡ false
    → take_digits (String.◌∷◌ c s) ≡ ("", String.◌∷◌ c s)
unfolding take_digits
untaken c s mark = ground (arith, mark)

module _ (c : Char) (s : String) (h : IsScanned s) where
  -- The step of a character that no amount takes.
  free : (if code c ==ℕ b'$' then scan dollar s else scan idle s) ≡ all_matches (String.◌∷◌ c s)
  free = elim (Bool-cases (code c ==ℕ b'$')) [
    | inl start ↦ rw start (h.dollar_scan ∙ sym (started c s start))
    | inr other ↦ rw other (h.idle_scan ∙ sym (passed c s other))
  ]

  free_after :
      ◌≡◌ {A = List String}
        (if code c ==ℕ b'$' then "" ∷ scan dollar s else "" ∷ scan idle s)
        ("" ∷ all_matches (String.◌∷◌ c s))
  free_after = elim (Bool-cases (code c ==ℕ b'$')) [
    | inl start ↦ rw start (ap (λ r. front "" r) (h.dollar_scan ∙ sym (started c s start)))
    | inr other ↦ rw other (ap (λ r. front "" r) (h.idle_scan ∙ sym (passed c s other)))
  ]

  idle_step : scan idle (String.◌∷◌ c s) ≡ all_matches (String.◌∷◌ c s)
  unfolding scan
  idle_step = free

  digit_passed : is_ascii_digit (code c) ≡ true → all_matches (String.◌∷◌ c s) ≡ all_matches s
  digit_passed digit = passed c s (digit_no_start (code c) digit)

  -- The amount that a digit goes on with.
  whole_digit :
      is_ascii_digit (code c) ≡ true
      → extend c (scan whole s)
        ≡ front
            ((take_digits (String.◌∷◌ c s)).0 +s+ (fraction (take_digits (String.◌∷◌ c s)).1).0)
            (all_matches (String.◌∷◌ c s))
  whole_digit digit =
      rw (taken c s digit, digit_passed digit, h.whole_scan)
        (ap (λ a. front a (all_matches s))
          (sym (append.cons c (take_digits s).0 (fraction (take_digits s).1).0)))

  spaces_step : is_space (code c) ≡ true → skip_spaces (String.◌∷◌ c s) ≡ skip_spaces s
  unfolding skip_spaces
  spaces_step space = ground (arith, space)

  no_spaces_step : is_space (code c) ≡ false → skip_spaces (String.◌∷◌ c s) ≡ String.◌∷◌ c s
  unfolding skip_spaces
  no_spaces_step other = ground (arith, other)

  dollar_digit :
      is_ascii_digit (code c) ≡ true
      → extend c (scan whole s)
        ≡ before (group (take_digits (String.◌∷◌ c s))) (all_matches (String.◌∷◌ c s))
  dollar_digit digit =
      rw (taken c s digit, digit_passed digit, h.whole_scan)
        (ap (λ a. front a (all_matches s))
          (sym (append.cons c (take_digits s).0 (fraction (take_digits s).1).0)))

  dollar_step :
      scan dollar (String.◌∷◌ c s)
      ≡ before (group (take_digits (skip_spaces (String.◌∷◌ c s)))) (all_matches (String.◌∷◌ c s))
  unfolding scan
  dollar_step = elim (Bool-cases (is_space (code c))) [
    | inl space ↦ rw (space, spaces_step space, passed c s (ground (arith, space))) h.dollar_scan
    | inr other ↦ elim (Bool-cases (is_ascii_digit (code c))) [
      | inl digit ↦ rw (other, digit, no_spaces_step other) (dollar_digit digit)
      | inr mark ↦ rw (other, mark, no_spaces_step other, untaken c s mark) free
    ]
  ]

  whole_step :
      scan whole (String.◌∷◌ c s)
      ≡ front
          ((take_digits (String.◌∷◌ c s)).0 +s+ (fraction (take_digits (String.◌∷◌ c s)).1).0)
          (all_matches (String.◌∷◌ c s))
  unfolding scan
  whole_step = elim (Bool-cases (is_ascii_digit (code c))) [
    | inl digit ↦ rw digit (whole_digit digit)
    | inr mark ↦ elim (Bool-cases (code c ==ℕ b'.')) [
      | inl dot ↦
          rw
            (
              mark,
              dot,
              untaken c s mark,
              append.nil (fraction (String.◌∷◌ c s)).0,
              passed c s (ground (arith, dot)),
            )
            (h.point_scan c dot)
      | inr other ↦
          rw
            (
              mark,
              other,
              untaken c s mark,
              append.nil (fraction (String.◌∷◌ c s)).0,
              no_fraction c other s,
            )
            free_after
    ]
  ]

  tenth_step :
      scan tenth (String.◌∷◌ c s) ≡ front (second (String.◌∷◌ c s)) (all_matches (String.◌∷◌ c s))
  unfolding scan
  tenth_step = elim (Bool-cases (is_ascii_digit (code c))) [
    | inl digit ↦ rw (digit, digit_passed digit, h.idle_scan) refl
    | inr mark ↦ rw mark free_after
  ]

  point_step :
      (dot : Char)
      → (code dot ==ℕ b'.') ≡ true
      → scan (point dot) (String.◌∷◌ c s)
        ≡ front (fraction (String.◌∷◌ dot (String.◌∷◌ c s))).0 (all_matches (String.◌∷◌ c s))
  unfolding scan
  point_step dot is_dot = elim (Bool-cases (is_ascii_digit (code c))) [
    | inl digit ↦
        rw (digit, digit_passed digit, h.tenth_scan, point_fraction dot c is_dot digit s) refl
    | inr mark ↦ rw (mark, no_place dot c mark s) free_after
  ]

is_scanned : (s : String) → IsScanned s
unfolding scan all_matches skip_spaces take_digits
is_scanned String.[] = record {
  idle_scan = refl;
  dollar_scan = refl;
  whole_scan = ap (λ a. front a []) (sym (append.nil ""));
  point_scan = λ dot e. refl;
  tenth_scan = refl;
}
is_scanned (String.◌∷◌ c s) =
    let h = is_scanned s in
    record {
      idle_scan = idle_step c s h;
      dollar_scan = dollar_step c s h;
      whole_scan = whole_step c s h;
      point_scan = point_step c s h;
      tenth_scan = tenth_step c s h;
    }

-- On fuel of a unit for each character, `re.findall` with the pattern finds the amounts that the
-- automaton reads in one pass over the message.
pub find_all-scan : (n : ℕ) (s : String) → count s ≤ n → find_all n s ≡ scan idle s
find_all-scan n s h = find_all-enough n s h ∙ sym (is_scanned s).idle_scan
