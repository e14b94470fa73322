-- ===== src/Llm/Named.antt =====
-- The fallback finds the amounts that a message names, as they are printed.
use Prim.Native.Char.{Char, code}
use Prim.Native.String.append
use text.Mathlib.TextLemmas.{append_assoc}
use agentic_ai.Base.{
  ℕ, zero, suc, ◌/◌, ◌%◌, ◌≡◌, refl, sym, ap, ◌∙◌, Bool, true, ◌&&◌, none, some, String, ◌∷◌, arith,
  ltb, count, Bool-cases, inl, inr,
}
use agentic_ai.Base.Int.{pos}
use agentic_ai.Base.Text.{◌+s+◌, digit, digits_fuel, parse_ℕ, show_ℕ, show_cents, show_amount}
use agentic_ai.Base.Digits.{parse_ℕ-show_ℕ}
use agentic_ai.Base.Decimal.{digit-IsDigit, show_cents-lacks}
use agentic_ai.Base.Parts.{lacks}
use agentic_ai.Llm.Fallback.{
  is_ascii_digit, skip_spaces, take_digits, group, match_at, decimal_text, first_two,
  regex_fallback,
}
use agentic_ai.Llm.Enough.{all_matches, find_all-enough}

-- The text has digits only.
abbrev all_digits : String → Bool
all_digits String.[] = true
all_digits (String.◌∷◌ c s) = is_ascii_digit (code c) && all_digits s

all_digits-append :
    (s t : String) → all_digits s ≡ true → all_digits t ≡ true → all_digits (s +s+ t) ≡ true
all_digits-append String.[] t h k = rw (append.nil t) k
all_digits-append (String.◌∷◌ c s) t h k =
    rw (append.cons c s t) (ground (arith, h, all_digits-append s t))

digit_all : (n : ℕ) → all_digits (digit n) ≡ true
digit_all n = let (c, e, v) = digit-IsDigit n in ap all_digits e ∙ ground (arith, v)

digits_all : (f n : ℕ) → all_digits (digits_fuel f n) ≡ true
unfolding digits_fuel
digits_all zero n = digit_all n
digits_all (suc f) n = elim (Bool-cases (ltb n 10)) [
  | inl one ↦ rw one (digit_all n)
  | inr more ↦
      rw more
        (all_digits-append (digits_fuel f (n / 10)) (digit n) (digits_all f (n / 10)) (digit_all n))
]

show_ℕ_all : (n : ℕ) → all_digits (show_ℕ n) ≡ true
unfolding show_ℕ
show_ℕ_all n = digits_all n n

-- A point and two digits.
record IsPlaces (s : String) : Type 0 where
  tens : Char
  ones : Char
  text : s ≡ String.◌∷◌ "." (String.◌∷◌ tens (String.◌∷◌ ones ""))
  tens_digit : is_ascii_digit (code tens) ≡ true
  ones_digit : is_ascii_digit (code ones) ≡ true

digits-IsPlaces : (a b : ℕ) → IsPlaces ("." +s+ digit a +s+ digit b)
digits-IsPlaces a b =
    let (c, ec, vc) = digit-IsDigit a in
    let (d, ed, vd) = digit-IsDigit b in
    record {
      tens = c;
      ones = d;
      text =
          append.cons "." "" (digit a +s+ digit b)
          ∙ ap (String.◌∷◌ ".") (
              append.nil _
              ∙ ap (λ s. s +s+ digit b) ec
              ∙ append.cons c "" (digit b)
              ∙ ap (String.◌∷◌ c) (append.nil _ ∙ ed));
      tens_digit = ground (arith, vc);
      ones_digit = ground (arith, vd);
    }

take_digits-append :
    (s t : String)
    → all_digits s ≡ true
    → take_digits (s +s+ String.◌∷◌ "." t) ≡ (s, String.◌∷◌ "." t)
unfolding take_digits
take_digits-append String.[] t h = rw (append.nil (String.◌∷◌ "." t)) refl
take_digits-append (String.◌∷◌ c s) t h =
    rw (append.cons c s (String.◌∷◌ "." t)) (ground (arith, h, take_digits-append s t))

skip_digit :
    (c : Char) (s : String)
    → is_ascii_digit (code c) ≡ true
    → skip_spaces (String.◌∷◌ c s) ≡ String.◌∷◌ c s
unfolding skip_spaces
skip_digit c s h = ground (arith, h)

group_places :
    (c a b : Char) (w t : String)
    → is_ascii_digit (code a) ≡ true
    → is_ascii_digit (code b) ≡ true
    → group (String.◌∷◌ c w, String.◌∷◌ "." (String.◌∷◌ a (String.◌∷◌ b t)))
      ≡ some (String.◌∷◌ c w +s+ String.◌∷◌ "." (String.◌∷◌ a (String.◌∷◌ b "")), t)
group_places c a b w t ha hb = ground (arith, ha, hb)

-- A number of digits, a point and two digits, before any text.
module _ (c : Char) (w p : String) (digits : all_digits (String.◌∷◌ c w) ≡ true)
    (places : IsPlaces p) where
  after_point : String → String
  after_point t = String.◌∷◌ places.tens (String.◌∷◌ places.ones t)

  amount_text :
      (t : String)
      → (String.◌∷◌ c w +s+ p) +s+ t ≡ String.◌∷◌ c (w +s+ String.◌∷◌ "." (after_point t))
  unfolding after_point
  amount_text t =
      let a = places.tens in
      let b = places.ones in
      append_assoc (String.◌∷◌ c w) p t
      ∙ ap (λ q. String.◌∷◌ c w +s+ q)
          (ap (λ q. q +s+ t) places.text
            ∙ append.cons "." (String.◌∷◌ a (String.◌∷◌ b "")) t
            ∙ ap (String.◌∷◌ ".") (
                append.cons a (String.◌∷◌ b "") t
                ∙ ap (String.◌∷◌ a) (append.cons b "" t ∙ ap (String.◌∷◌ b) (append.nil t))))
      ∙ append.cons c w (String.◌∷◌ "." (after_point t))

  take_amount :
      (t : String)
      → take_digits (String.◌∷◌ c (w +s+ String.◌∷◌ "." t)) ≡ (String.◌∷◌ c w, String.◌∷◌ "." t)
  take_amount t =
      ap take_digits (sym (append.cons c w (String.◌∷◌ "." t)))
      ∙ take_digits-append (String.◌∷◌ c w) t digits

  match_amount :
      (t : String) → match_at "$" ((String.◌∷◌ c w +s+ p) +s+ t) ≡ some (String.◌∷◌ c w +s+ p, t)
  unfolding match_at after_point
  match_amount t =
      ap (λ s. group (take_digits (skip_spaces s))) (amount_text t)
      ∙ ap (λ s. group (take_digits s))
          (skip_digit c (w +s+ String.◌∷◌ "." (after_point t)) (ground (arith, digits)))
      ∙ ap group (take_amount (after_point t))
      ∙ group_places c places.tens places.ones w t places.tens_digit places.ones_digit
      ∙ ap (λ q. some (String.◌∷◌ c w +s+ q, t)) (sym places.text)

  -- An amount whose digits are a number's own is the text of its `Decimal`.
  text_amount :
      (n : ℕ)
      → show_ℕ n ≡ String.◌∷◌ c w
      → decimal_text (String.◌∷◌ c w +s+ p) ≡ String.◌∷◌ c w +s+ p
  unfolding decimal_text
  text_amount n e =
      let taken : take_digits (String.◌∷◌ c w +s+ p) ≡ (String.◌∷◌ c w, p) =
        ap (λ q. take_digits (String.◌∷◌ c w +s+ q)) places.text
        ∙ take_digits-append (String.◌∷◌ c w) (String.◌∷◌ places.tens (String.◌∷◌ places.ones ""))
            digits
        ∙ ap (λ q. (String.◌∷◌ c w, q)) (sym places.text) in
      let parsed = ap parse_ℕ (sym e) ∙ parse_ℕ-show_ℕ n in ground (arith, taken, parsed, e)

matches-lacks : (s t : String) → lacks b'$' s ≡ true → all_matches (s +s+ t) ≡ all_matches t
unfolding all_matches match_at
matches-lacks String.[] t h = ap all_matches (append.nil t)
matches-lacks (String.◌∷◌ c s) t h = rw (append.cons c s t) (ground (arith, h, matches-lacks s t))

-- The text that a price is found under, and the text of its `Decimal`: the price's own.
IsFound : String → Type 0
IsFound s = ((t : String) → match_at "$" (s +s+ t) ≡ some (s, t)) × (decimal_text s ≡ s)

show-IsFound :
    (q : ℕ) (p s : String) → IsPlaces p → show_ℕ q ≡ s → all_digits s ≡ true → IsFound (s +s+ p)
unfolding IsFound parse_ℕ
show-IsFound q p String.[] places e digits = cc (sym (ap parse_ℕ e) ∙ parse_ℕ-show_ℕ q)
show-IsFound q p (String.◌∷◌ c w) places e digits =
    (match_amount c w p digits places, text_amount c w p digits places q e)

show_cents-IsFound : (n : ℕ) → IsFound (show_cents n)
show_cents-IsFound n =
    show-IsFound (n / 100) ("." +s+ digit (n % 100 / 10) +s+ digit (n % 10)) (show_ℕ (n / 100))
      (digits-IsPlaces (n % 100 / 10) (n % 10)) refl (show_ℕ_all (n / 100))

-- A dollar sign before a price, in the list of all matches.
matches_price :
    (s t : String)
    → IsFound s
    → lacks b'$' s ≡ true
    → all_matches ("$" +s+ s +s+ t) ≡ s ∷ all_matches t
unfolding IsFound all_matches
matches_price s t h k =
    ap all_matches (append.cons "$" "" (s +s+ t) ∙ ap (String.◌∷◌ "$") (append.nil (s +s+ t)))
    ∙ ap
        (λ m. elim m [ none ↦ all_matches (s +s+ t) | some (a, after) ↦ a ∷ all_matches (s +s+ t) ])
        (h.0 t)
    ∙ ap (λ r. s ∷ r) (matches-lacks s t k)

-- A message that names two prices, each after a dollar sign, without another dollar sign before the
-- second: the fallback reads the first as the claimed amount and the second as the expected one.
pub regex_fallback-show_amount :
    (before between after : String) (n m : ℕ)
    → lacks b'$' before ≡ true
    → lacks b'$' between ≡ true
    → regex_fallback (
        before
        +s+ "$"
        +s+ show_amount (pos n)
        +s+ between
        +s+ "$"
        +s+ show_amount (pos m)
        +s+ after)
      ≡ record {
        claimed_amount = some (show_amount (pos n));
        expected_amount = some (show_amount (pos m));
        requested_action = "investigate";
      }
unfolding regex_fallback show_amount IsFound
regex_fallback-show_amount before between after n m hb hm =
    let message = before +s+ "$" +s+ show_cents n +s+ between +s+ "$" +s+ show_cents m +s+ after in
    let matches =
      find_all-enough (count message) message (omega arith)
      ∙ matches-lacks before _ hb
      ∙ matches_price (show_cents n) _ (show_cents-IsFound n)
          (show_cents-lacks b'$' n (omega arith))
      ∙ ap (λ r. show_cents n ∷ r)
          (matches-lacks between _ hm
            ∙ matches_price (show_cents m) after (show_cents-IsFound m)
                (show_cents-lacks b'$' m (omega arith))) in
    ap
      (λ l. record {
        claimed_amount = (first_two l).0;
        expected_amount = (first_two l).1;
        requested_action = "investigate";
      })
      matches
    ∙ ground (arith, (show_cents-IsFound n).1, (show_cents-IsFound m).1)
