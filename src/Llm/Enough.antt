-- ===== src/Llm/Enough.antt =====
-- `re.findall` on a whole message: its fuel is enough, and it finds every match.
use Prim.Native.Char.{Char, code}
use Prim.Native.String.count as Count
use agentic_ai.Base.{
  ℕ, zero, suc, ◌≤◌, ◌≡◌, refl, sym, ap, ◌∙◌, true, false, Option, none, some, String, List, [],
  ◌∷◌, arith, count, ◌==ℕ◌, Bool-cases, inl, inr, ◌&&◌, subst, some_inj,
}
use agentic_ai.Llm.Fallback.{
  is_space, is_ascii_digit, skip_spaces, take_digits, fraction, group, match_at, find_all,
}

-- The groups of the matches that begin anywhere in the text, from the left.
unfoldable pub all_matches : String → List String
all_matches String.[] = []
all_matches (String.◌∷◌ c s) =
    let rest = all_matches s in
    elim (match_at c s) [ none ↦ rest | some (amount, after) ↦ amount ∷ rest ]

-- A text and what a part of the pattern leaves of it: no match begins in between.
record Leaves (s t : String) : Type 0 where
  same : all_matches s ≡ all_matches t
  shorter : count t ≤ count s

Leaves-refl : (s : String) → Leaves s s
Leaves-refl s = record { same = refl; shorter = omega arith }

Leaves-trans : {s t u : String} → Leaves s t → Leaves t u → Leaves s u
Leaves-trans h k = record { same = h.same ∙ k.same; shorter = omega (arith, h.shorter, k.shorter) }

Leaves-cons :
    (c : Char) (s t : String) → (code c ==ℕ b'$') ≡ false → Leaves s t → Leaves (String.◌∷◌ c s) t
unfolding all_matches match_at
Leaves-cons c s t h k = record {
  same = ground (arith, h, k.same);
  shorter = omega (arith, Count.cons c s, k.shorter);
}

skip_spaces-Leaves : (s : String) → Leaves s (skip_spaces s)
unfolding skip_spaces
skip_spaces-Leaves String.[] = Leaves-refl ""
skip_spaces-Leaves (String.◌∷◌ c s) = elim (Bool-cases (is_space (code c))) [
  | inl space ↦
      rw space (Leaves-cons c s (skip_spaces s) (ground (arith, space)) (skip_spaces-Leaves s))
  | inr other ↦ rw other (Leaves-refl (String.◌∷◌ c s))
]

pub digit_no_start : (c : ℕ) → is_ascii_digit c ≡ true → (c ==ℕ b'$') ≡ false
digit_no_start c h = ground (arith, h)

take_digits-Leaves : (s : String) → Leaves s (take_digits s).1
unfolding take_digits
take_digits-Leaves String.[] = Leaves-refl ""
take_digits-Leaves (String.◌∷◌ c s) = elim (Bool-cases (is_ascii_digit (code c))) [
  | inl digit ↦
      rw digit
        (Leaves-cons c s (take_digits s).1 (digit_no_start (code c) digit) (take_digits-Leaves s))
  | inr other ↦ rw other (Leaves-refl (String.◌∷◌ c s))
]

-- The point and a digit after it.
two_characters :
    (dot a : Char) (s : String)
    → (code dot ==ℕ b'.') && is_ascii_digit (code a) ≡ true
    → Leaves (String.◌∷◌ dot (String.◌∷◌ a s)) s
two_characters dot a s h =
    Leaves-trans
      (Leaves-cons dot (String.◌∷◌ a s) (String.◌∷◌ a s) (ground (arith, h))
        (Leaves-refl (String.◌∷◌ a s)))
      (Leaves-cons a s s (ground (arith, h)) (Leaves-refl s))

fraction-Leaves : (s : String) → Leaves s (fraction s).1
fraction-Leaves String.[] = Leaves-refl ""
fraction-Leaves (String.◌∷◌ c String.[]) = Leaves-refl (String.◌∷◌ c "")
fraction-Leaves (String.◌∷◌ dot (String.◌∷◌ a String.[])) =
    elim (Bool-cases ((code dot ==ℕ b'.') && is_ascii_digit (code a))) [
      | inl part ↦ rw part (two_characters dot a "" part)
      | inr other ↦ rw other (Leaves-refl (String.◌∷◌ dot (String.◌∷◌ a "")))
    ]
fraction-Leaves (String.◌∷◌ dot (String.◌∷◌ a (String.◌∷◌ b s))) =
    elim (Bool-cases ((code dot ==ℕ b'.') && is_ascii_digit (code a))) [
      | inl part ↦ rw part (elim (Bool-cases (is_ascii_digit (code b))) [
        | inl digit ↦ rw digit (
            Leaves-trans (two_characters dot a (String.◌∷◌ b s) part)
              (Leaves-cons b s s (digit_no_start (code b) digit) (Leaves-refl s)))
        | inr other ↦ rw other (two_characters dot a (String.◌∷◌ b s) part)
      ])
      | inr other ↦ rw other (Leaves-refl (String.◌∷◌ dot (String.◌∷◌ a (String.◌∷◌ b s))))
    ]

-- After digits, what the rest of the group leaves.
group-Leaves :
    (p : String × String) (amount after : String)
    → group p ≡ some (amount, after)
    → Leaves p.1 after
group-Leaves (String.[], rest) amount after h = cc
group-Leaves (String.◌∷◌ c whole, rest) amount after h =
    subst (λ q. Leaves rest q.1) (some_inj h) (fraction-Leaves rest)

match_at-Leaves :
    (c : Char) (s amount after : String) → match_at c s ≡ some (amount, after) → Leaves s after
unfolding match_at
match_at-Leaves c s amount after h = elim (Bool-cases (code c ==ℕ b'$')) [
  | inl dollar ↦ Leaves-trans (skip_spaces-Leaves s) (
      Leaves-trans (take_digits-Leaves (skip_spaces s))
        (group-Leaves (take_digits (skip_spaces s)) amount after (rw dollar at h)))
  | inr other ↦ cc (rw other at h)
]

-- After one match, or none, the rest.
match_enough :
    (n : ℕ) (c : Char) (s : String)
    → count (String.◌∷◌ c s) ≤ suc n
    → ((t : String) → count t ≤ n → find_all n t ≡ all_matches t)
    → (m : Option (String × String)) → match_at c s ≡ m
    → ◌≡◌ {A = List String}
        (elim m [ none ↦ find_all n s | some (amount, after) ↦ amount ∷ find_all n after ])
        (elim m [ none ↦ all_matches s | some (amount, after) ↦ amount ∷ all_matches s ])
match_enough n c s h rest none e = rest s (omega (arith, Count.cons c s, h))
match_enough n c s h rest (some (amount, after)) e =
    let left = match_at-Leaves c s amount after e in
    ap (λ r. amount ∷ r)
      (rest after (omega (arith, Count.cons c s, left.shorter, h)) ∙ sym left.same)

-- On fuel of a unit for each character, `re.findall` finds the match at every place where one
-- begins, from the left.
pub find_all-enough : (n : ℕ) (s : String) → count s ≤ n → find_all n s ≡ all_matches s
unfolding find_all all_matches
find_all-enough zero String.[] h = refl
find_all-enough zero (String.◌∷◌ c s) h = absurd (omega (arith, Count.cons c s, h))
find_all-enough (suc n) String.[] h = refl
find_all-enough (suc n) (String.◌∷◌ c s) h =
    match_enough n c s h (λ t k. find_all-enough n t k) (match_at c s) refl
