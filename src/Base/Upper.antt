-- ===== src/Base/Upper.antt =====
-- `upper` is done after once, and keeps the number of characters.
use Prim.Native.Char.{Char}
use Prim.Native.String.append
use Prim.Native.String.count as Count
use agentic_ai.Base.{suc, ◌≡◌, refl, sym, ap, ◌∙◌, String, count}
use agentic_ai.Base.Singles.{upper_char-IsUpper}
use agentic_ai.Base.Text.{◌+s+◌, upper, upper_char}

-- A single character, joined before a text.
single-append : (c : Char) (s t : String) → s ≡ String.◌∷◌ c "" → s +s+ t ≡ String.◌∷◌ c t
single-append c s t e = ap (λ x. x +s+ t) e ∙ append.cons c "" t ∙ ap (String.◌∷◌ c) (append.nil t)

pub upper-upper : (s : String) → upper (upper s) ≡ upper s
unfolding upper
upper-upper String.[] = refl
upper-upper (String.◌∷◌ c s) =
    let (d, e, same) = upper_char-IsUpper c in
    let front = single-append d (upper_char c) (upper s) e in
    ap upper front
    ∙ single-append d (upper_char d) (upper (upper s)) same
    ∙ ap (String.◌∷◌ d) (upper-upper s)
    ∙ sym front

pub count-upper : (s : String) → count (upper s) ≡ count s
unfolding upper
count-upper String.[] = refl
count-upper (String.◌∷◌ c s) =
    let (d, e, same) = upper_char-IsUpper c in
    ap count (single-append d (upper_char c) (upper s) e)
    ∙ Count.cons d (upper s)
    ∙ ap suc (count-upper s)
    ∙ sym (Count.cons c s)
