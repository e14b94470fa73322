-- ===== src/Base/Parts.antt =====
-- Texts that are joined by a character are split at it again.
use Prim.Native.Char.{Char, code}
use Prim.Native.String.append
use agentic_ai.Base.{ℕ, ◌≡◌, refl, ap, ◌∙◌, Bool, true, not, ◌&&◌, String, [], ◌∷◌, arith, ◌==ℕ◌}
use agentic_ai.Base.Text.{◌+s+◌, split_on}

-- The text has no character with that code point.
abbrev pub lacks : ℕ → String → Bool
lacks sep String.[] = true
lacks sep (String.◌∷◌ c s) = not (code c ==ℕ sep) && lacks sep s

split-part :
    (sep : Char) (a b : String)
    → lacks (code sep) a ≡ true
    → split_on (code sep) (a +s+ String.◌∷◌ sep b) ≡ a ∷ split_on (code sep) b
unfolding split_on
split-part sep String.[] b h = rw (append.nil (String.◌∷◌ sep b)) (ground arith)
split-part sep (String.◌∷◌ c a) b h =
    rw (append.cons c a (String.◌∷◌ sep b)) (ground (arith, h, split-part sep a b))

pub split-end : (sep : ℕ) (a : String) → lacks sep a ≡ true → split_on sep a ≡ a ∷ []
unfolding split_on
split-end sep String.[] h = refl
split-end sep (String.◌∷◌ c a) h = ground (arith, h, split-end sep a)

pub lacks-append :
    (sep : ℕ) (s t : String) → lacks sep s ≡ true → lacks sep t ≡ true → lacks sep (s +s+ t) ≡ true
lacks-append sep String.[] t h k = rw (append.nil t) k
lacks-append sep (String.◌∷◌ c s) t h k =
    rw (append.cons c s t) (ground (arith, h, lacks-append sep s t))

pub split-join :
    (sep : Char) (a b : String)
    → lacks (code sep) a ≡ true
    → split_on (code sep) (a +s+ String.◌∷◌ sep "" +s+ b) ≡ a ∷ split_on (code sep) b
split-join sep a b h =
    ap (λ t. split_on (code sep) (a +s+ t))
      (append.cons sep "" b ∙ ap (String.◌∷◌ sep) (append.nil b))
    ∙ split-part sep a b h
