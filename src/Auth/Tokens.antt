-- ===== src/Auth/Tokens.antt =====
-- The texts of headers and claims: the `Bearer` scheme and the parts of a scope.
use Prim.Native.Char.{Char, code}
use Prim.Native.String.{slice}
use agentic_ai.Base.{
  ◌+◌, ◌-◌, ◌≡◌, refl, String, not, ◌||◌, ◌&&◌, List, [], ◌∷◌, leb, ◌==ℕ◌, ◌==◌, if◌then◌else◌,
}
use agentic_ai.Base.Lists.{keep}
use agentic_ai.Base.Text.{◌+s+◌, split_on}
use agentic_ai.Domain.Errors.{authorization, Result, ok, err}

-- `text.partition(" ")`, without the separator: the texts before and after the first space.
unfoldable pub partition : String → String × String
partition String.[] = ("", "")
partition (String.◌∷◌ c s) =
    let (before, after) = partition s in
    if code c ==ℕ b' ' then ("", s) else (String.◌∷◌ c before, after)

-- `str.lower` of one character; only the letters of ASCII matter to the comparison below.
abbrev lower_char : Char → String
lower_char c =
    if leb b'A' (code c) && leb (code c) b'Z'
    then slice "abcdefghijklmnopqrstuvwxyz" (code c - b'A') (code c - b'A' + 1)
    else String.◌∷◌ c String.[]

unfoldable pub lower : String → String
lower String.[] = String.[]
lower (String.◌∷◌ c s) = lower_char c +s+ lower s

unfoldable pub parse_bearer_token : String → Result String
parse_bearer_token authorization_header =
    let (scheme, token) = partition authorization_header in
    if not (lower scheme == "bearer") || (token == "")
    then err (authorization "Invalid Authorization header")
    else ok token

-- `part for part in text.split(" ") if part`
unfoldable pub parts : String → List String
parts s = keep (λ part. not (part == "")) (split_on b' ' s)

parse_bearer_token_examples : parse_bearer_token "bEaRer a b" ≡ ok "a b"
unfolding parse_bearer_token partition lower
parse_bearer_token_examples = refl

parts_examples : parts "billing.read  billing.write" ≡ "billing.read" ∷ "billing.write" ∷ []
unfolding parts split_on
parts_examples = refl
