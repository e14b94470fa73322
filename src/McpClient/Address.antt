-- ===== src/McpClient/Address.antt =====
-- `_normalized_base_url` of src/infrastructure/mcp/client.py, and the address of a tool.
use Prim.Native.Char.{Char, code}
use Prim.Native.String.append
use Prim.Native.String.count as Count
use text.Mathlib.TextLemmas.{append_assoc, length-append}
use agentic_ai.Base.{
  eq_refl, ℕ, zero, suc, ◌≡◌, ◌≢◌, refl, sym, ap, ◌∙◌, ◌&&◌, Option, none, some, String, arith,
  count, ◌==◌, ◌==ℕ◌, if◌then◌else◌, ne_false, eq_iff,
}
use agentic_ai.Base.Text.{◌+s+◌}

-- `text.rstrip("/")`
unfoldable pub rstrip : String → String
rstrip String.[] = ""
rstrip (String.◌∷◌ c s) =
    let rest = rstrip s in if (code c ==ℕ b'/') && (rest == "") then "" else String.◌∷◌ c rest

abbrev pub preceded : Char → Option String → Option String
preceded c none = none
preceded c (some s) = some (String.◌∷◌ c s)

-- `text[: -len(suffix)]`, if the text ends with the suffix.
unfoldable pub without_suffix : String → String → Option String
without_suffix suffix String.[] = if "" == suffix then some "" else none
without_suffix suffix (String.◌∷◌ c s) =
    let rest = without_suffix suffix s in
    if String.◌∷◌ c s == suffix then some "" else preceded c rest

abbrev pub or_whole : String → Option String → String
or_whole s none = s
or_whole s (some t) = t

unfoldable pub normalized_base_url : String → String
normalized_base_url configured_url =
    let trimmed = rstrip configured_url in or_whole trimmed (without_suffix "/mcp" trimmed)

-- `f"{base_url}/tools/{tool_name}"`
abbrev pub tool_url : String → String → String
tool_url configured_url tool_name = normalized_base_url configured_url +s+ "/tools/" +s+ tool_name

abbrev pub slashes : ℕ → String
slashes zero = ""
slashes (suc n) = String.◌∷◌ "/" (slashes n)

rstrip-slashes : (n : ℕ) → rstrip (slashes n) ≡ ""
unfolding rstrip
rstrip-slashes zero = refl
rstrip-slashes (suc n) = ground (arith, (eq_iff (rstrip (slashes n)) "").1 (rstrip-slashes n))

rstrip-append : (s : String) (n : ℕ) → rstrip (s +s+ slashes n) ≡ rstrip s
unfolding rstrip
rstrip-append String.[] n = ap rstrip (append.nil (slashes n)) ∙ rstrip-slashes n
rstrip-append (String.◌∷◌ c s) n =
    ap rstrip (append.cons c s (slashes n))
    ∙ ap (λ r. if (code c ==ℕ b'/') && (r == "") then "" else String.◌∷◌ c r) (rstrip-append s n)

append_given : (s t : String) → t ≢ "" → s +s+ t ≢ ""
append_given String.[] t h e = h (sym (append.nil t) ∙ e)
append_given (String.◌∷◌ c s) t h e = cc (sym (append.cons c s t) ∙ e)

-- A text that ends in none stays.
rstrip-none : (s t : String) → t ≢ "" → rstrip t ≡ t → rstrip (s +s+ t) ≡ s +s+ t
unfolding rstrip
rstrip-none String.[] t h e = ap rstrip (append.nil t) ∙ e ∙ sym (append.nil t)
rstrip-none (String.◌∷◌ c s) t h e =
    ap rstrip (append.cons c s t)
    ∙ ap (λ r. if (code c ==ℕ b'/') && (r == "") then "" else String.◌∷◌ c r) (rstrip-none s t h e)
    ∙ ground (arith, ne_false (s +s+ t) "" (append_given s t h))
    ∙ sym (append.cons c s t)

count-longer : (c : Char) (s t : String) → String.◌∷◌ c (s +s+ t) ≢ t
count-longer c s t e = omega (arith, ap count e, Count.cons c (s +s+ t), length-append s t)

without_suffix-append : (s t : String) → without_suffix t (s +s+ t) ≡ some s
unfolding without_suffix
without_suffix-append String.[] String.[] = refl
without_suffix-append String.[] (String.◌∷◌ c t) =
    ap (without_suffix (String.◌∷◌ c t)) (append.nil (String.◌∷◌ c t))
    ∙ ground (arith, eq_refl (String.◌∷◌ c t))
without_suffix-append (String.◌∷◌ c s) t =
    ap (without_suffix t) (append.cons c s t)
    ∙ ground
        (arith, ne_false (String.◌∷◌ c (s +s+ t)) t (count-longer c s t), without_suffix-append s t)

normalized-trimmed :
    (url trimmed base : String)
    → rstrip url ≡ trimmed
    → or_whole trimmed (without_suffix "/mcp" trimmed) ≡ base
    → normalized_base_url url ≡ base
unfolding normalized_base_url
normalized-trimmed url trimmed base e h = ap (λ t. or_whole t (without_suffix "/mcp" t)) e ∙ h

mcp_given : (address : String) → rstrip (address +s+ "/mcp") ≡ address +s+ "/mcp"
unfolding rstrip
mcp_given address = rstrip-none address "/mcp" (λ e. cc) refl

normalized-mcp :
    (address : String) (n : ℕ) → normalized_base_url (address +s+ "/mcp" +s+ slashes n) ≡ address
normalized-mcp address n =
    normalized-trimmed (address +s+ "/mcp" +s+ slashes n) (address +s+ "/mcp") address
      (ap rstrip (sym (append_assoc address "/mcp" (slashes n)))
        ∙ rstrip-append (address +s+ "/mcp") n
        ∙ mcp_given address)
      (ap (or_whole (address +s+ "/mcp")) (without_suffix-append address "/mcp"))

-- An address with the protocol's path, or without it, with any number of slashes after it: the
-- tools are called under the same address.
pub tool_url-same :
    (address tool : String) (n m : ℕ)
    → rstrip address ≡ address
    → without_suffix "/mcp" address ≡ none
    → tool_url (address +s+ "/mcp" +s+ slashes n) tool ≡ tool_url (address +s+ slashes m) tool
tool_url-same address tool n m bare other =
    ap (λ base. base +s+ "/tools/" +s+ tool)
      (normalized-mcp address n
        ∙ sym (
            normalized-trimmed (address +s+ slashes m) address address
              (rstrip-append address m ∙ bare) (ap (or_whole address) other)))
