-- ===== src/Middleware/TraceIds.antt =====
-- The trace id that a caller sends in a W3C `traceparent` header.

use agentic_ai.Base.{
  ◌≡◌, ap, ◌∙◌, true, none, some, String, [], ◌∷◌, arith, ne_false, sym, ◌≢◌, count,
}
use agentic_ai.Base.Text.{◌+s+◌, split_on}
use agentic_ai.Base.Parts.{lacks, split-join, split-end}
use agentic_ai.Middleware.{HttpRequest, extract_trace_id}

-- The header's text: version, trace id, parent id and flags, joined by hyphens.
abbrev pub traceparent_of : String → String → String → String → String
traceparent_of version trace_id parent_id flags =
    version +s+ "-" +s+ trace_id +s+ "-" +s+ parent_id +s+ "-" +s+ flags

split-traceparent :
    (a b c d : String)
    → lacks b'-' a ≡ true
    → lacks b'-' b ≡ true
    → lacks b'-' c ≡ true
    → lacks b'-' d ≡ true
    → split_on b'-' (traceparent_of a b c d) ≡ a ∷ b ∷ c ∷ d ∷ []
split-traceparent a b c d ha hb hc hd =
    split-join "-" a (b +s+ "-" +s+ c +s+ "-" +s+ d) ha
    ∙ ap (λ r. a ∷ r) (split-join "-" b (c +s+ "-" +s+ d) hb)
    ∙ ap (λ r. a ∷ b ∷ r) (split-join "-" c d hc)
    ∙ ap (λ r. a ∷ b ∷ c ∷ r) (split-end b'-' d hd)

traceparent_given :
    (a b c d : String)
    → split_on b'-' (traceparent_of a b c d) ≡ a ∷ b ∷ c ∷ d ∷ []
    → traceparent_of a b c d ≢ ""
unfolding split_on
traceparent_given a b c d parts e = cc (sym (ap (split_on b'-') e) ∙ parts)

-- Without a trace id of its own, a request with a well-formed `traceparent` is traced by the id in it,
-- if that has 32 characters.
pub extract_trace_id-traceparent :
    (hex a b c d : String) (request : HttpRequest)
    → lacks b'-' a ≡ true
    → lacks b'-' b ≡ true
    → lacks b'-' c ≡ true
    → lacks b'-' d ≡ true
    → count b ≡ 32
    → request.x_trace_id ≡ none
    → request.traceparent ≡ some (traceparent_of a b c d)
    → extract_trace_id hex request ≡ b
unfolding extract_trace_id
extract_trace_id-traceparent hex a b c d request ha hb hc hd long own sent =
    let t = traceparent_of a b c d in
    let parts = split-traceparent a b c d ha hb hc hd in
    ground (arith, own, sent, long, parts, ne_false t "" (traceparent_given a b c d parts))
