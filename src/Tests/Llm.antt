-- ===== src/Tests/Llm.antt =====
-- The fallback of the client of the language model, and the client of a model that fails.
use agentic_ai.Base.{◌==◌, if◌then◌else◌, ◌≡◌, refl, none, some, arith}
use agentic_ai.Base.Int.{pos}
use agentic_ai.Base.Text.{◌+s+◌, show_amount}
use agentic_ai.Domain.Errors.{ok}
use agentic_ai.Workflow.{ParsedBillingRequest}
use agentic_ai.Llm.{Model, completion, parse_request}
use agentic_ai.Llm.Fallback.{find_all, regex_fallback}
use agentic_ai.Llm.Automaton.{idle, scan, find_all-scan}
use agentic_ai.Llm.Named.{regex_fallback-show_amount}
use agentic_ai.Llm.Safe.{IsRead, parse_request-answer}
use agentic_ai.Fixtures.{test_env, seeded}

find_all-scan_example :
    find_all 40 "I paid $120.50, not $100" ≡ scan idle "I paid $120.50, not $100"
find_all-scan_example = find_all-scan 40 "I paid $120.50, not $100" (omega arith)

regex_fallback-show_amount_example :
    regex_fallback (
      "I paid "
      +s+ "$"
      +s+ show_amount (pos 12050)
      +s+ " and my plan is "
      +s+ "$"
      +s+ show_amount (pos 10000)
      +s+ " a month.")
    ≡ record {
      claimed_amount = some (show_amount (pos 12050));
      expected_amount = some (show_amount (pos 10000));
      requested_action = "investigate";
    }
regex_fallback-show_amount_example =
    regex_fallback-show_amount "I paid " " and my plan is " " a month." 12050 10000 refl refl

abbrev read_as : ParsedBillingRequest
read_as = record { claimed_amount = some "3"; expected_amount = none; requested_action = "refund" }

-- It answers one message, and the other with nothing.
abbrev terse_model : Model
terse_model = record {
  acompletion = λ m w. completion (if m == "hello" then some "" else some "{}") (some 9) none none;
  parse = λ s. some read_as;
}

parse_request-answer_example :
    ((p : ParsedBillingRequest)
      → IsRead terse_model "I paid $3" seeded p
      → (parse_request terse_model "I paid $3" test_env seeded).0 ≡ ok p)
    × (((p : ParsedBillingRequest) → ¬ (IsRead terse_model "I paid $3" seeded p))
        → (parse_request terse_model "I paid $3" test_env seeded).0
          ≡ ok (regex_fallback "I paid $3"))
parse_request-answer_example = parse_request-answer terse_model "I paid $3" test_env seeded
