-- ===== src/Llm.antt =====
-- src/infrastructure/llm/client.py: `LLMClient`. The language model and the parser of its answers,
-- both of other packages, are an argument.
pub mod Fallback
pub mod Enough
pub mod Automaton
pub mod Named
pub mod Safe
use agentic_ai.Base.{ℕ, String, Option, none, some, ◌==◌, if◌then◌else◌}
use agentic_ai.World.{World, Action, pure, ◌>>=◌, ◌>>◌, record_llm_result}
use agentic_ai.Workflow.{ParsedBillingRequest, LlmClient}
use agentic_ai.Llm.Fallback.{regex_fallback}

-- What becomes of a completion: its content and its numbers of prompt, completion and total tokens,
-- or an exception.
pub data Completion : Type 0 where
  completion : Option String → Option ℕ → Option ℕ → Option ℕ → Completion
  interrupted : Completion

-- `acompletion` of the prompt for a message, and the output parser; `none` is its exception.
pub record Model : Type 0 where
  pub acompletion : String → World → Completion
  pub parse : String → Option ParsedBillingRequest

-- `parsed`, with the reasons to raise before it: no content, or one that the parser refuses.
abbrev pub parsed_content : Model → Option String → Option ParsedBillingRequest
parsed_content model none = none
parsed_content model (some content) = if content == "" then none else model.parse content

-- `except Exception`
abbrev pub fall_back : String → Action ParsedBillingRequest
fall_back message = record_llm_result "failure" none none none >> pure (regex_fallback message)

abbrev pub read_completion : Model → String → Completion → Action ParsedBillingRequest
read_completion model message interrupted = fall_back message
read_completion model message (completion content prompt_tokens completion_tokens total_tokens) =
    elim (parsed_content model content) [
      | none ↦ fall_back message
      | some parsed ↦
          record_llm_result "success" prompt_tokens completion_tokens total_tokens >> pure parsed
    ]

unfoldable pub parse_request : Model → String → Action ParsedBillingRequest
parse_request model message env w =
    read_completion model message (model.acompletion message w) env w

abbrev pub llm_client : Model → LlmClient
llm_client model = record { parse_request = λ message. parse_request model message }
