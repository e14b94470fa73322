-- ===== src/Llm/Safe.antt =====
-- What asking the language model changes, and what it gives.
use agentic_ai.Base.{
  ℕ, refl, ◌≢◌, ◌==◌, eq_iff, Bool-cases, Option-cases, inl, inr, ◌≡◌, String, Option, none, some,
  arith,
}
use agentic_ai.Domain.Errors.{ok}
use agentic_ai.World.{Env, World, pure, ◌>>=◌, record_llm_result}
use agentic_ai.Workflow.{ParsedBillingRequest}
use agentic_ai.Llm.{Completion, completion, interrupted, Model, read_completion, parse_request}
use agentic_ai.Llm.Fallback.{regex_fallback}
use agentic_ai.Safety.Quiet.{IsQuiet}
use agentic_ai.Safety.Keeps.{KeepsSound, Keeps-quiet}

parse_request-IsQuiet :
    (model : Model) (message : String) (env : Env) (w : World)
    → IsQuiet w (parse_request model message env w)
unfolding parse_request pure ◌>>=◌ record_llm_result
parse_request-IsQuiet model message env w = ground arith

pub parse_request-KeepsSound :
    (model : Model) (message : String) → KeepsSound (parse_request model message)
parse_request-KeepsSound model message =
    Keeps-quiet (parse_request model message) (parse_request-IsQuiet model message)

-- The model answered with a text that the parser reads as this request.
pub record IsRead (model : Model) (message : String) (w : World) (p : ParsedBillingRequest)
    : Type 0 where
  pub content : String
  pub prompt_tokens : Option ℕ
  pub completion_tokens : Option ℕ
  pub total_tokens : Option ℕ
  pub answer :
      model.acompletion message w
      ≡ completion (some content) prompt_tokens completion_tokens total_tokens
  pub some_text : content ≢ ""
  pub parsed : model.parse content ≡ some p

answered :
    (model : Model) (message : String) (env : Env) (w : World) (p : ParsedBillingRequest)
    → IsRead model message w p
    → (parse_request model message env w).0 ≡ ok p
unfolding parse_request pure ◌>>=◌ record_llm_result
answered model message env w p h =
    ground (arith, h.answer, h.some_text, h.parsed, eq_iff h.content "")

module _ (model : Model) (message : String) (env : Env) (w : World) where
  unanswered :
      ((p : ParsedBillingRequest) → ¬ (IsRead model message w p))
      → (c : Completion) → model.acompletion message w ≡ c
      → (read_completion model message c env w).0 ≡ ok (regex_fallback message)
  unfolding pure ◌>>=◌ record_llm_result
  unanswered never interrupted e = refl
  unanswered never (completion none p c t) e = refl
  unanswered never (completion (some content) p c t) e = elim (Bool-cases (content == "")) [
    | inl empty ↦ ground (arith, empty)
    | inr text ↦ elim (Option-cases (model.parse content)) [
      | inl refused ↦ ground (arith, text, refused)
      | inr (r, parsed) ↦ absurd (
          never r (record {
            content = content;
            prompt_tokens = p;
            completion_tokens = c;
            total_tokens = t;
            answer = e;
            some_text = λ same. ground (arith, text, (eq_iff content "").1 same);
            parsed = parsed;
          }))
    ]
  ]

-- Where the model answers with a text that the parser reads, the request is what the parser reads; where
-- it does not, be it an exception, no text, or one that the parser refuses, it is what the fallback finds.
pub parse_request-answer :
    (model : Model) (message : String) (env : Env) (w : World)
    → ((p : ParsedBillingRequest)
        → IsRead model message w p
        → (parse_request model message env w).0 ≡ ok p)
      × (((p : ParsedBillingRequest) → ¬ (IsRead model message w p))
          → (parse_request model message env w).0 ≡ ok (regex_fallback message))
unfolding parse_request
parse_request-answer model message env w = (
  λ p h. answered model message env w p h,
  λ never. unanswered model message env w never (model.acompletion message w) refl,
)
