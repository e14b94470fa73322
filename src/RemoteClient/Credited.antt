-- ===== src/RemoteClient/Credited.antt =====
-- The credits that a call of the tool server adds.
use agentic_ai.Base.{
  ℕ, suc, ◌+◌, ◌≤◌, String, ◌≡◌, refl, sym, ap, ◌∙◌, Bool, true, false, List, [], ◌∷◌, ◌++◌, arith,
  Bool-cases, inl, inr, if◌then◌else◌,
}
use mathlib.Core.List.{append-nil, append_assoc}
use agentic_ai.Base.Int.{ℤ}
use agentic_ai.Base.Lists.{length, length-append, All, All-append}
use agentic_ai.Base.Text.{◌+s+◌, show_amount}
use agentic_ai.Base.Decimal.{decimal-show_amount}
use agentic_ai.Domain.Errors.{err, is_ok, http}
use agentic_ai.Domain.Models.{money}
use agentic_ai.Store.{CreditRow}
use agentic_ai.World.{Env, World, pure, raise, lift, ◌>>=◌, now, uuid4, flush, commit, with_session}
use agentic_ai.Repository.{create_credit}
use agentic_ai.Billing.{settings}
use agentic_ai.McpServer.{create_credit_tool, with_token}
use agentic_ai.McpServer.Api.{credit_request, run_tool, ToolCall, post_tool}
use agentic_ai.Safety.Tables.{Claim, credit_claim}

-- The credits after are the credits before with new ones of one claim, of a number between two.
pub record Credited (c : Claim) (least most : ℕ) (before after : List CreditRow) : Type 0 where
  pub new : List CreditRow
  pub added : after ≡ before ++ new
  pub same : All (λ r. credit_claim r ≡ c) new
  pub at_least : least ≤ length new
  pub at_most : length new ≤ most

abbrev pub one_if : Bool → ℕ
one_if answered = if answered then 1 else 0

pub one_if-most : (b : Bool) → one_if b ≤ 1
one_if-most true = omega arith
one_if-most false = omega arith

module _ (c : Claim) where
  pub Credited-none : (xs : List CreditRow) → Credited c 0 0 xs xs
  Credited-none xs = record {
    new = [];
    added = sym (append-nil xs);
    same = tt;
    at_least = omega arith;
    at_most = omega arith;
  }

  pub Credited-one :
      (xs : List CreditRow) (r : CreditRow) → credit_claim r ≡ c → Credited c 1 1 xs (xs ++ r ∷ [])
  Credited-one xs r e = record {
    new = r ∷ [];
    added = refl;
    same = (e, tt);
    at_least = omega arith;
    at_most = omega arith;
  }

  pub Credited-trans :
      {j k m n : ℕ} {xs ys zs : List CreditRow}
      → Credited c j k xs ys
      → Credited c m n ys zs
      → Credited c (j + m) (k + n) xs zs
  Credited-trans {xs = xs} p q = record {
    new = p.new ++ q.new;
    added = q.added ∙ ap (λ l. l ++ q.new) p.added ∙ append_assoc xs p.new q.new;
    same = All-append (λ r. credit_claim r ≡ c) p.new q.new p.same q.same;
    at_least = omega (arith, length-append p.new q.new, p.at_least, q.at_least);
    at_most = omega (arith, length-append p.new q.new, p.at_most, q.at_most);
  }

  pub Credited-weaken :
      {j k m n : ℕ} {xs ys : List CreditRow}
      → Credited c j k xs ys
      → m ≤ j
      → k ≤ n
      → Credited c m n xs ys
  Credited-weaken p low high = record {
    new = p.new;
    added = p.added;
    same = p.same;
    at_least = omega (arith, low, p.at_least);
    at_most = omega (arith, high, p.at_most);
  }

module _ (customer_id invoice_id : String) (amount : ℤ) (reason : String) (env : Env) where
  -- The claim that the tool server credits.
  abbrev pub claimed : Claim
  claimed = record {
    customer_id = customer_id;
    invoice_id = invoice_id;
    amount = amount;
    currency = env.settings.supported_currency;
  }

  abbrev tool_row : World → CreditRow
  tool_row w = record {
    id = env.uuid (suc (suc w.draws));
    request_id = "mcp-" +s+ env.uuid w.draws;
    customer_id = customer_id;
    invoice_id = invoice_id;
    amount = amount;
    currency = env.settings.supported_currency;
    reason = reason;
    created_at = env.now (suc w.draws);
  }

  abbrev pub credit_body : String → ToolCall
  credit_body x_mcp_token = record {
    x_mcp_token = x_mcp_token;
    request = credit_request customer_id invoice_id (show_amount amount) reason;
  }

  -- A call of the tool that is answered adds one row, and another adds none.
  post_tool-credits :
      (token sent : String) (w : World)
      → (is_ok (post_tool token (credit_body sent) env w).0 ≡ true
          → (post_tool token (credit_body sent) env w).1.stored.credits
            ≡ w.stored.credits ++ tool_row w ∷ [])
        × (is_ok (post_tool token (credit_body sent) env w).0 ≡ false
            → (post_tool token (credit_body sent) env w).1.stored.credits ≡ w.stored.credits)
  unfolding post_tool run_tool with_token create_credit_tool settings create_credit flush commit
      with_session now uuid4 pure raise ◌>>=◌
  post_tool-credits token sent w = (
    λ h. ground (arith, h, decimal-show_amount amount),
    λ h. ground (arith, h, decimal-show_amount amount),
  )

  pub post_tool-Credited :
      (token sent : String) (w : World)
      → Credited claimed
          (one_if (is_ok (post_tool token (credit_body sent) env w).0))
          1
          w.stored.credits
          (post_tool token (credit_body sent) env w).1.stored.credits
  post_tool-Credited token sent w =
      let (yes', no') = post_tool-credits token sent w in
      elim (Bool-cases (is_ok (post_tool token (credit_body sent) env w).0)) [
        | inl e ↦ rw (e, yes' e) (Credited-one claimed w.stored.credits (tool_row w) refl)
        | inr e ↦
            rw (e, no' e)
              (Credited-weaken claimed (Credited-none claimed w.stored.credits) (omega arith)
                (omega arith))
      ]

  -- The only exception that the server answers with a status of its own.
  pub post_tool-denial :
      (token sent : String) (w : World) (status : ℕ) (detail : String)
      → (post_tool token (credit_body sent) env w).0 ≡ err (http status detail)
      → status ≡ 401
  unfolding post_tool run_tool with_token create_credit_tool settings create_credit flush commit
      with_session now uuid4 money pure raise lift ◌>>=◌
  post_tool-denial token sent w status detail h = ground (arith, h, decimal-show_amount amount)
