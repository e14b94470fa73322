-- ===== src/Safety/Evaluate.antt =====
-- Looking up a bill and assessing it keeps the money rules, and leaves the rules' decision.
use agentic_ai.Base.{ℕ, String, ◌≡◌, refl, Option, none, some, arith, [], ◌∷◌}
use agentic_ai.Base.Text.{show_amount}
use agentic_ai.Base.Int.{◌-ℤ◌}
use agentic_ai.Domain.Models.{Customer, Invoice, Contract}
use agentic_ai.Domain.Decisions.{Range, decision-Range}
use agentic_ai.World.{Env, World, Settings, ◌>>=◌, pure, commit}
use agentic_ai.World.Post.{Ensures, bind-Ensures}
use agentic_ai.Repository.{
  upsert_workflow_state, get_customer, get_latest_finalized_invoice, get_contract_for_period,
}
use agentic_ai.Billing.{
  BillingMcpClient, BillingComputation, billing_facts, assess, analyze_customer_billing, settings,
}
use agentic_ai.Workflow.{BillingAgentState, evaluate}
use agentic_ai.Safety.Tables.{Sound, IsSafe}
use agentic_ai.Safety.Keeps.{KeepsSound, keeps_rules, Keeps-upsert, Keeps-commit, Keeps-audit}

-- The reads of a tool client keep the session and the committed tables sound.
pub record ReadsSoundly (c : BillingMcpClient) : Type 0 where
  pub customer : (id : String) → KeepsSound (c.get_customer id)
  pub contract : (id : String) (at : ℕ) → KeepsSound (c.get_contract id at)
  pub invoice : (id : String) → KeepsSound (c.get_invoice id)

abbrev pub OptionReads : Option BillingMcpClient → Type 0
OptionReads none = Unit
OptionReads (some c) = ReadsSoundly c

billing_facts-KeepsSound :
    (client : Option BillingMcpClient)
    → OptionReads client
    → (id : String) → KeepsSound (billing_facts client id)
unfolding billing_facts get_customer get_latest_finalized_invoice get_contract_for_period
billing_facts-KeepsSound none h id = search keeps_rules depth 12
billing_facts-KeepsSound (some c) h id =
    search (keeps_rules, h.customer, h.contract, h.invoice) depth 12

-- The decision of an assessment is the rules' on its discrepancy.
abbrev pub IsAssessed : Settings → BillingComputation → Type 0
IsAssessed s c = Range c.decision (record {
  discrepancy = c.discrepancy;
  auto_credit_limit = s.auto_credit_limit;
  max_credit_limit = s.max_credit_limit;
})

module _ (client : Option BillingMcpClient) (reads : OptionReads client) (env : Env) where
  assess-Ensures :
      (r v : String) (cu : Customer) (iv : Invoice) (co : Contract) (w : World)
      → Sound env.settings w
      → Ensures
          (λ a w'. Sound env.settings w' × IsAssessed env.settings a.0)
          (λ w'. IsSafe env.settings w'.stored)
          (assess r v (cu, iv, co) env w)
  unfolding assess settings ◌>>=◌
  assess-Ensures r v cu iv co w h = ground (
    arith,
    (Keeps-audit r v "DISCREPANCY_CALCULATED" "system" "billing_service" (
          ("customer_id", cu.id)
          ∷ ("discrepancy", show_amount (iv.total.amount -ℤ co.monthly_price.amount))
          ∷ [])).at
        env w h,
    decision-Range (record {
      discrepancy = iv.total.amount -ℤ co.monthly_price.amount;
      auto_credit_limit = env.settings.auto_credit_limit;
      max_credit_limit = env.settings.max_credit_limit;
    }),
  )

  analyze-Ensures :
      (r v id : String) (w : World)
      → Sound env.settings w
      → Ensures
          (λ a w'. Sound env.settings w' × IsAssessed env.settings a.0)
          (λ w'. IsSafe env.settings w'.stored)
          (analyze_customer_billing client r v id env w)
  unfolding analyze_customer_billing
  analyze-Ensures r v id w h =
      bind-Ensures (billing_facts client id) (assess r v) env w
        ((billing_facts-KeepsSound client reads id).at env w h)
        (λ f w' p. assess-Ensures r v f.0 f.1 f.2 w' p)

-- What `evaluate` leaves in the state: an assessed discrepancy and the rules' decision on it.
pub record IsEvaluated (s : Settings) (st : BillingAgentState) : Type 0 where
  pub calc : BillingComputation
  pub discrepancy : st.discrepancy ≡ some calc.discrepancy
  pub decision : st.decision ≡ some calc.decision
  pub assessed : IsAssessed s calc

module _ (client : Option BillingMcpClient) (reads : OptionReads client) (env : Env) where
  pub evaluate-Ensures :
      (st : BillingAgentState) (w : World)
      → Sound env.settings w
      → Ensures
          (λ a w'. Sound env.settings w' × IsEvaluated env.settings a)
          (λ w'. IsSafe env.settings w'.stored)
          (evaluate client st env w)
  unfolding evaluate pure
  evaluate-Ensures st w h =
      bind-Ensures (analyze_customer_billing client st.request_id st.workflow_id st.customer_id) _
        env w (analyze-Ensures client reads env st.request_id st.workflow_id st.customer_id w h)
        (λ a w' p.
          bind-Ensures (upsert_workflow_state _ _ _ _) _ env w'
            ((Keeps-upsert _ _ _ _).at env w' p.0)
            (λ _ w₁ q. bind-Ensures commit _ env w₁ (Keeps-commit.at env w₁ q) (λ _ w₂ q₂. record {
              holds =
                  (q₂, record { calc = a.0; discrepancy = refl; decision = refl; assessed = p.1 });
            })))
