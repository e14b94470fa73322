-- ===== src/Safety/Effects.antt =====
-- The side effects of each decision keep the money rules.
use agentic_ai.Base.{String, ◌≡◌, false, Option, none, some, inl}
use agentic_ai.Base.Int.{ℤ, pos, ◌≤ℤ◌, ◌<ℤ◌}
use agentic_ai.Domain.Errors.{Error, ok, or_err, missing_key}
use agentic_ai.Domain.Status.{BillingDecision}
use agentic_ai.World.{Env, World}
use agentic_ai.World.Post.{Ensures, bind-Ensures, lift-Ensures}
use agentic_ai.Billing.{
  BillingMcpClient, BillingComputation, create_credit_if_allowed, create_approval_request,
}
use agentic_ai.Workflow.{
  item, BillingAgentState, effects_of, credit_effects, approval_effects, review_effects,
  side_effects,
}
use agentic_ai.Safety.Tables.{Sound, IsSafe}
use agentic_ai.Safety.Writes.{IsSound}
use agentic_ai.Safety.Billing.{create_credit_if_allowed-IsSound, create_approval_request-IsSound}
use agentic_ai.Safety.Keeps.{KeepsSound, bind-IsSound, keeps_rules}
use agentic_ai.Safety.Evaluate.{IsAssessed, IsEvaluated}

item_eq : {A : Type 0} (o : Option A) (e : Error) (n m : A) → or_err o e ≡ ok n → o ≡ some m → m ≡ n
item_eq none e n m h k = cc
item_eq (some a) e n m h k = cc

module _ (env : Env) where
  -- An item of the state, read in a sound world.
  item-Ensures :
      {A : Type 0} (key : String) (o : Option A) (w : World)
      → Sound env.settings w
      → Ensures
          (λ a w'. (or_err o (missing_key key) ≡ ok a) × (w' ≡ w))
          (λ w'. IsSafe env.settings w'.stored)
          (item key o env w)
  item-Ensures key o w h = lift-Ensures (or_err o (missing_key key)) env w h.kept

module _ (client : Option BillingMcpClient) (env : Env) where
  credit_effects-IsSound :
      (st : BillingAgentState) (n : ℤ) (w : World)
      → env.settings.http_mode ≡ false
      → st.discrepancy ≡ some n
      → (pos 0 <ℤ n) × (n ≤ℤ env.settings.auto_credit_limit)
      → Sound env.settings w
      → IsSound env.settings (credit_effects client st env w)
  unfolding credit_effects
  credit_effects-IsSound st n w local e k h =
      bind-Ensures (item "invoice_id" st.invoice_id) _ env w
        (item-Ensures env "invoice_id" st.invoice_id w h)
        λ i w₁ p₁.
          bind-Ensures (item "discrepancy" st.discrepancy) _ env w₁
            (item-Ensures env "discrepancy" st.discrepancy w₁ (rw p₁.1 h))
            λ d w₂ p₂.
              bind-Ensures (item "currency" st.currency) _ env w₂
                (item-Ensures env "currency" st.currency w₂ (rw (p₂.1, p₁.1) h))
                λ u w₃ p₃.
                  bind-IsSound (create_credit_if_allowed client st.request_id st.customer_id i d u)
                    _ env w₃
                    (create_credit_if_allowed-IsSound client st.request_id st.customer_id i d u env
                      w₃ local (rw (p₃.1, p₂.1, p₁.1) h)
                      (inl
                        (rw (← item_eq st.discrepancy (missing_key "discrepancy") d n p₂.0 e) k)))
                    (λ _. search keeps_rules depth 9)

  approval_effects-IsSound :
      (st : BillingAgentState) (n : ℤ) (w : World)
      → env.settings.http_mode ≡ false
      → st.discrepancy ≡ some n
      → (pos 0 <ℤ n) × (env.settings.auto_credit_limit <ℤ n) × (n ≤ℤ env.settings.max_credit_limit)
      → Sound env.settings w
      → IsSound env.settings (approval_effects client st env w)
  unfolding approval_effects
  approval_effects-IsSound st n w local e k h =
      bind-Ensures (item "invoice_id" st.invoice_id) _ env w
        (item-Ensures env "invoice_id" st.invoice_id w h)
        λ i w₁ p₁.
          bind-Ensures (item "discrepancy" st.discrepancy) _ env w₁
            (item-Ensures env "discrepancy" st.discrepancy w₁ (rw p₁.1 h))
            λ d w₂ p₂.
              bind-Ensures (item "currency" st.currency) _ env w₂
                (item-Ensures env "currency" st.currency w₂ (rw (p₂.1, p₁.1) h))
                λ u w₃ p₃.
                  bind-IsSound
                    (create_approval_request client st.request_id st.workflow_id st.customer_id i d
                      u)
                    _ env w₃
                    (create_approval_request-IsSound client st.request_id st.workflow_id
                      st.customer_id i d u env w₃ local (rw (p₃.1, p₂.1, p₁.1) h)
                      (rw (← item_eq st.discrepancy (missing_key "discrepancy") d n p₂.0 e) k))
                    (λ _. search keeps_rules depth 9)

  review_effects-KeepsSound :
      (d : BillingDecision) (st : BillingAgentState) → KeepsSound (review_effects d st)
  unfolding review_effects
  review_effects-KeepsSound d st = search keeps_rules depth 9

  effects_of-IsSound :
      (st : BillingAgentState) (calc : BillingComputation) (d : BillingDecision) (w : World)
      → env.settings.http_mode ≡ false
      → st.discrepancy ≡ some calc.discrepancy
      → calc.decision ≡ d
      → IsAssessed env.settings calc
      → Sound env.settings w
      → IsSound env.settings (effects_of client st d env w)
  unfolding effects_of
  effects_of-IsSound st calc BillingDecision.auto_credit w local e same k h =
      credit_effects-IsSound st calc.discrepancy w local e (rw same at k) h
  effects_of-IsSound st calc BillingDecision.human_approval w local e same k h =
      approval_effects-IsSound st calc.discrepancy w local e (rw same at k) h
  effects_of-IsSound st calc BillingDecision.no_action w local e same k h =
      (review_effects-KeepsSound BillingDecision.no_action st).at env w h
  effects_of-IsSound st calc BillingDecision.manual_investigation w local e same k h =
      (review_effects-KeepsSound BillingDecision.manual_investigation st).at env w h

  pub side_effects-IsSound :
      (st : BillingAgentState) (w : World)
      → env.settings.http_mode ≡ false
      → IsEvaluated env.settings st
      → Sound env.settings w
      → IsSound env.settings (side_effects client st env w)
  unfolding side_effects
  side_effects-IsSound st w local v h =
      bind-Ensures (item "decision" st.decision) _ env w
        (item-Ensures env "decision" st.decision w h)
        λ d w₁ p.
          effects_of-IsSound st v.calc d w₁ local v.discrepancy
            (item_eq st.decision (missing_key "decision") d v.calc.decision p.0 v.decision)
            v.assessed (rw p.1 h)
