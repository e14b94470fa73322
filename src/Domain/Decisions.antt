-- ===== src/Domain/Decisions.antt =====
-- What the decision rules guarantee.
use agentic_ai.Base.{◌≡◌, ◌⊎◌, ◌↔◌, arith, subst}
use agentic_ai.Base.Int.{pos, ◌≤ℤ◌, ◌<ℤ◌}
use agentic_ai.Domain.Status.{BillingDecision}
use agentic_ai.Domain.Rules.{BillingRuleInput, evaluate_billing_decision}

-- The range of discrepancies that each decision stands for.
abbrev pub Range : BillingDecision → BillingRuleInput → Type 0
Range BillingDecision.no_action d = d.discrepancy ≡ pos 0
Range BillingDecision.auto_credit d =
    (pos 0 <ℤ d.discrepancy) × (d.discrepancy ≤ℤ d.auto_credit_limit)
Range BillingDecision.human_approval d =
    (pos 0 <ℤ d.discrepancy)
    × (d.auto_credit_limit <ℤ d.discrepancy)
    × (d.discrepancy ≤ℤ d.max_credit_limit)
Range BillingDecision.manual_investigation d =
    (d.discrepancy <ℤ pos 0)
    ⊎ ((pos 0 <ℤ d.discrepancy)
        × (d.auto_credit_limit <ℤ d.discrepancy)
        × (d.max_credit_limit <ℤ d.discrepancy))

pub decision-Range : (d : BillingRuleInput) → Range (evaluate_billing_decision d).decision d
unfolding evaluate_billing_decision
decision-Range d = ground arith

Range-unique : (d : BillingRuleInput) (j k : BillingDecision) → Range j d → Range k d → j ≡ k
Range-unique d BillingDecision.no_action k h r = ground arith
Range-unique d BillingDecision.auto_credit k h r = ground arith
Range-unique d BillingDecision.human_approval k h r = ground arith
Range-unique d BillingDecision.manual_investigation k h r = ground arith

-- The rules take a decision exactly when the discrepancy lies in its range: no action on none, an
-- automatic credit on a positive one up to the automatic limit, an approval on a larger one up to
-- the maximum, and an investigation on a negative one or on one above both limits.
pub decision_iff :
    (d : BillingRuleInput) (k : BillingDecision)
    → ((evaluate_billing_decision d).decision ≡ k) ↔ Range k d
decision_iff d k = (
  λ e. subst (λ (j : BillingDecision). Range j d) e (decision-Range d),
  λ r. Range-unique d (evaluate_billing_decision d).decision k (decision-Range d) r,
)
