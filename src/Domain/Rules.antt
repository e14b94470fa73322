-- ===== src/Domain/Rules.antt =====
-- src/domain/rules/billing_rules.py: the decision on a discrepancy.
use agentic_ai.Base.{String, if◌then◌else◌}
use agentic_ai.Base.Int.{ℤ, pos, ltb_ℤ, leb_ℤ, eqb_ℤ}
use agentic_ai.Domain.Status.{
  BillingDecision, no_action, auto_credit, human_approval, manual_investigation,
}

pub record BillingRuleInput : Type 0 where
  pub discrepancy : ℤ
  pub auto_credit_limit : ℤ
  pub max_credit_limit : ℤ

pub record BillingRuleResult : Type 0 where
  pub decision : BillingDecision
  pub reason : String

unfoldable pub evaluate_billing_decision : BillingRuleInput → BillingRuleResult
evaluate_billing_decision d =
    if eqb_ℤ d.discrepancy (pos 0)
    then record { decision = no_action; reason = "No discrepancy detected" }
    else if ltb_ℤ d.discrepancy (pos 0)
    then record {
      decision = manual_investigation;
      reason = "Negative discrepancy requires manual investigation";
    }
    else if leb_ℤ d.discrepancy d.auto_credit_limit
    then record { decision = auto_credit; reason = "Eligible for automatic credit" }
    else if leb_ℤ d.discrepancy d.max_credit_limit
    then record { decision = human_approval; reason = "Human approval required" }
    else record {
      decision = manual_investigation;
      reason = "Discrepancy exceeds maximum configured limit";
    }
