-- ===== src/Tests/Decision.antt =====
-- The rules at the inputs of tests/unit/domain/test_billing_rules.py.
use agentic_ai.Base.{◌≡◌, ◌↔◌, refl}
use agentic_ai.Base.Int.{pos, negsuc}
use agentic_ai.Domain.Status.{auto_credit, human_approval, manual_investigation}
use agentic_ai.Domain.Rules.{BillingRuleInput, evaluate_billing_decision}
use agentic_ai.Domain.Decisions.{Range, decision_iff}

abbrev twenty : BillingRuleInput
twenty = record {
  discrepancy = pos 2000;
  auto_credit_limit = pos 2500;
  max_credit_limit = pos 50000;
}

decision_auto : (evaluate_billing_decision twenty).decision ≡ auto_credit
unfolding evaluate_billing_decision
decision_auto = refl

decision_human :
    (evaluate_billing_decision (record twenty { discrepancy = pos 5000 })).decision ≡ human_approval
unfolding evaluate_billing_decision
decision_human = refl

decision_negative :
    (evaluate_billing_decision (record twenty { discrepancy = negsuc 999 })).decision
    ≡ manual_investigation
unfolding evaluate_billing_decision
decision_negative = refl

decision_iff_example :
    ((evaluate_billing_decision twenty).decision ≡ auto_credit) ↔ Range auto_credit twenty
decision_iff_example = decision_iff twenty auto_credit
