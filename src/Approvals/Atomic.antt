-- ===== src/Approvals/Atomic.antt =====
-- A decision that fails leaves the committed tables as they were.
use agentic_ai.Base.{ℕ, String, ◌≡◌, Bool, true, false, not, Option, arith}
use agentic_ai.Base.Int.{ℤ}
use agentic_ai.Domain.Errors.{Error}
use agentic_ai.Domain.Status.{ApprovalStatus}
use agentic_ai.Store.{Json}
use agentic_ai.World.{Env, ◌>>=◌, now, flush}
use agentic_ai.World.Stays.{Stays, Stays-bind, Stays-raise, Stays-pure, Stays-settings, stays_rules}
use agentic_ai.Repository.{
  ensure_idempotency, create_credit, set_approval_decision, add_audit_event, upsert_workflow_state,
  get_workflow_by_approval, Composite,
}
use agentic_ai.Billing.{
  BillingMcpClient, issue_credit, remote, raise_if, create_credit_if_allowed, settings, approve,
  reject, expire, decide, process_approval,
}
use agentic_ai.Safety.Billing.{remote_local}

module _ (env : Env) where
  pub ensure_idempotency-Stays : (k r : String) → Stays env (ensure_idempotency k r)
  unfolding ensure_idempotency flush now ◌>>=◌
  ensure_idempotency-Stays k r = record { at = λ w. ground arith }

  pub create_credit-Stays :
      (r c i : String) (n : ℤ) (u m : String) → Stays env (create_credit r c i n u m)
  unfolding create_credit
  create_credit-Stays r c i n u m = search stays_rules depth 9

  pub set_approval_decision-Stays :
      (k : String) (d : ApprovalStatus) (by : String) → Stays env (set_approval_decision k d by)
  unfolding set_approval_decision
  set_approval_decision-Stays k d by = search stays_rules depth 9

  pub add_audit_event-Stays :
      (r i t a s : String) (m : Json) → Stays env (add_audit_event r i t a s m)
  unfolding add_audit_event
  add_audit_event-Stays r i t a s m = search stays_rules depth 9

  pub upsert_workflow_state-Stays :
      (i r s : String) (j : Json) → Stays env (upsert_workflow_state i r s j)
  unfolding upsert_workflow_state flush now ◌>>=◌
  upsert_workflow_state-Stays i r s j = record { at = λ w. ground arith }

  pub get_workflow_by_approval-Stays : (k : String) → Stays env (get_workflow_by_approval k)
  unfolding get_workflow_by_approval ◌>>=◌
  get_workflow_by_approval-Stays k = record { at = λ w. ground arith }

pub ruleset writes_stay = (
  stays_rules, create_credit-Stays, set_approval_decision-Stays, add_audit_event-Stays,
  upsert_workflow_state-Stays, ensure_idempotency-Stays, get_workflow_by_approval-Stays,
)

pub raise_if-Stays : (env : Env) (b : Bool) (e : Error) → Stays env (raise_if b e)
raise_if-Stays env true e = Stays-raise env e
raise_if-Stays env false e = Stays-pure env tt

module _ (client : Option BillingMcpClient) (env : Env)
    (local : env.settings.http_mode ≡ false) where
  issue_credit-Stays :
      (r c i : String) (n : ℤ) (u : String)
      → Stays env (issue_credit (remote client env.settings) r c i n u)
  unfolding issue_credit
  issue_credit-Stays r c i n u =
      rw (remote_local client env.settings local) (search writes_stay depth 9)

  create_credit_if_allowed-Stays :
      (r c i : String) (n : ℤ) (u : String) → Stays env (create_credit_if_allowed client r c i n u)
  unfolding create_credit_if_allowed settings
  create_credit_if_allowed-Stays r c i n u =
      Stays-bind env _ _ (ensure_idempotency-Stays env _ r) λ b.
        Stays-bind env _ _ (raise_if-Stays env (not b) _)
          λ _. Stays-settings env _ (issue_credit-Stays r c i n u)

  approve-Stays : (k by : String) (c : Composite) → Stays env (approve client k by c)
  unfolding approve
  approve-Stays k by c = search (writes_stay, create_credit_if_allowed-Stays) depth 12

  reject-Stays : (k by : String) (c : Composite) → Stays env (reject k by c)
  unfolding reject
  reject-Stays k by c = search writes_stay depth 12

  expire-Stays : (k : String) (c : Composite) → Stays env (expire k c)
  unfolding expire
  expire-Stays k c = search writes_stay depth 12

  decide-Stays : (k d by : String) (c : Composite) (at : ℕ) → Stays env (decide client k d by c at)
  unfolding decide
  decide-Stays k d by c at = search (writes_stay, approve-Stays, reject-Stays, expire-Stays) depth 6

  pub process_approval-Stays : (k d by : String) → Stays env (process_approval client k d by)
  unfolding process_approval
  process_approval-Stays k d by = search (writes_stay, decide-Stays, raise_if-Stays) depth 12
