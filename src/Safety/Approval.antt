-- ===== src/Safety/Approval.antt =====
-- `process_approval` keeps the money rules: it credits only what it has just granted.
use agentic_ai.Base.{
  ℕ, suc, String, ◌≡◌, ◌≢◌, refl, false, Option, some, arith, inl, inr, eq_iff, ◌==◌, Option-cases,
  Bool-cases,
}
use agentic_ai.Domain.Status.{ApprovalStatus}
use agentic_ai.Store.{ApprovalRow, find_approval, find_workflow, update_approval}
use agentic_ai.World.{Env, World, rows, ◌>>=◌, flush, now, assign}
use agentic_ai.World.Post.{Ensures, bind-Ensures}
use agentic_ai.Repository.{set_approval_decision, get_workflow_by_approval, Composite, decided}
use agentic_ai.Billing.{
  BillingMcpClient, create_credit_if_allowed, approve, reject, expire, decide, process_approval,
}
use agentic_ai.Safety.Tables.{Sound, IsSafe, approval_claim, Grants, Any, Any-replace-first}
use agentic_ai.Safety.Writes.{IsSound, set_approval_decision-IsSound, update_approval-IsSafe}
use agentic_ai.Safety.Keeps.{bind-IsSound, keeps_rules}
use agentic_ai.Safety.Billing.{create_credit_if_allowed-IsSound}

abbrev pub expired_row : ApprovalRow → ApprovalRow
expired_row r = record r { status = "EXPIRED" }

module _ (client : Option BillingMcpClient) (k by : String) (c : Composite) (env : Env) (w : World)
    (found : find_approval k (rows w) ≡ some c.0) (open_yet : c.0.status ≡ "PENDING")
    (h : Sound env.settings w) where
  not_granted : c.0.status ≢ "APPROVED"
  not_granted e = ground (arith, eq_iff "PENDING" "APPROVED")

  -- The row that was decided on grants the claim that it makes.
  Grants-now :
      Ensures
        (λ a w'. Sound env.settings w' × Any (Grants (approval_claim c.0)) (rows w').approvals)
        (λ w'. IsSafe env.settings w'.stored)
        (set_approval_decision k ApprovalStatus.approved by env w)
  unfolding set_approval_decision flush now ◌>>=◌
  Grants-now = ground (
    arith,
    update_approval-IsSafe env.settings (rows w) k
        (decided ApprovalStatus.approved by (env.now w.draws)) c.0 found not_granted (λ x. refl)
        h.seen,
    Any-replace-first (Grants (approval_claim c.0)) (λ r. r.id == k)
        (decided ApprovalStatus.approved by (env.now w.draws)) (rows w).approvals c.0 found
        (refl, refl),
  )

  approve-IsSound :
      env.settings.http_mode ≡ false → IsSound env.settings (approve client k by c env w)
  unfolding approve
  approve-IsSound local =
      bind-Ensures (set_approval_decision k ApprovalStatus.approved by) _ env w Grants-now λ _ w₁ p.
        bind-IsSound
          (create_credit_if_allowed client c.1.request_id c.0.customer_id c.0.invoice_id c.0.amount
            c.0.currency)
          _ env w₁
          (create_credit_if_allowed-IsSound client c.1.request_id c.0.customer_id c.0.invoice_id
            c.0.amount c.0.currency env w₁ local p.0 (inr p.1))
          (λ _. search keeps_rules depth 9)

  reject-IsSound : IsSound env.settings (reject k by c env w)
  unfolding reject
  reject-IsSound =
      bind-IsSound (set_approval_decision k ApprovalStatus.rejected by) _ env w
        (set_approval_decision-IsSound k ApprovalStatus.rejected by c.0 env w found not_granted h)
        (λ _. search keeps_rules depth 8)

  assign-IsSound : IsSound env.settings (assign (update_approval k expired_row) env w)
  unfolding assign
  assign-IsSound = record {
    holds = record {
      seen =
          update_approval-IsSafe env.settings (rows w) k expired_row c.0 found not_granted
            (λ x. refl) h.seen;
      kept = h.kept;
    };
  }

  expire-IsSound : IsSound env.settings (expire k c env w)
  unfolding expire
  expire-IsSound =
      bind-IsSound (assign (update_approval k expired_row)) _ env w assign-IsSound
        (λ _. search keeps_rules depth 8)

  decide-IsSound :
      (d : String) (at : ℕ)
      → env.settings.http_mode ≡ false
      → IsSound env.settings (decide client k d by c at env w)
  unfolding decide
  decide-IsSound d at local = ground (arith, expire-IsSound, reject-IsSound, approve-IsSound local)

-- Whatever the approver decides on whatever request, the tables stay within the money rules.
pub process_approval-IsSound :
    (client : Option BillingMcpClient) (k d by : String) (env : Env) (w : World)
    → env.settings.http_mode ≡ false
    → Sound env.settings w
    → IsSound env.settings (process_approval client k d by env w)
unfolding process_approval get_workflow_by_approval now ◌>>=◌
process_approval-IsSound client k d by env w local h =
    elim (Option-cases (find_approval k (rows w))) [
      | inl e ↦ ground arith
      | inr (a, e) ↦ elim (Option-cases (find_workflow a.workflow_id (rows w))) [
        | inl f ↦ ground arith
        | inr (v, f) ↦ elim (Bool-cases (a.status == "PENDING")) [
          | inl p ↦ ground (
            arith,
            decide-IsSound client k by (a, v) env (record w { draws = suc w.draws }) e
                ((eq_iff a.status "PENDING").0 p) (record { seen = h.seen; kept = h.kept }) d
                (env.now w.draws) local,
          )
          | inr p ↦ ground arith
        ]
      ]
    ]
