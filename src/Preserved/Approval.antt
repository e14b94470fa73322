-- ===== src/Preserved/Approval.antt =====
-- A decision on a request, where the writes of its row preserve the invariant.
use agentic_ai.Base.{ℕ, String, Option, ◌==◌, ltb}
use agentic_ai.Domain.Status.{ApprovalStatus}
use agentic_ai.Store.{update_approval}
use agentic_ai.World.{flush, assign}
use agentic_ai.World.Preserves.{Invariant, Preserves, preserves_rules, Preserves-bind, Preserves-if}
use agentic_ai.Repository.{set_approval_decision, decided, Composite}
use agentic_ai.Billing.{BillingMcpClient, expire, approve, reject, decide}
use agentic_ai.Safety.Approval.{expired_row}
use agentic_ai.Preserved.Service.{
  EffectLaws, Laws, add_audit_event-Preserves, upsert_workflow_state-Preserves,
}

-- The writes of the row of a request.
pub record RowLaws (inv : Invariant) (j : String) : Type 0 where
  pub decides :
      (d : ApprovalStatus) (by : String) (at : ℕ)
      → Preserves inv (flush (update_approval j (decided d by at)))
  pub expires : Preserves inv (assign (update_approval j expired_row))

module _ (inv : Invariant) (laws : Laws inv) (j : String) (row : RowLaws inv j) where
  set_approval_decision-Preserves :
      (d : ApprovalStatus) (by : String) → Preserves inv (set_approval_decision j d by)
  unfolding set_approval_decision
  set_approval_decision-Preserves d by = search (preserves_rules, row.decides) depth 8

  expire-Preserves : (c : Composite) → Preserves inv (expire j c)
  unfolding expire
  expire-Preserves c =
      Preserves-bind inv (assign (update_approval j expired_row)) _ row.expires
        (λ _. search (preserves_rules, upsert_workflow_state-Preserves inv laws) depth 8)

  reject-Preserves : (by : String) (c : Composite) → Preserves inv (reject j by c)
  unfolding reject
  reject-Preserves by c =
      search
        (
          preserves_rules,
          upsert_workflow_state-Preserves inv laws,
          add_audit_event-Preserves inv laws,
          set_approval_decision-Preserves,
        )
        depth 10

  approve-Preserves :
      (client : Option BillingMcpClient)
      → EffectLaws inv client
      → (by : String) (c : Composite) → Preserves inv (approve client j by c)
  unfolding approve
  approve-Preserves client law by c =
      search
        (
          preserves_rules,
          upsert_workflow_state-Preserves inv laws,
          add_audit_event-Preserves inv laws,
          set_approval_decision-Preserves,
          law.credit,
        )
        depth 12

  pub decide-Preserves :
      (client : Option BillingMcpClient)
      → EffectLaws inv client
      → (d by : String) (c : Composite) (at : ℕ) → Preserves inv (decide client j d by c at)
  unfolding decide
  decide-Preserves client law d by c at =
      Preserves-if inv (ltb c.0.expires_at at) _ _ (expire-Preserves c) (
        Preserves-if inv (d == "approve") _ _ (approve-Preserves client law by c)
          (reject-Preserves by c))
