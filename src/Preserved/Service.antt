-- ===== src/Preserved/Service.antt =====
-- The repository and the billing service, on the laws of their writes.
use agentic_ai.Base.{ℕ, String, Bool, true, false, Option, none, some, Bool-cases, inl, inr}
use agentic_ai.Base.Int.{ℤ}
use agentic_ai.Domain.Errors.{Error}
use agentic_ai.Domain.Models.{Customer, Invoice, Contract}
use agentic_ai.Store.{Json, ApprovalRow, WorkflowRunRow, IdempotencyKeyRow, AuditEventRow}
use agentic_ai.World.{Settings, flush}
use agentic_ai.World.Preserves.{
  Invariant, Preserves, preserves_rules, Preserves-pure, Preserves-raise,
}
use agentic_ai.Repository.{
  add_key, add_approval, add_audit, upsert, insert_key, ensure_idempotency, create_approval,
  add_audit_event, upsert_workflow_state, get_customer, get_latest_finalized_invoice,
  get_contract_for_period,
}
use agentic_ai.Billing.{
  BillingMcpClient, settings, raise_if, remote, billing_facts, assess, submit_approval,
  create_approval_request, create_credit_if_allowed,
}

-- The writes of the repository that every invariant here allows.
pub record Laws (inv : Invariant) : Type 0 where
  pub keys : (row : IdempotencyKeyRow) → Preserves inv (flush (add_key row))
  pub approvals : (row : ApprovalRow) → Preserves inv (flush (add_approval row))
  pub audits : (row : AuditEventRow) → Preserves inv (flush (add_audit row))
  pub workflows :
      (o : Option WorkflowRunRow) (i r s : String) (j : Json) (at : ℕ)
      → Preserves inv (flush (upsert o i r s j at))

-- The reads of a tool client.
pub record ClientPreserves (inv : Invariant) (c : BillingMcpClient) : Type 0 where
  pub customer : (id : String) → Preserves inv (c.get_customer id)
  pub contract : (id : String) (at : ℕ) → Preserves inv (c.get_contract id at)
  pub invoice : (id : String) → Preserves inv (c.get_invoice id)

abbrev pub OptionPreserves : Invariant → Option BillingMcpClient → Type 0
OptionPreserves inv none = Unit
OptionPreserves inv (some c) = ClientPreserves inv c

-- What the service does with a decision: the issue of a credit, and the request for an approval.
pub record EffectLaws (inv : Invariant) (client : Option BillingMcpClient) : Type 0 where
  pub credit :
      (r c i : String) (n : ℤ) (u : String)
      → Preserves inv (create_credit_if_allowed client r c i n u)
  pub approval :
      (r v c i : String) (n : ℤ) (u : String)
      → Preserves inv (create_approval_request client r v c i n u)

module _ (inv : Invariant) (laws : Laws inv) where
  pub Preserves-raise_if : (b : Bool) (e : Error) → Preserves inv (raise_if b e)
  Preserves-raise_if true e = Preserves-raise inv e
  Preserves-raise_if false e = Preserves-pure inv tt

  insert_key-Preserves :
      (key r : String) (o : Option IdempotencyKeyRow) → Preserves inv (insert_key key r o)
  unfolding insert_key
  insert_key-Preserves key r (some row) = Preserves-pure inv false
  insert_key-Preserves key r none = search (preserves_rules, laws.keys) depth 8

  pub ensure_idempotency-Preserves : (key r : String) → Preserves inv (ensure_idempotency key r)
  unfolding ensure_idempotency
  ensure_idempotency-Preserves key r = search (preserves_rules, insert_key-Preserves) depth 8

  pub create_approval-Preserves :
      (r v c i : String) (n : ℤ) (u : String) (x : ℕ)
      → Preserves inv (create_approval r v c i n u x)
  unfolding create_approval
  create_approval-Preserves r v c i n u x = search (preserves_rules, laws.approvals) depth 8

  pub add_audit_event-Preserves :
      (r i t x s : String) (m : Json) → Preserves inv (add_audit_event r i t x s m)
  unfolding add_audit_event
  add_audit_event-Preserves r i t x s m = search (preserves_rules, laws.audits) depth 8

  pub upsert_workflow_state-Preserves :
      (i r s : String) (j : Json) → Preserves inv (upsert_workflow_state i r s j)
  unfolding upsert_workflow_state
  upsert_workflow_state-Preserves i r s j = search (preserves_rules, laws.workflows) depth 8

  pub assess-Preserves :
      (r v : String) (f : Customer × Invoice × Contract) → Preserves inv (assess r v f)
  unfolding assess settings
  assess-Preserves r v f =
      search (preserves_rules, Preserves-raise_if, add_audit_event-Preserves) depth 10

  pub billing_facts-Preserves :
      (client : Option BillingMcpClient)
      → OptionPreserves inv client
      → (id : String) → Preserves inv (billing_facts client id)
  unfolding billing_facts get_customer get_latest_finalized_invoice get_contract_for_period
  billing_facts-Preserves none h id = search preserves_rules depth 12
  billing_facts-Preserves (some c) h id =
      search (preserves_rules, h.customer, h.contract, h.invoice) depth 12

  local_approval-Preserves :
      (r v c i : String) (n : ℤ) (u : String) → Preserves inv (submit_approval none r v c i n u)
  unfolding submit_approval
  local_approval-Preserves r v c i n u = search (preserves_rules, create_approval-Preserves) depth 8

  pub local_request-Preserves :
      (r v c i : String) (n : ℤ) (u : String)
      → Preserves inv (create_approval_request none r v c i n u)
  unfolding create_approval_request settings
  local_request-Preserves r v c i n u = search (preserves_rules, local_approval-Preserves) depth 10

  module _ (client : BillingMcpClient)
      (requests : (c i : String) (n : ℤ) → Preserves inv (client.request_approval c i n)) where
    remote_approval-Preserves :
        (s : Settings) (r v c i : String) (n : ℤ) (u : String)
        → Preserves inv (submit_approval (remote (some client) s) r v c i n u)
    unfolding submit_approval
    remote_approval-Preserves s r v c i n u = elim (Bool-cases s.http_mode) [
      | inl over_http ↦ rw over_http (search (preserves_rules, requests) depth 8)
      | inr in_process ↦ rw in_process (search (preserves_rules, create_approval-Preserves) depth 8)
    ]

    pub create_approval_request-Preserves :
        (r v c i : String) (n : ℤ) (u : String)
        → Preserves inv (create_approval_request (some client) r v c i n u)
    unfolding create_approval_request settings
    create_approval_request-Preserves r v c i n u =
        search (preserves_rules, remote_approval-Preserves) depth 10
