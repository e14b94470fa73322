-- ===== src/Repository/Writes.antt =====
-- billing_repository.py, the methods that write: each flushes its change. An attribute that the code
-- sets on a row is a change of the row with that primary key.
use agentic_ai.Base.{ℕ, String, Bool, true, false, Option, none, some, [], ◌∷◌, ◌++◌, if◌then◌else◌}
use agentic_ai.Base.Int.{ℤ}
use agentic_ai.Base.Text.{contains}
use agentic_ai.Domain.Status.{ApprovalStatus, approval_status_value}
use agentic_ai.Domain.Errors.{Error, conflict, integrity, Result, ok, err}
use agentic_ai.Domain.Models.{money, Credit, ApprovalRequest}
use agentic_ai.Store.{
  CreditRow, ApprovalRow, AuditEventRow, WorkflowRunRow, IdempotencyKeyRow, Json, Tables,
  find_workflow, find_key, update_approval, update_workflow,
}
use agentic_ai.World.{World, Action, pure, lift, query, ◌>>=◌, ◌>>◌, now, uuid4, flush}

abbrev pub add_key : IdempotencyKeyRow → Tables → Tables
add_key row t = record t { idempotency_keys = t.idempotency_keys ++ row ∷ [] }

-- The rest of `ensure_idempotency`, on what the look-up found.
unfoldable pub insert_key : String → String → Option IdempotencyKeyRow → Action Bool
insert_key key request_id (some existing) = pure false
insert_key key request_id none = do
  created_at ← now
  flush (add_key (record { key = key; request_id = request_id; created_at = created_at }))
  pure true

unfoldable pub ensure_idempotency : String → String → Action Bool
unfolding insert_key
ensure_idempotency key request_id = do
  existing ← query (λ env t. find_key key t)
  insert_key key request_id existing

abbrev pub add_credit : CreditRow → Tables → Tables
add_credit row t = record t { credits = t.credits ++ row ∷ [] }

unfoldable pub create_credit : String → String → String → ℤ → String → String → Action Credit
create_credit request_id customer_id invoice_id amount currency reason = do
  created_at ← now
  id ← uuid4
  flush (
      add_credit (record {
        id = id;
        request_id = request_id;
        customer_id = customer_id;
        invoice_id = invoice_id;
        amount = amount;
        currency = currency;
        reason = reason;
        created_at = created_at;
      }))
  total ← lift (money amount currency)
  pure (record {
    id = id;
    customer_id = customer_id;
    invoice_id = invoice_id;
    amount = total;
    reason = reason;
    created_at = created_at;
  })

abbrev pub add_approval : ApprovalRow → Tables → Tables
add_approval row t = record t { approvals = t.approvals ++ row ∷ [] }

unfoldable pub create_approval :
    String → String → String → String → ℤ → String → ℕ → Action ApprovalRequest
create_approval request_id workflow_id customer_id invoice_id amount currency expires_at = do
  created_at ← now
  id ← uuid4
  flush (
      add_approval (record {
        id = id;
        request_id = request_id;
        workflow_id = workflow_id;
        customer_id = customer_id;
        invoice_id = invoice_id;
        amount = amount;
        currency = currency;
        status = approval_status_value ApprovalStatus.pending;
        created_at = created_at;
        expires_at = expires_at;
        approved_by = none;
        approved_at = none;
      }))
  total ← lift (money amount currency)
  pure (record {
    id = id;
    request_id = request_id;
    customer_id = customer_id;
    invoice_id = invoice_id;
    amount = total;
    status = ApprovalStatus.pending;
    created_at = created_at;
    expires_at = expires_at;
  })

abbrev pub decided : ApprovalStatus → String → ℕ → ApprovalRow → ApprovalRow
decided decision approver at row = record row {
  status = approval_status_value decision;
  approved_by = some approver;
  approved_at = some at;
}

-- `approval` is the session's object for the row with the key `approval_id`.
unfoldable pub set_approval_decision : String → ApprovalStatus → String → Action (Unit {0})
set_approval_decision approval_id decision approver = do
  at ← now
  flush (update_approval approval_id (decided decision approver at))

abbrev pub add_audit : AuditEventRow → Tables → Tables
add_audit row t = record t { audit_events = t.audit_events ++ row ∷ [] }

unfoldable pub add_audit_event :
    String → String → String → String → String → Json → Action (Unit {0})
add_audit_event request_id workflow_id event_type actor source metadata_json = do
  created_at ← now
  id ← uuid4
  flush (
      add_audit (record {
        id = id;
        request_id = request_id;
        workflow_id = workflow_id;
        event_type = event_type;
        actor = actor;
        source = source;
        metadata_json = metadata_json;
        created_at = created_at;
      }))

abbrev pub add_workflow : WorkflowRunRow → Tables → Tables
add_workflow row t = record t { workflow_runs = t.workflow_runs ++ row ∷ [] }

-- The change of `upsert_workflow_state`, on what the look-up found.
abbrev pub upsert : Option WorkflowRunRow → String → String → String → Json → ℕ → Tables → Tables
upsert (some row) workflow_id request_id status state_json at =
    update_workflow workflow_id
      (λ r. record r { status = status; state_json = state_json; updated_at = at })
upsert none workflow_id request_id status state_json at = add_workflow (record {
  workflow_id = workflow_id;
  request_id = request_id;
  status = status;
  state_json = state_json;
  created_at = at;
  updated_at = at;
})

-- `except IntegrityError`: a refusal that names the column `workflow_runs.request_id` is a
-- conflict, and any other exception goes on.
abbrev pub duplicate_request : Error → Error
duplicate_request (integrity text) =
    if contains text "workflow_runs.request_id"
    then conflict "Duplicate request detected"
    else integrity text
duplicate_request e = e

abbrev pub translate : (Error → Error) → Result (Unit {0}) × World → Result (Unit {0}) × World
translate f (ok a, w) = (ok a, w)
translate f (err e, w) = (err (f e), w)

abbrev pub catch : (Error → Error) → Action (Unit {0}) → Action (Unit {0})
catch f m env w = translate f (m env w)

unfoldable pub upsert_workflow_state : String → String → String → Json → Action (Unit {0})
upsert_workflow_state workflow_id request_id status state_json = do
  row ← query (λ env t. find_workflow workflow_id t)
  at ← now
  catch duplicate_request (flush (upsert row workflow_id request_id status state_json at))
