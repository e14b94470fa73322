-- ===== src/Fixtures.antt =====
-- An environment and a database for the tests: fixed limits, a clock that ticks at every reading,
-- one-letter identifiers, and a database that refuses a second workflow for a request.
use Prim.Native.String.{slice}
use agentic_ai.Base.{
  ℕ, ◌+◌, suc, String, Bool, false, ◌||◌, Option, none, some, List, [], ◌∷◌, leb, ◌==◌,
  if◌then◌else◌,
}
use agentic_ai.Base.Int.{pos, ◌-ℤ◌}
use agentic_ai.Domain.Errors.{ok}
use agentic_ai.Store.{Tables, InvoiceRow, WorkflowRunRow, ApprovalRow}
use agentic_ai.World.{
  Env, World, Settings, ◌>>=◌, now, uuid4, flush, assign, commit, with_session, send_notification,
  record_credit_created, record_approval_created, record_approval_completed, record_workflow_result,
}
use agentic_ai.McpClient.{new_client}
use agentic_ai.Domain.Models.{money, is_customer_id}
use agentic_ai.Domain.Rules.{evaluate_billing_decision}
use agentic_ai.Base.Text.{upper, show_amount}
use agentic_ai.Repository.{
  get_workflow_by_approval, get_customer, get_latest_finalized_invoice, get_contract_for_period,
  set_approval_decision, ensure_idempotency, create_credit, create_approval, add_audit_event,
  upsert_workflow_state,
}
use agentic_ai.Billing.{
  analyze_customer_billing, billing_facts, assess, process_approval, decide, expire, approve,
  reject, create_approval_request, submit_approval, create_credit_if_allowed, issue_credit,
  settings,
}
use agentic_ai.Routes.{approval_decision, chat}
use agentic_ai.Workflow.{
  run, given_or_new, invoke, understand_request, evaluate, side_effects, effects_of, credit_effects,
  approval_effects, review_effects, LlmClient,
}
use agentic_ai.Seed.{add_seed}

abbrev pub default_settings : Settings
default_settings = record {
  auto_credit_limit = pos 2500;
  max_credit_limit = pos 50000;
  supported_currency = "USD";
  http_mode = false;
}

abbrev requested : String → List WorkflowRunRow → Bool
requested r [] = false
requested r (x ∷ xs) = (x.request_id == r) || requested r xs

abbrev doubled : List WorkflowRunRow → Bool
doubled [] = false
doubled (x ∷ xs) = requested x.request_id xs || doubled xs

abbrev later : InvoiceRow → Option InvoiceRow → InvoiceRow
later x none = x
later x (some y) = if leb x.issued_at y.issued_at then y else x

abbrev pub newest : List InvoiceRow → Option InvoiceRow
newest [] = none
newest (x ∷ xs) = some (later x (newest xs))

abbrev pub test_env : Env
test_env = record {
  settings = default_settings;
  now = λ n. 1000 + n;
  uuid = λ n. slice "0123456789ABCDEFGHIJKLMNOPQRSTUVWXYZ" n (suc n);
  refuses = λ t.
      if doubled t.workflow_runs
      then some "UNIQUE constraint failed: workflow_runs.request_id"
      else none;
  newest = newest;
}

abbrev pub empty_tables : Tables
empty_tables = record {
  customers = [];
  contracts = [];
  invoices = [];
  credits = [];
  approvals = [];
  audit_events = [];
  workflow_runs = [];
  idempotency_keys = [];
}

abbrev pub world_of : Tables → World
world_of t = record {
  stored = t;
  pending = λ t. t;
  draws = 0;
  metrics = record {
    credits_created = 0;
    approvals_created = 0;
    approvals_completed = λ l. 0;
    workflow_runs = λ l. 0;
    mcp_tool_calls = λ t l. 0;
    mcp_tool_failures = λ l. 0;
    llm_calls = λ l. 0;
    llm_tokens = λ l. 0;
  };
  mcp_client = new_client;
  sent = [];
}

abbrev pub seeded : World
seeded = world_of (add_seed 900 empty_tables)

-- A customer's request for 50.00 that waits for an approver, until the instant `expires_at`.
abbrev pub waiting : String → ℕ → ApprovalRow
waiting status expires_at = record {
  id = "A1";
  request_id = "r-1";
  workflow_id = "w-1";
  customer_id = "CUST-001";
  invoice_id = "INV-001";
  amount = pos 5000;
  currency = "USD";
  status = status;
  created_at = 950;
  expires_at = expires_at;
  approved_by = none;
  approved_at = none;
}

abbrev pub waiting_workflow : WorkflowRunRow
waiting_workflow = record {
  workflow_id = "w-1";
  request_id = "r-1";
  status = "WAITING_APPROVAL";
  state_json = ("approval_id", "A1") ∷ [];
  created_at = 940;
  updated_at = 950;
}

abbrev pub waiting_world : String → ℕ → World
waiting_world status expires_at = world_of (record (add_seed 900 empty_tables) {
  approvals = waiting status expires_at ∷ [];
  workflow_runs = waiting_workflow ∷ [];
})

abbrev pub silent_llm : LlmClient
silent_llm = record {
  parse_request = λ m env w. (
    ok (record { claimed_amount = none; expected_amount = none; requested_action = "investigate" }),
    w,
  );
}

-- Unfolding this name runs the whole program: its line names every function of a request's path.
unfoldable pub program : Unit {0}
unfolding approval_decision chat run given_or_new invoke understand_request evaluate side_effects
    effects_of credit_effects approval_effects review_effects analyze_customer_billing billing_facts
    assess evaluate_billing_decision process_approval decide expire approve reject
    create_approval_request submit_approval create_credit_if_allowed issue_credit settings
    get_workflow_by_approval get_customer get_latest_finalized_invoice get_contract_for_period
    set_approval_decision ensure_idempotency create_credit create_approval add_audit_event
    upsert_workflow_state record_credit_created record_approval_created record_approval_completed
    record_workflow_result send_notification with_session commit flush assign now uuid4 money
    is_customer_id upper show_amount ◌-ℤ◌ ◌>>=◌
program = tt
