-- ===== src/World.antt =====
-- What an operation reads and changes: the session and the database behind it, the metrics
-- (src/shared/observability.py), the notifications (src/infrastructure/email/service.py), and the
-- clock, the identifiers and the database's decisions, which the environment supplies.
-- An operation is an action: it returns or raises, and what it changed before a raise stays changed.
pub mod Post
pub mod Stays
pub mod Always
pub mod Preserves
use agentic_ai.Base.{
  ℕ, suc, ◌+◌, String, Bool, true, false, Option, none, some, List, [], ◌∷◌, ◌++◌, ◌==◌,
  if◌then◌else◌,
}
use agentic_ai.Base.Int.{ℤ}
use agentic_ai.Domain.Errors.{Error, integrity, Result, ok, err}
use agentic_ai.Store.{Tables, InvoiceRow}
use agentic_ai.McpClient.{McpState}

-- src/shared/configuration.py, the settings that the modelled code reads. Limits are in cents.
pub record Settings : Type 0 where
  pub auto_credit_limit : ℤ
  pub max_credit_limit : ℤ
  pub supported_currency : String
  pub http_mode : Bool

-- What the program does not decide itself. `now n` is the n-th reading of the clock, `uuid n` the
-- n-th random identifier. `refuses` is the text of the `IntegrityError` with which the database
-- refuses a flush that would leave these rows, if it does. `newest` answers the query
-- `ORDER BY issued_at DESC LIMIT 1`.
pub record Env : Type 0 where
  pub settings : Settings
  pub now : ℕ → ℕ
  pub uuid : ℕ → String
  pub refuses : Tables → Option String
  pub newest : List InvoiceRow → Option InvoiceRow

-- The counters that the billing operations increment, by label where they have one.
pub record Metrics : Type 0 where
  pub credits_created : ℕ
  pub approvals_created : ℕ
  pub approvals_completed : String → ℕ
  pub workflow_runs : String → ℕ
  pub mcp_tool_calls : String → String → ℕ
  pub mcp_tool_failures : String → ℕ
  pub llm_calls : String → ℕ
  pub llm_tokens : String → ℕ

pub record Notification : Type 0 where
  pub customer_id : String
  pub message : String

-- `stored` is what is committed, and `pending` what the session has flushed since. `mcp_client` is
-- the state of the request's `BillingMCPClient`.
pub record World : Type 0 where
  pub stored : Tables
  pub pending : Tables → Tables
  pub draws : ℕ
  pub metrics : Metrics
  pub mcp_client : McpState
  pub sent : List Notification

-- The rows that the session's queries see: its own changes, on what is committed.
abbrev pub rows : World → Tables
rows w = w.pending w.stored

abbrev pub Action {ℓ} : Type ℓ → Type ℓ
Action A = Env → World → Result A × World

module _ {ℓ} {A : Type ℓ} where
  unfoldable pub pure : A → Action A
  pure a env w = (ok a, w)

  unfoldable pub raise : Error → Action A
  raise e env w = (err e, w)

  unfoldable pub lift : Result A → Action A
  lift r env w = (r, w)

  -- A question about the rows, with the environment's help.
  unfoldable pub query : (Env → Tables → A) → Action A
  query f env w = (ok (f env (rows w)), w)

module _ {ℓ κ} {A : Type ℓ} {B : Type κ} where
  abbrev pub continue : Result A → (A → Action B) → Action B
  continue (ok a) f env w = f a env w
  continue (err e) f env w = (err e, w)

  infixl 10 ◌>>=◌ ◌>>◌
  unfoldable pub ◌>>=◌ : Action A → (A → Action B) → Action B
  unfolding pure raise lift query
  ◌>>=◌ m f env w = let (r, w') = m env w in continue r f env w'

  abbrev pub ◌>>◌ : Action A → Action B → Action B
  m >> n = m >>= λ _. n

-- `datetime.now(UTC)`
unfoldable pub now : Action ℕ
now env w = (ok (env.now w.draws), record w { draws = suc w.draws })

-- `str(uuid4())`
unfoldable pub uuid4 : Action String
uuid4 env w = (ok (env.uuid w.draws), record w { draws = suc w.draws })

-- A change that is flushed at once. A flush that the database refuses rolls the session back.
abbrev pub settle : Option String → (Tables → Tables) → World → Result (Unit {0}) × World
settle none change w = (ok tt, record w { pending = change })
settle (some text) change w = (err (integrity text), record w { pending = λ t. t })

unfoldable pub flush : (Tables → Tables) → Action (Unit {0})
flush change env w = settle (env.refuses (change (rows w))) (λ t. change (w.pending t)) w

-- Attributes that the code sets on a session's object: the next flush writes them.
unfoldable pub assign : (Tables → Tables) → Action (Unit {0})
assign change env w = (ok tt, record w { pending = λ t. change (w.pending t) })

-- `session.commit()`, where the session has nothing left to flush.
unfoldable pub commit : Action (Unit {0})
commit env w = (ok tt, record w { stored = rows w; pending = λ t. t })

unfoldable pub measure : (Metrics → Metrics) → Action (Unit {0})
measure f env w = (ok tt, record w { metrics = f w.metrics })

abbrev pub inc : String → (String → ℕ) → String → ℕ
inc label counter l = if label == l then suc (counter l) else counter l

-- src/shared/observability.py; durations go to histograms, which are not modelled.
unfoldable pub record_credit_created : Action (Unit {0})
unfolding measure
record_credit_created = measure λ m. record m { credits_created = suc m.credits_created }

unfoldable pub record_approval_created : Action (Unit {0})
unfolding measure
record_approval_created = measure λ m. record m { approvals_created = suc m.approvals_created }

unfoldable pub record_approval_completed : String → Action (Unit {0})
unfolding measure
record_approval_completed outcome =
    measure λ m. record m { approvals_completed = inc outcome m.approvals_completed }

unfoldable pub record_workflow_result : String → Action (Unit {0})
unfolding measure
record_workflow_result outcome =
    measure λ m. record m { workflow_runs = inc outcome m.workflow_runs }

unfoldable pub record_mcp_result : String → String → Action (Unit {0})
unfolding measure
record_mcp_result tool outcome = measure λ m. record m {
  mcp_tool_calls = λ t. if t == tool then inc outcome (m.mcp_tool_calls t) else m.mcp_tool_calls t;
  mcp_tool_failures =
      if outcome == "failure" then inc tool m.mcp_tool_failures else m.mcp_tool_failures;
}

-- A number of tokens, if the model has told it.
abbrev add_tokens : String → Option ℕ → (String → ℕ) → String → ℕ
add_tokens label none counter l = counter l
add_tokens label (some n) counter l = if label == l then counter l + n else counter l

unfoldable pub record_llm_result : String → Option ℕ → Option ℕ → Option ℕ → Action (Unit {0})
unfolding measure
record_llm_result outcome prompt_tokens completion_tokens total_tokens = measure λ m. record m {
  llm_calls = inc outcome m.llm_calls;
  llm_tokens =
      add_tokens "total" total_tokens (
        add_tokens "completion" completion_tokens (add_tokens "prompt" prompt_tokens m.llm_tokens));
}

-- `EmailService.send_notification`, which logs the notification.
unfoldable pub send_notification : String → String → Action (Unit {0})
send_notification customer_id message env w = (
  ok tt,
  record w { sent = w.sent ++ record { customer_id = customer_id; message = message } ∷ [] },
)

-- A session of its own: it begins with no change, and its close forgets what is not committed.
unfoldable pub with_session {ℓ} : {A : Type ℓ} → Action A → Action A
with_session m env w =
    let (r, w') = m env (record w { pending = λ t. t }) in (r, record w' { pending = w.pending })
