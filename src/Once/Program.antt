-- ===== src/Once/Program.antt =====
-- Every write of the program, in local mode, keeps the credits apart: a credit is written only right
-- after its key.
use agentic_ai.Base.{
  suc, String, ◌≡◌, refl, Bool, true, false, not, Option, none, some, arith, Option-cases, inl, inr,
}
use agentic_ai.Base.Int.{ℤ}
use agentic_ai.Domain.Errors.{conflict}
use agentic_ai.Store.{ApprovalRow, IdempotencyKeyRow, find_key}
use agentic_ai.World.{Env, World, rows, ◌>>=◌, ◌>>◌, now, uuid4, flush, record_credit_created}
use agentic_ai.World.Post.{Ensures, bind-Ensures}
use agentic_ai.World.Preserves.{IsPreserved, Preserves, preserves_rules, Preserves-pure}
use agentic_ai.Repository.{
  ensure_idempotency, create_credit, get_workflow_by_approval, with_workflow,
}
use agentic_ai.Billing.{
  BillingMcpClient, settings, remote, raise_if, issue_credit, create_credit_if_allowed,
  create_approval_request, process_approval, idempotency_key, credit_reason,
}
use agentic_ai.Workflow.{LlmClient}
use agentic_ai.Safety.Billing.{remote_local}
use agentic_ai.Preserved.Service.{
  OptionPreserves, EffectLaws, Preserves-raise_if, local_request-Preserves,
}
use agentic_ai.Preserved.Approval.{decide-Preserves}
use agentic_ai.Preserved.Requests.{Program}
use agentic_ai.Once.Rows.{IsOnce, IsReady, add_key-IsOnce, add_credit-IsOnce, add_key-IsReady}
use agentic_ai.Once.Keeps.{Apart, once, once-Laws, once-RowLaws}

-- A key that was taken in leaves tables that are ready for its credit.
ensure-IsReady :
    (key r : String) (env : Env) (w : World)
    → Apart w
    → Ensures
        (λ b w'. Apart w' × (b ≡ true → IsReady key (rows w')))
        (λ w'. IsOnce w'.stored)
        (ensure_idempotency key r env w)
unfolding ensure_idempotency flush now ◌>>=◌
ensure-IsReady key r env w h =
    let row : IdempotencyKeyRow = record {
      key = key;
      request_id = r;
      created_at = env.now w.draws;
    } in
    elim (Option-cases (find_key key (rows w))) [
      | inl e ↦ ground (
        arith,
        e,
        h.seen,
        h.kept,
        add_key-IsReady key row (rows w) refl e h.seen,
        add_key-IsOnce row (rows w) h.seen,
      )
      | inr (found, e) ↦ ground (arith, e, h.seen, h.kept)
    ]

create_credit-Apart :
    (r c i : String) (n : ℤ) (u m : String) (env : Env) (w : World)
    → Apart w
    → IsReady (idempotency_key r c i n) (rows w)
    → IsPreserved once (create_credit r c i n u m env w)
unfolding create_credit flush now uuid4 ◌>>=◌
create_credit-Apart r c i n u m env w h ready = ground (
  arith,
  h.kept,
  add_credit-IsOnce
      (record {
        id = env.uuid (suc w.draws);
        request_id = r;
        customer_id = c;
        invoice_id = i;
        amount = n;
        currency = u;
        reason = m;
        created_at = env.now w.draws;
      })
      (rows w) ready,
)

issue_credit-Apart :
    (r c i : String) (n : ℤ) (u : String) (env : Env) (w : World)
    → Apart w
    → IsReady (idempotency_key r c i n) (rows w)
    → IsPreserved once (issue_credit none r c i n u env w)
unfolding issue_credit record_credit_created ◌>>=◌
issue_credit-Apart r c i n u env w h ready =
    bind-Ensures (create_credit r c i n u credit_reason) _ env w
      (create_credit-Apart r c i n u credit_reason env w h ready)
      (λ a w' p. record { holds = record { seen = p.seen; kept = p.kept } })

-- The credit follows only a key that was taken in.
credit_once-Apart :
    (inserted : Bool) (client : Option BillingMcpClient) (r c i : String) (n : ℤ) (u : String)
    (env : Env) (w : World)
    → env.settings.http_mode ≡ false
    → Apart w
    → (inserted ≡ true → IsReady (idempotency_key r c i n) (rows w))
    → IsPreserved once (
        (raise_if (not inserted) (conflict "Duplicate operation detected by idempotency key")
            >> (settings >>= λ s. issue_credit (remote client s) r c i n u))
          env w)
unfolding settings ◌>>=◌
credit_once-Apart false client r c i n u env w local h ready = record { holds = h.kept }
credit_once-Apart true client r c i n u env w local h ready =
    rw (remote_local client env.settings local) (issue_credit-Apart r c i n u env w h (ready refl))

once-EffectLaws : (client : Option BillingMcpClient) → EffectLaws once client
unfolding create_credit_if_allowed create_approval_request settings ◌>>=◌
once-EffectLaws client = record {
  credit = λ r c i n u. record {
    at = λ env local w h.
        bind-Ensures (ensure_idempotency (idempotency_key r c i n) r) _ env w
          (ensure-IsReady (idempotency_key r c i n) r env w h)
          (λ b w' p. credit_once-Apart b client r c i n u env w' local p.0 p.1);
  };
  approval = λ r v c i n u. record {
    at = λ env local w h.
        rw (remote_local client env.settings local)
          ((local_request-Preserves once once-Laws r v c i n u).at env local w h);
  };
}

with_workflow-Preserves : (o : Option ApprovalRow) → Preserves once (with_workflow o)
unfolding with_workflow
with_workflow-Preserves none = Preserves-pure once none
with_workflow-Preserves (some row) = search preserves_rules depth 8

process_approval-Apart :
    (client : Option BillingMcpClient) (j d by : String)
    → Preserves once (process_approval client j d by)
unfolding process_approval get_workflow_by_approval
process_approval-Apart client j d by =
    search
      (
        preserves_rules,
        with_workflow-Preserves,
        Preserves-raise_if once once-Laws,
        decide-Preserves once once-Laws j (once-RowLaws j) client (once-EffectLaws client),
      )
      depth 12

-- The whole program keeps the credits apart in local mode.
pub once-Program :
    (client : Option BillingMcpClient) (llm : LlmClient)
    → OptionPreserves once client
    → ((m : String) → Preserves once (llm.parse_request m))
    → Program once client llm
once-Program client llm keeps parses = record {
  laws = once-Laws;
  keeps = keeps;
  effects = once-EffectLaws client;
  decisions = process_approval-Apart client;
  parses = parses;
}
