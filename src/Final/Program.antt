-- ===== src/Final/Program.antt =====
-- Every write of the program keeps the row of a decided request: its own row is not written again.
use agentic_ai.Base.{
  ℕ, suc, String, ◌≡◌, ◌≢◌, refl, sym, ◌∙◌, ap, Option, none, some, some_inj, arith, ◌==◌,
  Option-cases, Bool-cases, inl, inr, eq_iff,
}
use agentic_ai.Base.Int.{ℤ}
use agentic_ai.Store.{
  Json, WorkflowRunRow, ApprovalRow, CreditRow, find_approval, find_workflow, update_approval,
}
use agentic_ai.World.{World, Settings, rows, ◌>>=◌, now, flush}
use agentic_ai.World.Preserves.{preserves_rules}
use agentic_ai.Repository.{
  add_key, add_credit, add_approval, add_audit, upsert, create_credit, decided,
  get_workflow_by_approval,
}
use agentic_ai.Billing.{
  BillingMcpClient, settings, remote, issue_credit, create_credit_if_allowed, process_approval,
}
use agentic_ai.Workflow.{LlmClient}
use agentic_ai.Safety.Approval.{expired_row}
use agentic_ai.Preserved.Service.{
  create_approval_request-Preserves, EffectLaws, Laws, ClientPreserves, Preserves-raise_if,
  ensure_idempotency-Preserves,
}
use agentic_ai.Preserved.Approval.{RowLaws, decide-Preserves}
use agentic_ai.Preserved.Requests.{Program}
use agentic_ai.Final.Rows.{add_approval-Final, update_approval-Final}
use agentic_ai.Final.Keeps.{Held, finality, Retains, Retains-others, Retains-flush, Retains-assign}

-- A tool client all of whose operations keep the row.
pub record ClientRetains (k : String) (a : ApprovalRow) (c : BillingMcpClient) : Type 0 where
  pub preserves : ClientPreserves (finality k a) c
  pub approval : (c₁ i : String) (n : ℤ) → Retains k a (c.request_approval c₁ i n)
  pub credit : (c₁ i : String) (n : ℤ) (m : String) → Retains k a (c.create_credit c₁ i n m)

module _ (k : String) (a : ApprovalRow) where
  pub finality-Laws : Laws (finality k a)
  finality-Laws = record {
    keys = λ row. Retains-others k a (add_key row) (λ t. refl);
    approvals = λ row. Retains-flush k a (add_approval row) (add_approval-Final k a row);
    audits = λ row. Retains-others k a (add_audit row) (λ t. refl);
    workflows = λ o i r s j at. workflow o i r s j at;
  }
    where
      workflow :
          (o : Option WorkflowRunRow) (i r s : String) (j : Json) (at : ℕ)
          → Retains k a (flush (upsert o i r s j at))
      workflow none i r s j at = Retains-others k a (upsert none i r s j at) (λ t. refl)
      workflow (some row) i r s j at = Retains-others k a (upsert (some row) i r s j at) (λ t. refl)

  -- The rows of other requests may be written.
  other-RowLaws : (j : String) → j ≢ k → RowLaws (finality k a) j
  other-RowLaws j other = record {
    decides = λ d by at.
        Retains-flush k a (update_approval j (decided d by at))
          (λ t e. update_approval-Final k j a (decided d by at) t other (λ x. refl) e);
    expires =
        Retains-assign k a (update_approval j expired_row)
          (λ t e. update_approval-Final k j a expired_row t other (λ x. refl) e);
  }

  pub create_credit-Retains :
      (r c i : String) (n : ℤ) (u m : String) → Retains k a (create_credit r c i n u m)
  unfolding create_credit
  create_credit-Retains r c i n u m =
      search (preserves_rules, λ (row : CreditRow). Retains-others k a (add_credit row) (λ t. refl))
        depth 8

  module _ (client : BillingMcpClient) (keeps : ClientRetains k a client) where
    issue_credit-Retains :
        (s : Settings) (r c i : String) (n : ℤ) (u : String)
        → Retains k a (issue_credit (remote (some client) s) r c i n u)
    unfolding issue_credit
    issue_credit-Retains s r c i n u = elim (Bool-cases s.http_mode) [
      | inl over_http ↦ rw over_http (search (preserves_rules, keeps.credit) depth 8)
      | inr in_process ↦ rw in_process (search (preserves_rules, create_credit-Retains) depth 8)
    ]

    client-EffectLaws : EffectLaws (finality k a) (some client)
    unfolding create_credit_if_allowed settings
    client-EffectLaws = record {
      credit = λ r c i n u.
          search
            (
              preserves_rules,
              ensure_idempotency-Preserves (finality k a) finality-Laws,
              Preserves-raise_if (finality k a) finality-Laws,
              issue_credit-Retains,
            )
            depth 10;
      approval =
          create_approval_request-Preserves (finality k a) finality-Laws client keeps.approval;
    }

-- A request that is pending is not the one that was decided.
pending_other :
    (k j : String) (a b : ApprovalRow) (w : World)
    → Held k a w
    → a.status ≢ "PENDING"
    → find_approval j (rows w) ≡ some b
    → b.status ≡ "PENDING"
    → j ≢ k
pending_other k j a b w h settled e p same = settled (
    ap (λ r. r.status)
      (some_inj (sym (h.seen w.stored h.kept) ∙ ap (λ i. find_approval i (rows w)) (sym same) ∙ e))
    ∙ p)

process_approval-Retains :
    (k : String) (a : ApprovalRow) (client : BillingMcpClient)
    → ClientRetains k a client
    → a.status ≢ "PENDING"
    → (j d by : String) → Retains k a (process_approval (some client) j d by)
unfolding process_approval get_workflow_by_approval now ◌>>=◌
process_approval-Retains k a client r settled j d by = record {
  at = λ env x w h. elim (Option-cases (find_approval j (rows w))) [
    | inl e ↦ ground (arith, h.seen, h.kept)
    | inr (b, e) ↦ elim (Option-cases (find_workflow b.workflow_id (rows w))) [
      | inl f ↦ ground (arith, h.seen, h.kept)
      | inr (v, f) ↦ elim (Bool-cases (b.status == "PENDING")) [
        | inl p ↦ ground (
          arith,
          (decide-Preserves (finality k a) (finality-Laws k a) j
                (other-RowLaws k a j
                  (pending_other k j a b w h settled e ((eq_iff b.status "PENDING").0 p)))
                (some client) (client-EffectLaws k a client r) d by (b, v) (env.now w.draws)).at
              env tt (record w { draws = suc w.draws }) (record { seen = h.seen; kept = h.kept }),
        )
        | inr p ↦ ground (arith, h.seen, h.kept)
      ]
    ]
  ];
}

-- The whole program keeps the row of a request that is no longer pending.
pub finality-Program :
    (k : String) (a : ApprovalRow) (client : BillingMcpClient) (llm : LlmClient)
    → ClientRetains k a client
    → ((m : String) → Retains k a (llm.parse_request m))
    → a.status ≢ "PENDING"
    → Program (finality k a) (some client) llm
finality-Program k a client llm keeps parses settled = record {
  laws = finality-Laws k a;
  keeps = keeps.preserves;
  effects = client-EffectLaws k a client keeps;
  decisions = process_approval-Retains k a client keeps settled;
  parses = parses;
}
