-- ===== src/Approvals/Accepted.antt =====
-- When a decision is accepted.
use agentic_ai.Base.{
  ℕ, ltb, Bool, not, sym, subst, ap, suc, String, ◌≡◌, refl, ◌∙◌, ◌≤◌, true, false, Option, none,
  some, arith, [], ◌∷◌, ◌==◌, eq_iff, Bool-cases, inl, inr,
}
use agentic_ai.Base.Int.{ℤ}
use agentic_ai.Base.Lists.{first}
use agentic_ai.Domain.Errors.{Result, err, conflict, ok, is_ok}
use agentic_ai.Domain.Status.{ApprovalStatus}
use agentic_ai.Domain.Models.{money}
use agentic_ai.Store.{
  Json, IdempotencyKeyRow, find_approval, find_workflow, find_key, ApprovalRow, WorkflowRunRow,
}
use agentic_ai.World.{
  continue, Env, World, Action, rows, pure, ◌>>=◌, ◌>>◌, now, flush, commit, with_session,
  send_notification, record_approval_completed,
}
use agentic_ai.Repository.{
  get_workflow_by_approval, upsert_workflow_state, set_approval_decision, insert_key,
  ensure_idempotency, create_credit, add_audit_event,
}
use agentic_ai.Safety.Billing.{remote_local}
use agentic_ai.Billing.{
  remote, raise_if, BillingMcpClient, settings, ApprovalDecisionResult, decision_result,
  issue_credit, credit_reason, create_credit_if_allowed, idempotency_key, decide, approve, reject,
  process_approval,
}
use agentic_ai.Routes.{approval_decision, decision_message, decision_response}
use agentic_ai.World.Always.{Always, Always-pure, bind_done, IsDone, always_rules}

module _ (env : Env) where
  set_approval_decision-Always :
      (k by : String) (d : ApprovalStatus) → Always env (set_approval_decision k d by)
  unfolding set_approval_decision
  set_approval_decision-Always k by d = search always_rules depth 9

  add_audit_event-Always :
      (r i t a s : String) (j : Json) → Always env (add_audit_event r i t a s j)
  unfolding add_audit_event
  add_audit_event-Always r i t a s j = search always_rules depth 9

  pub upsert_workflow_state-Always :
      (i r s : String) (j : Json) → Always env (upsert_workflow_state i r s j)
  unfolding upsert_workflow_state
  upsert_workflow_state-Always i r s j = search always_rules depth 9

  create_credit-Always :
      (r c i : String) (n : ℤ) (u m : String)
      → is_ok (money n u) ≡ true
      → Always env (create_credit r c i n u m)
  unfolding create_credit
  create_credit-Always r c i n u m valid = search always_rules depth 9

ruleset writes_return = (
  always_rules, set_approval_decision-Always, add_audit_event-Always, upsert_workflow_state-Always,
  create_credit-Always,
)

module _ (env : Env) (k by : String) (a : ApprovalRow) (v : WorkflowRunRow) where
  pub reject-Always : Always env (reject k by (a, v))
  unfolding reject
  reject-Always = search writes_return depth 12

module _ (env : Env) (client : Option BillingMcpClient) (local : env.settings.http_mode ≡ false)
    (r c i : String) (n : ℤ) (u : String) (valid : is_ok (money n u) ≡ true) where
  issue_credit-Always : Always env (issue_credit none r c i n u)
  unfolding issue_credit
  issue_credit-Always =
      let created = create_credit-Always env r c i n u credit_reason valid in
      search always_rules depth 9

  insert_key-Always :
      (key : String) (o : Option IdempotencyKeyRow) → Always env (insert_key key r o)
  unfolding insert_key
  insert_key-Always key (some row) = Always-pure env false
  insert_key-Always key none = search always_rules depth 9

  ensure_idempotency-Always : (key : String) → Always env (ensure_idempotency key r)
  unfolding ensure_idempotency
  ensure_idempotency-Always key = search (always_rules, insert_key-Always) depth 9

  -- A key that is not known yet is taken in.
  ensure_fresh :
      (key : String) (w : World) (inserted : Bool)
      → find_key key (rows w) ≡ none
      → (ensure_idempotency key r env w).0 ≡ ok inserted
      → inserted ≡ true
  unfolding ensure_idempotency flush now ◌>>=◌
  ensure_fresh key w inserted fresh e = ground (arith, fresh, e)

  issued :
      (inserted : Bool) (w : World)
      → inserted ≡ true
      → IsDone env
          ((raise_if (not inserted) (conflict "Duplicate operation detected by idempotency key")
              >> (settings >>= λ s. issue_credit (remote client s) r c i n u))
            env w).0
  unfolding settings ◌>>=◌
  issued true w e = rw (remote_local client env.settings local) (issue_credit-Always.at w)
  issued false w e = cc

  credit_returns :
      (w : World)
      → find_key (idempotency_key r c i n) (rows w) ≡ none
      → IsDone env (create_credit_if_allowed client r c i n u env w).0
  unfolding create_credit_if_allowed
  credit_returns w fresh =
      let key = idempotency_key r c i n in
      bind_done env (ensure_idempotency key r) _ w _ refl ((ensure_idempotency-Always key).at w)
        (λ inserted e.
          issued inserted (ensure_idempotency key r env w).1 (ensure_fresh key w inserted fresh e))

module _ (env : Env) (client : Option BillingMcpClient) (local : env.settings.http_mode ≡ false)
    (k by : String) (a : ApprovalRow) (v : WorkflowRunRow)
    (valid : is_ok (money a.amount a.currency) ≡ true) where
  -- What follows the credit.
  abbrev after_credit : String → Action ApprovalDecisionResult
  after_credit credit_id = do
    add_audit_event v.request_id v.workflow_id "APPROVAL_GRANTED" by "approval_endpoint"
        (("approval_id", k) ∷ [])
    add_audit_event v.request_id v.workflow_id "CREDIT_CREATED" "system" "billing_service"
        (("credit_id", credit_id) ∷ ("approval_id", k) ∷ [])
    upsert_workflow_state v.workflow_id v.request_id "COMPLETED"
        (("approval_id", k) ∷ ("credit_id", credit_id) ∷ ("outcome", "approved") ∷ [])
    record_approval_completed "approved"
    pure (decision_result "approved" (a, v))

  after_credit-Always : (id : String) → Always env (after_credit id)
  after_credit-Always id = search writes_return depth 12

  abbrev claim : String
  claim = idempotency_key v.request_id a.customer_id a.invoice_id a.amount

  decided-keys :
      (w : World) (x : Unit {0})
      → (set_approval_decision k ApprovalStatus.approved by env w).0 ≡ ok x
      → (rows (set_approval_decision k ApprovalStatus.approved by env w).1).idempotency_keys
        ≡ (rows w).idempotency_keys
  unfolding set_approval_decision flush now ◌>>=◌
  decided-keys w x e = ground (arith, e)

  approve_returns :
      (w : World) → find_key claim (rows w) ≡ none → IsDone env (approve client k by (a, v) env w).0
  unfolding approve
  approve_returns w fresh =
      let w' = (set_approval_decision k ApprovalStatus.approved by env w).1 in
      bind_done env (set_approval_decision k ApprovalStatus.approved by) _ w _ refl
        ((set_approval_decision-Always env k by ApprovalStatus.approved).at w)
        (λ x e.
          bind_done env
            (create_credit_if_allowed client v.request_id a.customer_id a.invoice_id a.amount
              a.currency)
            after_credit w' _ refl
            (credit_returns env client local v.request_id a.customer_id a.invoice_id a.amount
              a.currency valid w'
              (ap (first (λ (r : IdempotencyKeyRow). r.key == claim)) (decided-keys w x e) ∙ fresh))
            (λ id _.
              (after_credit-Always id).at
                (create_credit_if_allowed client v.request_id a.customer_id a.invoice_id a.amount
                  a.currency env w').1))

-- The endpoint commits what a decision returns, and cannot fail any more.
pub endpoint_done :
    (client : Option BillingMcpClient) (k d by : String) (env : Env) (w : World)
    → IsDone env (process_approval client k d by env (record w { pending = λ t. t })).0
    → IsDone env (approval_decision client k d by env w).0
unfolding approval_decision with_session commit send_notification ◌>>=◌
endpoint_done client k d by env w h =
    after (process_approval client k d by env (record w { pending = λ t. t })) h
  where
    after :
        (o : Result ApprovalDecisionResult × World)
        → IsDone env o.0
        → IsDone env
            (continue o.0
              (λ result.
                (commit
                  >> (send_notification result.customer_id (decision_message result)
                      >> pure (decision_response result))))
              env
              o.1).0
    after (ok r, v) h = tt
    after (err e, v) h = h

-- A decision on a pending request that is there.
pub process_pending :
    (client : Option BillingMcpClient) (k d by : String) (env : Env) (w : World) (a : ApprovalRow)
    (v : WorkflowRunRow)
    → find_approval k (rows w) ≡ some a
    → find_workflow a.workflow_id (rows w) ≡ some v
    → a.status ≡ "PENDING"
    → process_approval client k d by env w
      ≡ decide client k d by (a, v) (env.now w.draws) env (record w { draws = suc w.draws })
unfolding process_approval get_workflow_by_approval now ◌>>=◌
process_pending client k d by env w a v ea ev pending =
    ground (arith, ea, ev, (eq_iff a.status "PENDING").1 pending)

decide_in_time :
    (client : Option BillingMcpClient) (k d by : String) (env : Env) (w : World) (a : ApprovalRow)
    (v : WorkflowRunRow) (at : ℕ)
    → env.settings.http_mode ≡ false
    → at ≤ a.expires_at
    → (d ≡ "approve"
        → (is_ok (money a.amount a.currency) ≡ true)
          × (find_key (idempotency_key v.request_id a.customer_id a.invoice_id a.amount) (rows w)
              ≡ none))
    → IsDone env (decide client k d by (a, v) at env w).0
unfolding decide
decide_in_time client k d by env w a v at local in_time good =
    let early : ltb a.expires_at at ≡ false = ground (arith, in_time) in
    rw early (elim (Bool-cases (d == "approve")) [
      | inl said ↦
          let (valid, fresh) = good ((eq_iff d "approve").0 said) in
          rw said (approve_returns env client local k by a v valid w fresh)
      | inr other ↦ rw other ((reject-Always env k by a v).at w)
    ])

-- In local mode, a decision on a pending request whose workflow is there is accepted up to the instant of
-- its expiry, unless it raises a refusal of the database: a rejection always, an approval if the
-- amount is valid money and the claim was not credited before.
pub approval_decision-IsDone :
    (client : Option BillingMcpClient) (k d by : String) (env : Env) (w : World) (a : ApprovalRow)
    (v : WorkflowRunRow)
    → env.settings.http_mode ≡ false
    → find_approval k w.stored ≡ some a
    → find_workflow a.workflow_id w.stored ≡ some v
    → a.status ≡ "PENDING"
    → env.now w.draws ≤ a.expires_at
    → (d ≡ "approve"
        → (is_ok (money a.amount a.currency) ≡ true)
          × (find_key (idempotency_key v.request_id a.customer_id a.invoice_id a.amount) w.stored
              ≡ none))
    → IsDone env (approval_decision client k d by env w).0
approval_decision-IsDone client k d by env w a v local ea ev pending in_time good =
    let w' = record w { pending = λ t. t } in
    endpoint_done client k d by env w (
      subst (λ (o : Result ApprovalDecisionResult × World). IsDone env o.0)
        (sym (process_pending client k d by env w' a v ea ev pending))
        (decide_in_time client k d by env (record w' { draws = suc w.draws }) a v (env.now w.draws)
          local in_time good))
