-- ===== src/Approvals/Outcome.antt =====
-- The answer to a decision, and what is committed by it, by the state of the request.
use agentic_ai.Base.{ap, String, ◌≡◌, refl, ◌∙◌, ◌<◌, false, Option, none, some, arith, eq_iff}
use agentic_ai.Domain.Errors.{Error, not_found, Result, ok, err, is_ok}
use agentic_ai.Store.{find_approval, find_workflow, ApprovalRow, WorkflowRunRow}
use agentic_ai.World.{
  ◌>>◌, pure, assign, Env, World, ◌>>=◌, now, flush, commit, continue, with_session,
  send_notification,
}
use agentic_ai.Repository.{get_workflow_by_approval, upsert_workflow_state}
use agentic_ai.Billing.{BillingMcpClient, decide, expire, process_approval, ApprovalDecisionResult}
use agentic_ai.Routes.{approval_decision, decision_message, decision_response}
use agentic_ai.Approvals.Atomic.{process_approval-Stays}

module _ (client : Option BillingMcpClient) (k d by : String) (env : Env) (w : World) where
  -- The rest of the endpoint commits, and cannot raise.
  pub answer_ok :
      (r : Result ApprovalDecisionResult) (v : World) {e : Error}
      → (continue r
          (λ result.
            (commit
              >> (send_notification result.customer_id (decision_message result)
                  >> pure (decision_response result))))
          env
          v).0
        ≡ err e
      → (continue r
          (λ result.
            (commit
              >> (send_notification result.customer_id (decision_message result)
                  >> pure (decision_response result))))
          env
          v).1
        ≡ v
  unfolding commit send_notification ◌>>=◌
  answer_ok (ok a) v h = cc
  answer_ok (err e) v h = refl

  -- In local mode a decision that raises leaves the committed tables as they were.
  pub approval_decision_atomic :
      {e : Error}
      → env.settings.http_mode ≡ false
      → (approval_decision client k d by env w).0 ≡ err e
      → (approval_decision client k d by env w).1.stored ≡ w.stored
  unfolding approval_decision with_session ◌>>=◌
  approval_decision_atomic local h =
      let v = record w { pending = λ t. t } in
      let (r, v') = process_approval client k d by env v in
      ap (λ (x : World). x.stored) (answer_ok r v' h)
      ∙ (process_approval-Stays client env local k d by).at v

  -- A request that nobody has made, or whose workflow is gone, is not found.
  pub approval_decision_unknown :
      find_approval k w.stored ≡ none
      → (approval_decision client k d by env w).0 ≡ err (not_found "Approval request not found")
  unfolding approval_decision process_approval get_workflow_by_approval with_session ◌>>=◌
  approval_decision_unknown e = ground arith

  module _ (a : ApprovalRow) (v : WorkflowRunRow) (ea : find_approval k w.stored ≡ some a)
      (ev : find_workflow a.workflow_id w.stored ≡ some v) where
    -- A decision that comes too late raises, and the request is left pending: the mark EXPIRED and
    -- the workflow's mark FAILED, which the code sets before it raises, are never committed.
    pub approval_decision_late :
        a.status ≡ "PENDING"
        → a.expires_at < env.now w.draws
        → (is_ok (approval_decision client k d by env w).0 ≡ false)
          × ((approval_decision client k d by env w).1.stored ≡ w.stored)
    unfolding approval_decision process_approval get_workflow_by_approval decide expire with_session
        now upsert_workflow_state flush assign ◌>>=◌
    approval_decision_late p late = ground (arith, eq_iff a.status "PENDING")
