-- ===== src/Approvals/Effect.antt =====
-- What a decision that is accepted commits.
use agentic_ai.Base.{suc, String, ◌≡◌, ◌≢◌, false, Option, some, arith, eq_iff}
use agentic_ai.Domain.Errors.{Result, ok, err, ok_inj}
use agentic_ai.Store.{Tables, find_approval, find_workflow, ApprovalRow, WorkflowRunRow}
use agentic_ai.World.{
  assign, ◌>>◌, pure, Env, World, Action, rows, ◌>>=◌, now, flush, commit, with_session,
  send_notification,
}
use agentic_ai.Repository.{get_workflow_by_approval, Composite, upsert_workflow_state}
use agentic_ai.Billing.{
  BillingMcpClient, decide, expire, approve, reject, process_approval, ApprovalDecisionResult,
}
use agentic_ai.World.Post.{Ensures, bind-Ensures}
use agentic_ai.Routes.{ChatResponse, approval_decision, decision_message, decision_response}
use agentic_ai.Approvals.Granted.{Anything, Approves, Rejects, approve_effect, reject_effect}

-- From a guarantee to what holds of an outcome that is known to have returned.
returned :
    {A : Type 0} {Q : A → World → Type 0} {E : World → Type 0} (o : Result A × World) {a : A}
    → Ensures Q E o
    → o.0 ≡ ok a
    → Q a o.1
returned {Q = Q} (ok b, w) h e = rw (← ok_inj e) h.holds
returned (err x, w) h e = cc

-- A late decision never returns.
expire_raises :
    (Q : ApprovalDecisionResult → World → Type 0) (k : String) (c : Composite) (env : Env)
    (w : World)
    → Ensures Q Anything (expire k c env w)
unfolding expire upsert_workflow_state flush assign now ◌>>=◌
expire_raises Q k c env w = ground arith

-- What the service leaves in the session, the endpoint commits.
committed :
    (P : Tables → Type 0) (client : Option BillingMcpClient) (k d by : String) (env : Env)
    (w : World) {r : ChatResponse}
    → Ensures
        (λ _ v. P (rows v))
        Anything
        (process_approval client k d by env (record w { pending = λ t. t }))
    → (approval_decision client k d by env w).0 ≡ ok r
    → P (approval_decision client k d by env w).1.stored
unfolding approval_decision with_session
committed P client k d by env w h e =
    returned {Q = λ _ v. P v.stored} {E = Anything} (session env (record w { pending = λ t. t }))
      (bind-Ensures (process_approval client k d by) _ env (record w { pending = λ t. t }) h
        (λ a v p. finish a v p))
      e
  where
    session : Action ChatResponse
    session = do
      result ← process_approval client k d by
      commit
      send_notification result.customer_id (decision_message result)
      pure (decision_response result)

    finish :
        (a : ApprovalDecisionResult) (v : World)
        → P (rows v)
        → Ensures
            (λ _ u. P u.stored)
            Anything
            ((commit
                >> (send_notification a.customer_id (decision_message a)
                    >> pure (decision_response a)))
              env v)
    finish a v p = unfold commit send_notification ◌>>=◌ in record { holds = p }

module _ (client : Option BillingMcpClient) (k d by : String) (env : Env) (w : World)
    (a : ApprovalRow) (v : WorkflowRunRow) (ea : find_approval k w.stored ≡ some a)
    (ev : find_workflow a.workflow_id w.stored ≡ some v) where
  abbrev start : World
  start = record w { pending = λ t. t }

  -- The service on a known request: a return comes from the branch of the decision.
  service_effect :
      (P : Tables → Type 0)
      → (d ≡ "approve"
          → Ensures
              (λ _ u. P (rows u))
              Anything
              (approve client k by (a, v) env (record start { draws = suc w.draws })))
      → (d ≢ "approve"
          → Ensures
              (λ _ u. P (rows u))
              Anything
              (reject k by (a, v) env (record start { draws = suc w.draws })))
      → Ensures (λ _ u. P (rows u)) Anything (process_approval client k d by env start)
  unfolding process_approval get_workflow_by_approval decide now ◌>>=◌
  service_effect P yea nay = ground (
    arith,
    eq_iff a.status "PENDING",
    eq_iff d "approve",
    expire_raises (λ _ u. P (rows u)) k (a, v) env (record start { draws = suc w.draws }),
  )

  -- In local mode an accepted decision "approve" commits one credit more, for just the claim and
  -- the workflow's request, and the row as approved; any other accepted decision commits the row as
  -- rejected and no credit.
  pub approval_decision_effect :
      {r : ChatResponse}
      → env.settings.http_mode ≡ false
      → (approval_decision client k d by env w).0 ≡ ok r
      → let t = (approval_decision client k d by env w).1.stored in
        (d ≡ "approve" → Approves k by a v w.stored t.credits t.approvals)
        × (d ≢ "approve" → Rejects k by a w.stored t.credits t.approvals)
  approval_decision_effect local h = (
    λ yea.
        committed (λ t. Approves k by a v w.stored t.credits t.approvals) client k d by env w
          (service_effect (λ t. Approves k by a v w.stored t.credits t.approvals)
            (λ _.
              approve_effect k by a v env (record start { draws = suc w.draws }) ea client local)
            (λ n. absurd (n yea)))
          h,
    λ nay.
        committed (λ t. Rejects k by a w.stored t.credits t.approvals) client k d by env w
          (service_effect (λ t. Rejects k by a w.stored t.credits t.approvals) (λ e. absurd (nay e))
            (λ _. reject_effect k by a v env (record start { draws = suc w.draws }) ea))
          h,
  )
