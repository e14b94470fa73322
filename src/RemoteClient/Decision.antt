-- ===== src/RemoteClient/Decision.antt =====
-- What a decision that fails leaves behind over the network: the tool server commits a credit of its own,
-- before the decision that asks for it is committed.
use agentic_ai.Base.{
  ℕ, suc, ◌-◌, String, ◌≡◌, sym, ap, subst, false, not, some, arith, Option-cases, Bool-cases, inl,
  inr, ◌==◌,
}
use agentic_ai.Base.Int.{ℤ}
use agentic_ai.Domain.Errors.{Error, err}
use agentic_ai.Store.{Tables, ApprovalRow, find_approval, find_workflow}
use agentic_ai.World.{Env, World, Settings, rows, ◌>>=◌, now, with_session}
use agentic_ai.Repository.{Composite, get_workflow_by_approval}
use agentic_ai.Billing.{
  settings, remote, issue_credit, create_credit_if_allowed, approve, reject, expire, decide,
  process_approval, credit_reason,
}
use agentic_ai.Routes.{approval_decision}
use agentic_ai.McpClient.{invoke_http_tool, retries}
use agentic_ai.Safety.Tables.{Claim}
use agentic_ai.Approvals.Atomic.{
  writes_stay, raise_if-Stays, ensure_idempotency-Stays, set_approval_decision-Stays,
}
use agentic_ai.Approvals.Outcome.{answer_ok}
use agentic_ai.RemoteClient.{
  reached, transport, invoke_remote, Remote, invoke_remote_tool, remote_client,
}
use agentic_ai.RemoteClient.Credited.{Credited-weaken, claimed, credit_body}
use agentic_ai.RemoteClient.Credits.{create_credit-Credited}
use agentic_ai.RemoteClient.Added.{
  OnlyCredits, Added, Added-none, reached-OnlyCredits, counted-stored, Adds, Stays-Adds, Adds-if,
  Adds-before, Adds-after,
}

module _ (site : Remote) (unauthorized : site.network.is_success 401 ≡ false) (env : Env) where
  create_credit-Adds :
      (c i : String) (n : ℤ) (m : String)
      → Adds env
          (claimed c i n m env)
          (suc (retries site.mcp))
          ((remote_client site).create_credit c i n m)
  unfolding remote_client invoke_remote_tool invoke_remote ◌>>=◌
  create_credit-Adds c i n m = record {
    at = λ w.
        let net = site.network in
        let call = credit_body c i n m env site.client_token in
        let j = w.mcp_client.posts in
        let o =
          invoke_http_tool (transport net site.server_token call env w j) site.mcp w.mcp_client in
        let v = reached net site.server_token call env w j (o.1.posts - j) in
        record {
          credits =
              Credited-weaken (claimed c i n m env)
                (create_credit-Credited site c i n m env w unauthorized) (omega arith)
                (omega arith);
          rest =
              subst (λ t. OnlyCredits w.stored t)
                (sym (counted-stored "create_credit" _ env (o.0, record v { mcp_client = o.1 })))
                (reached-OnlyCredits c i n m env site.server_token site.client_token net w j
                  (o.1.posts - j));
        };
  }

  issue_credit-Adds :
      (s : Settings) (r c i : String) (n : ℤ) (u : String)
      → Adds env
          (claimed c i n credit_reason env)
          (suc (retries site.mcp))
          (issue_credit (remote (some (remote_client site)) s) r c i n u)
  unfolding issue_credit
  issue_credit-Adds s r c i n u = elim (Bool-cases s.http_mode) [
    | inl over_http ↦ rw over_http (
        Adds-after env _ _ _ _ (create_credit-Adds c i n credit_reason)
          (λ id. search writes_stay depth 9))
    | inr in_process ↦ rw in_process (Stays-Adds env _ _ _ (search writes_stay depth 9))
  ]

  create_credit_if_allowed-Adds :
      (r c i : String) (n : ℤ) (u : String)
      → Adds env
          (claimed c i n credit_reason env)
          (suc (retries site.mcp))
          (create_credit_if_allowed (some (remote_client site)) r c i n u)
  unfolding create_credit_if_allowed settings ◌>>=◌
  create_credit_if_allowed-Adds r c i n u =
      Adds-before env _ _ _ _ (ensure_idempotency-Stays env _ r) λ b.
        Adds-before env _ _ _ _ (raise_if-Stays env (not b) _)
          λ _. record { at = λ w. (issue_credit-Adds env.settings r c i n u).at w }

  -- The claim of a request, in the currency of the tool server.
  abbrev pub requested : ApprovalRow → Claim
  requested a = claimed a.customer_id a.invoice_id a.amount credit_reason env

  approve-Adds :
      (k by : String) (c : Composite)
      → Adds env
          (requested c.0)
          (suc (retries site.mcp))
          (approve (some (remote_client site)) k by c)
  unfolding approve
  approve-Adds k by c = Adds-before env _ _ _ _ (set_approval_decision-Stays env k _ by) λ _.
      Adds-after env _ _ _ _
        (create_credit_if_allowed-Adds c.1.request_id c.0.customer_id c.0.invoice_id c.0.amount
          c.0.currency)
        (λ id. search writes_stay depth 12)

  expire-Adds :
      (k : String) (c : Composite) → Adds env (requested c.0) (suc (retries site.mcp)) (expire k c)
  unfolding expire
  expire-Adds k c = Stays-Adds env _ _ _ (search writes_stay depth 12)

  reject-Adds :
      (k by : String) (c : Composite)
      → Adds env (requested c.0) (suc (retries site.mcp)) (reject k by c)
  unfolding reject
  reject-Adds k by c = Stays-Adds env _ _ _ (search writes_stay depth 12)

  decide-Adds :
      (k d by : String) (c : Composite) (at : ℕ)
      → Adds env
          (requested c.0)
          (suc (retries site.mcp))
          (decide (some (remote_client site)) k d by c at)
  unfolding decide
  decide-Adds k d by c at =
      Adds-if env _ _ _ _ _ (expire-Adds k c)
        (Adds-if env _ _ _ _ _ (approve-Adds k by c) (reject-Adds k by c))

  -- A decision on a request that is there.
  process_approval-Added :
      (k d by : String) (a : ApprovalRow) (w : World)
      → find_approval k (rows w) ≡ some a
      → Added
          (requested a)
          (suc (retries site.mcp))
          w.stored
          (process_approval (some (remote_client site)) k d by env w).1.stored
  unfolding process_approval get_workflow_by_approval now ◌>>=◌
  process_approval-Added k d by a w found =
      let same = Added-none (requested a) (suc (retries site.mcp)) w.stored in
      elim (Option-cases (find_workflow a.workflow_id (rows w))) [
        | inl f ↦ same _ (ground (arith, found, f))
        | inr (v, f) ↦ elim (Bool-cases (a.status == "PENDING")) [
          | inl p ↦ ground (
            arith,
            found,
            f,
            p,
            (decide-Adds k d by (a, v) (env.now w.draws)).at (record w { draws = suc w.draws }),
          )
          | inr p ↦ same _ (ground (arith, found, f, p))
        ]
      ]

-- Over http, where the library rejects a response with the status 401, or in local mode: a decision that
-- raises changes nothing that is committed but the credits. It may have added some, all of the claim of
-- the request in the tool server's currency, and no more than a call has attempts.
pub approval_decision-Added :
    (site : Remote) (k d by : String) (env : Env) (w : World) (a : ApprovalRow) {e : Error}
    → site.network.is_success 401 ≡ false
    → find_approval k w.stored ≡ some a
    → (approval_decision (some (remote_client site)) k d by env w).0 ≡ err e
    → Added
        (claimed a.customer_id a.invoice_id a.amount credit_reason env)
        (suc (retries site.mcp))
        w.stored
        (approval_decision (some (remote_client site)) k d by env w).1.stored
unfolding approval_decision with_session ◌>>=◌
approval_decision-Added site k d by env w a unauthorized found h =
    let v = record w { pending = λ t. t } in
    let o = process_approval (some (remote_client site)) k d by env v in
    subst
      (λ (t : Tables).
        Added (claimed a.customer_id a.invoice_id a.amount credit_reason env)
          (suc (retries site.mcp)) w.stored t)
      (sym (
        ap (λ (x : World). x.stored)
          (answer_ok (some (remote_client site)) k d by env w o.0 o.1 h)))
      (process_approval-Added site unauthorized env k d by a v found)
