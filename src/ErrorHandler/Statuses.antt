-- ===== src/ErrorHandler/Statuses.antt =====
-- How a decision that is refused is answered.
use agentic_ai.Base.{
  ℕ, suc, String, ◌≡◌, ◌≢◌, refl, ◌==◌, not, ltb, if◌then◌else◌, Option-cases, Bool-cases, ◌⊎◌, inl,
  inr, false, Option, none, some, arith, eq_iff, [], ◌∷◌, sym, subst,
}
use agentic_ai.Domain.Errors.{Result, ok, err}
use agentic_ai.Store.{Tables, find_approval, find_workflow, ApprovalRow, WorkflowRunRow}
use agentic_ai.World.{
  Env, World, Action, continue, commit, send_notification, ◌>>=◌, ◌>>◌, pure, raise, now, assign,
  with_session,
}
use agentic_ai.World.Always.{Always, IsDone, IsRefusal}
use agentic_ai.Repository.{get_workflow_by_approval}
use agentic_ai.Billing.{
  BillingMcpClient, ApprovalDecisionResult, decide, expire, reject, process_approval,
}
use agentic_ai.Approvals.Accepted.{process_pending, reject-Always, upsert_workflow_state-Always}
use agentic_ai.Routes.{approval_decision, decision_message, decision_response}
use agentic_ai.ErrorHandler.{app_error_status, error_status}

-- What an approver's rejection is answered with, at an instant: 404 for a request or a workflow that
-- is not there, 409 for a request that was decided, 400 for one that has expired, else no error.
abbrev pub rejection_status : String → ℕ → Tables → Option ℕ
rejection_status k at t = elim (find_approval k t) [
  | none ↦ some 404
  | some a ↦ elim (find_workflow a.workflow_id t) [
    | none ↦ some 404
    | some v ↦
        if not (a.status == "PENDING")
        then some 409
        else if ltb a.expires_at at
        then some 400
        else none
  ]
]

-- The result is an exception that passes on a refusal of the database.
abbrev pub IsRefused : {A : Type 0} → Env → Result A → Type 0
IsRefused env (ok a) = ⊥
IsRefused env (err e) = IsRefusal env e

abbrev pub IsAnswered : {A : Type 0} → Env → Option ℕ → Result A → Type 0
IsAnswered env status r = (error_status r ≡ status) ⊎ IsRefused env r

Done-IsAnswered : {A : Type 0} (env : Env) (r : Result A) → IsDone env r → IsAnswered env none r
unfolding error_status
Done-IsAnswered env (ok a) h = inl refl
Done-IsAnswered env (err e) h = inr h

module _ (env : Env) (status : Option ℕ) {A B : Type 0} where
  bind-IsAnswered :
      (m : Action A) (f : A → Action B)
      → Always env m
      → ((a : A) (v : World) → IsAnswered env status (f a env v).0)
      → (w : World) → IsAnswered env status ((m >>= f) env w).0
  unfolding ◌>>=◌
  bind-IsAnswered m f h k w = after (m env w) (h.at w)
    where
      after :
          (o : Result A × World) → IsDone env o.0 → IsAnswered env status (continue o.0 f env o.1).0
      after (ok a, v) g = k a v
      after (err e, v) g = inr g

module _ (k by : String) (env : Env) (a : ApprovalRow) (v : WorkflowRunRow) where
  late-IsAnswered : (w : World) → IsAnswered env (some 400) (expire k (a, v) env w).0
  unfolding expire error_status app_error_status raise assign
  late-IsAnswered w =
      bind-IsAnswered env (some 400) _ _ (record { at = λ w. tt })
        (λ _ w₁.
          bind-IsAnswered env (some 400) _ _
            (upsert_workflow_state-Always env v.workflow_id v.request_id "FAILED"
              (("approval_id", k) ∷ ("reason", "expired") ∷ []))
            (λ _ w₂. inl refl) w₁)
        w

  decide-IsAnswered :
      (client : Option BillingMcpClient) (d : String) (at : ℕ) (w : World)
      → d ≢ "approve"
      → IsAnswered env
          (if ltb a.expires_at at then some 400 else none)
          (decide client k d by (a, v) at env w).0
  unfolding decide
  decide-IsAnswered client d at w nay =
      let other : d == "approve" ≡ false = ground (arith, nay, eq_iff d "approve") in
      elim (Bool-cases (ltb a.expires_at at)) [
        | inl late ↦ rw late (late-IsAnswered w)
        | inr early ↦
            rw (early, other)
              (Done-IsAnswered env (reject k by (a, v) env w).0 ((reject-Always env k by a v).at w))
      ]

-- The endpoint's answer is the service's.
endpoint-IsAnswered :
    (client : Option BillingMcpClient) (k d by : String) (env : Env) (w : World) (status : Option ℕ)
    → IsAnswered env status (process_approval client k d by env (record w { pending = λ t. t })).0
    → IsAnswered env status (approval_decision client k d by env w).0
unfolding approval_decision with_session commit send_notification error_status ◌>>=◌
endpoint-IsAnswered client k d by env w status h =
    after (process_approval client k d by env (record w { pending = λ t. t })) h
  where
    after :
        (o : Result ApprovalDecisionResult × World)
        → IsAnswered env status o.0
        → IsAnswered env status
            (continue o.0
              (λ result.
                (commit
                  >> (send_notification result.customer_id (decision_message result)
                      >> pure (decision_response result))))
              env
              o.1).0
    after (ok r, v) h = h
    after (err e, v) h = h

pending_rejection :
    (client : Option BillingMcpClient) (k d by : String) (env : Env) (w : World) (a : ApprovalRow)
    (v : WorkflowRunRow)
    → d ≢ "approve"
    → find_approval k w.stored ≡ some a
    → find_workflow a.workflow_id w.stored ≡ some v
    → a.status ≡ "PENDING"
    → IsAnswered env
        (rejection_status k (env.now w.draws) w.stored)
        (process_approval client k d by env (record w { pending = λ t. t })).0
pending_rejection client k d by env w a v nay ea ev pending =
    let w' = record w { pending = λ t. t } in
    let status : rejection_status k (env.now w.draws) w.stored
        ≡ (if ltb a.expires_at (env.now w.draws) then some 400 else none) =
      ground (arith, ea, ev, (eq_iff a.status "PENDING").1 pending) in
    subst (λ s. IsAnswered env s (process_approval client k d by env w').0) (sym status)
      (subst
        (λ (o : Result ApprovalDecisionResult × World).
          IsAnswered env (if ltb a.expires_at (env.now w.draws) then some 400 else none) o.0)
        (sym (process_pending client k d by env w' a v ea ev pending))
        (decide-IsAnswered k by env a v client d (env.now w.draws)
          (record w' { draws = suc w.draws }) nay))

-- A rejection is answered by the state of the request alone, unless it raises a refusal of the
-- database: 404 if the request or its workflow is not there, 409 if it was decided, 400 if it has
-- expired, and without an exception otherwise.
pub approval_decision-rejection_status :
    (client : Option BillingMcpClient) (k d by : String) (env : Env) (w : World)
    → d ≢ "approve"
    → IsAnswered env
        (rejection_status k (env.now w.draws) w.stored)
        (approval_decision client k d by env w).0
unfolding process_approval get_workflow_by_approval error_status app_error_status now ◌>>=◌
approval_decision-rejection_status client k d by env w nay =
    let w' = record w { pending = λ t. t } in
    endpoint-IsAnswered client k d by env w (rejection_status k (env.now w.draws) w.stored)
      (elim (Option-cases (find_approval k w.stored)) [
        | inl ea ↦ inl (ground (arith, ea))
        | inr (a, ea) ↦ elim (Option-cases (find_workflow a.workflow_id w.stored)) [
          | inl ev ↦ inl (ground (arith, ea, ev))
          | inr (v, ev) ↦ elim (Bool-cases (a.status == "PENDING")) [
            | inl pending ↦
                pending_rejection client k d by env w a v nay ea ev
                  ((eq_iff a.status "PENDING").0 pending)
            | inr settled ↦ inl (ground (arith, ea, ev, settled))
          ]
        ]
      ])
