-- ===== src/Approvals/Granted.antt =====
-- What the branches of `process_approval` leave in the session when they return.
use agentic_ai.Base.{
  ap, ℕ, suc, String, ◌≡◌, refl, ◌∙◌, Bool, true, false, not, Option, none, some, List, [], ◌∷◌,
  ◌++◌, ◌==◌,
}
use agentic_ai.Base.Lists.{first, first-replace}
use agentic_ai.Domain.Errors.{conflict}
use agentic_ai.Domain.Status.{ApprovalStatus}
use agentic_ai.Domain.Models.{money}
use agentic_ai.Store.{
  Tables, update_approval, find_approval, ApprovalRow, WorkflowRunRow, CreditRow,
}
use agentic_ai.World.{
  lift, ◌>>◌, record_credit_created, Env, World, Action, rows, ◌>>=◌, now, uuid4, flush,
}
use agentic_ai.Repository.{
  set_approval_decision, ensure_idempotency, create_credit, decided, add_credit,
}
use agentic_ai.Safety.Billing.{remote_local}
use agentic_ai.Billing.{
  raise_if, BillingMcpClient, remote, settings, issue_credit, create_credit_if_allowed,
  credit_reason, approve, reject,
}
use agentic_ai.World.Post.{flush-Ensures, lift-Ensures, Ensures, bind-Ensures, Ensures-impl}
use agentic_ai.Safety.Tables.{credit_claim, approval_claim}
use agentic_ai.Safety.Quiet.{Quiet, StaysQuiet, quiet_rules, ensure_idempotency-IsQuiet}

-- An approval that was decided, with all else as it was.
abbrev pub IsDecided : ApprovalStatus → String → ApprovalRow → Option ApprovalRow → Type 0
IsDecided d by a o = (at : ℕ) × (o ≡ some (decided d by at a))

-- What `w'` sees more than `w`: the credit that was granted.
abbrev pub HasGranted : ApprovalRow → WorkflowRunRow → List CreditRow → List CreditRow → Type 0
HasGranted a v before after =
    (row : CreditRow) × (after ≡ before ++ row ∷ [])
    × (credit_claim row ≡ approval_claim a)
    × (row.request_id ≡ v.request_id)

abbrev pub Anything : World → Type 0
Anything w = Unit

pub set_approval_decision_effect :
    (k by : String) (d : ApprovalStatus) (a : ApprovalRow) (env : Env) (w : World)
    → find_approval k (rows w) ≡ some a
    → Ensures
        (λ _ w'.
          ((rows w').credits ≡ (rows w).credits) × IsDecided d by a (find_approval k (rows w')))
        Anything
        (set_approval_decision k d by env w)
unfolding set_approval_decision flush now ◌>>=◌
set_approval_decision_effect k by d a env w e =
    Ensures-impl (flush change env v) (flush-Ensures change env v (λ _ _. tt))
      (λ _ w' q. (
        ap (λ (t : Tables). t.credits) q.0,
        (env.now w.draws, rw q.0 (first-replace _ _ (rows w).approvals a (λ x. refl) e)),
      ))
      (λ _ h. h)
  where
    v : World
    v = record w { draws = suc w.draws }

    change : Tables → Tables
    change = update_approval k (decided d by (env.now w.draws))

create_credit_effect :
    (a : ApprovalRow) (v : WorkflowRunRow) (env : Env) (w : World)
    → Ensures
        (λ _ w'.
          HasGranted a v (rows w).credits (rows w').credits
          × ((rows w').approvals ≡ (rows w).approvals))
        Anything
        (create_credit v.request_id a.customer_id a.invoice_id a.amount a.currency credit_reason env
          w)
unfolding create_credit now uuid4 ◌>>=◌
create_credit_effect a v env w =
    bind-Ensures (flush (add_credit row)) _ env w₂
      (flush-Ensures (add_credit row) env w₂ (λ _ _. tt))
      λ _ w₃ q.
        bind-Ensures (lift (money a.amount a.currency)) _ env w₃
          (lift-Ensures (money a.amount a.currency) env w₃ tt)
          λ m w₄ p. record { holds = rw (p.1, q.0) ((row, refl, refl, refl), refl) }
  where
    w₂ : World
    w₂ = record w { draws = suc (suc w.draws) }

    row : CreditRow
    row = record {
      id = env.uuid (suc w.draws);
      request_id = v.request_id;
      customer_id = a.customer_id;
      invoice_id = a.invoice_id;
      amount = a.amount;
      currency = a.currency;
      reason = credit_reason;
      created_at = env.now w.draws;
    }

-- What holds of the session after a credit for an approval.
abbrev pub Granted : ApprovalRow → WorkflowRunRow → World → World → Type 0
Granted a v w w' =
    HasGranted a v (rows w).credits (rows w').credits × ((rows w').approvals ≡ (rows w).approvals)

issue_credit_effect :
    (a : ApprovalRow) (v : WorkflowRunRow) (env : Env) (w : World)
    → Ensures
        (λ _ w'. Granted a v w w')
        Anything
        (issue_credit none v.request_id a.customer_id a.invoice_id a.amount a.currency env w)
unfolding issue_credit record_credit_created ◌>>=◌
issue_credit_effect a v env w =
    bind-Ensures
      (create_credit v.request_id a.customer_id a.invoice_id a.amount a.currency credit_reason) _
      env w (create_credit_effect a v env w) λ _ w' p. record { holds = p }

Granted-rebase :
    (a : ApprovalRow) (v : WorkflowRunRow) (u w w' : World)
    → Quiet u w
    → Granted a v w w'
    → Granted a v u w'
Granted-rebase a v u w w' q g = (rw (← q.credits) g.0, g.1 ∙ q.approvals)

credit_once_effect :
    (inserted : Bool) (client : Option BillingMcpClient) (a : ApprovalRow) (v : WorkflowRunRow)
    (env : Env) (w : World)
    → env.settings.http_mode ≡ false
    → Ensures
        (λ _ w'. Granted a v w w')
        Anything
        ((raise_if (not inserted) (conflict "Duplicate operation detected by idempotency key")
            >> (settings >>= λ s.
                issue_credit
                  (remote client s)
                  v.request_id
                  a.customer_id
                  a.invoice_id
                  a.amount
                  a.currency))
          env w)
unfolding settings ◌>>=◌
credit_once_effect false client a v env w local = record { holds = tt }
credit_once_effect true client a v env w local =
    rw (remote_local client env.settings local) (issue_credit_effect a v env w)

create_credit_if_allowed_effect :
    (client : Option BillingMcpClient) (a : ApprovalRow) (v : WorkflowRunRow) (env : Env)
    (w : World)
    → env.settings.http_mode ≡ false
    → Ensures
        (λ _ w'. Granted a v w w')
        Anything
        (create_credit_if_allowed client v.request_id a.customer_id a.invoice_id a.amount a.currency
          env w)
unfolding create_credit_if_allowed
create_credit_if_allowed_effect client a v env w local =
    bind-Ensures (ensure_idempotency _ _) _ env w
      (Ensures-impl (ensure_idempotency _ _ env w) (ensure_idempotency-IsQuiet _ _ env w)
        (λ _ _ q. q) (λ _ _. tt))
      (λ b w₁ q.
        Ensures-impl _ (credit_once_effect b client a v env w₁ local)
          (λ _ w₂ g. Granted-rebase a v w w₁ w₂ q g) (λ _ _. tt))

-- A quiet rest keeps what is known of the credits and the approvals.
quiet_then :
    {A B : Type 0} (P : List CreditRow → List ApprovalRow → Type 0) (m : Action A)
    (f : A → Action B) (env : Env) (w : World)
    → Ensures (λ _ w'. P (rows w').credits (rows w').approvals) Anything (m env w)
    → ((a : A) → StaysQuiet (f a))
    → Ensures (λ _ w'. P (rows w').credits (rows w').approvals) Anything ((m >>= f) env w)
quiet_then P m f env w h q = bind-Ensures m f env w h λ a w₁ k.
    Ensures-impl (f a env w₁) ((q a).at env w₁) (λ _ w₂ p. rw (p.credits, p.approvals) k)
      (λ _ _. tt)

-- What an accepted approval makes of the credits and of the approvals.
abbrev pub Approves :
    String
    → String
    → ApprovalRow
    → WorkflowRunRow
    → Tables
    → List CreditRow
    → List ApprovalRow
    → Type 0
Approves k by a v t credits approvals =
    HasGranted a v t.credits credits
    × IsDecided ApprovalStatus.approved by a (first (λ x. x.id == k) approvals)

-- What a rejection makes of them.
abbrev pub Rejects :
    String → String → ApprovalRow → Tables → List CreditRow → List ApprovalRow → Type 0
Rejects k by a t credits approvals =
    (credits ≡ t.credits)
    × IsDecided ApprovalStatus.rejected by a (first (λ x. x.id == k) approvals)

module _ (k by : String) (a : ApprovalRow) (v : WorkflowRunRow) (env : Env) (w : World)
    (found : find_approval k (rows w) ≡ some a) where
  pub approve_effect :
      (client : Option BillingMcpClient)
      → env.settings.http_mode ≡ false
      → Ensures
          (λ _ w'. Approves k by a v (rows w) (rows w').credits (rows w').approvals)
          Anything
          (approve client k by (a, v) env w)
  unfolding approve
  approve_effect client local =
      bind-Ensures (set_approval_decision k ApprovalStatus.approved by) _ env w
        (set_approval_decision_effect k by ApprovalStatus.approved a env w found)
        λ _ w₁ p.
          quiet_then (Approves k by a v (rows w)) (create_credit_if_allowed client _ _ _ _ _) _ env
            w₁
            (Ensures-impl _ (create_credit_if_allowed_effect client a v env w₁ local)
              (λ _ w₂ q. rw q.1 (rw (← p.0) q.0, p.1)) (λ _ _. tt))
            (λ _. search quiet_rules depth 9)

  pub reject_effect :
      Ensures
        (λ _ w'. Rejects k by a (rows w) (rows w').credits (rows w').approvals)
        Anything
        (reject k by (a, v) env w)
  unfolding reject
  reject_effect =
      quiet_then (Rejects k by a (rows w)) (set_approval_decision k ApprovalStatus.rejected by) _
        env w (set_approval_decision_effect k by ApprovalStatus.rejected a env w found)
        (λ _. search quiet_rules depth 9)
