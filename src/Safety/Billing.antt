-- ===== src/Safety/Billing.antt =====
-- The billing service keeps the money rules, with a tool client that it only reads by (local mode).
use agentic_ai.Base.{◌+◌, suc, String, ◌≡◌, refl, Bool, true, false, not, Option, none, some}
use agentic_ai.Base.Int.{ℤ, pos, ◌<ℤ◌, ◌≤ℤ◌}
use agentic_ai.Domain.Errors.{conflict}
use agentic_ai.World.{
  ◌>>◌, Env, World, Settings, Action, rows, ◌>>=◌, now, record_credit_created,
  record_approval_created,
}
use agentic_ai.World.Post.{bind-Ensures, Ensures-impl}
use agentic_ai.Repository.{ensure_idempotency, create_credit, create_approval}
use agentic_ai.Billing.{
  BillingMcpClient, issue_credit, create_credit_if_allowed, idempotency_key, settings,
  credit_reason, remote, submit_approval, raise_if, create_approval_request, approval_lifetime,
}
use agentic_ai.Safety.Tables.{Sound, IsSafe, IsCovered}
use agentic_ai.Safety.Quiet.{Quiet, IsQuiet, Unstored, ensure_idempotency-IsQuiet}
use agentic_ai.Safety.Writes.{IsSound, create_credit-IsSound, create_approval-IsSound}

-- A quiet step keeps soundness, and what covers a claim.
pub Quiet-Sound : (s : Settings) (w w' : World) → Quiet w w' → Sound s w → Sound s w'
Quiet-Sound s w w' q h = record {
  seen = record {
    bounded = rw q.approvals h.seen.bounded;
    covered = rw (q.approvals, q.credits) h.seen.covered;
  };
  kept = rw q.stored h.kept;
}

pub Unstored-IsSafe : (s : Settings) (w w' : World) → Unstored w w' → Sound s w → IsSafe s w'.stored
Unstored-IsSafe s w w' q h = rw q h.kept

-- After a quiet action the rest of the block starts from a sound world with the same approvals.
pub quiet-bind :
    {A B : Type 0} (s : Settings) (m : Action A) (f : A → Action B) (env : Env) (w : World)
    → Sound s w
    → IsQuiet w (m env w)
    → ((a : A) (w' : World)
        → Sound s w'
        → (rows w').approvals ≡ (rows w).approvals
        → IsSound s (f a env w'))
    → IsSound s ((m >>= f) env w)
quiet-bind s m f env w h q k =
    bind-Ensures m f env w
      (Ensures-impl (m env w) q (λ a w' p. p) (λ w' p. Unstored-IsSafe s w w' p h))
      (λ a w' p. k a w' (Quiet-Sound s w w' p h) p.approvals)

pub remote_local :
    (client : Option BillingMcpClient) (s : Settings) → s.http_mode ≡ false → remote client s ≡ none
remote_local none s h = refl
remote_local (some client) s h = rw h

issue_credit-IsSound :
    (r c i : String) (n : ℤ) (u : String) (env : Env) (w : World)
    → Sound env.settings w
    → IsCovered env.settings
        (rows w).approvals
        (record { customer_id = c; invoice_id = i; amount = n; currency = u })
    → IsSound env.settings (issue_credit none r c i n u env w)
unfolding issue_credit record_credit_created ◌>>=◌
issue_credit-IsSound r c i n u env w h k =
    bind-Ensures (create_credit r c i n u credit_reason) _ env w
      (create_credit-IsSound r c i n u credit_reason env w h k)
      (λ a w' p. record { holds = record { seen = p.seen; kept = p.kept } })

credit_once-IsSound :
    (inserted : Bool) (client : Option BillingMcpClient) (r c i : String) (n : ℤ) (u : String)
    (env : Env) (w : World)
    → env.settings.http_mode ≡ false
    → Sound env.settings w
    → IsCovered env.settings
        (rows w).approvals
        (record { customer_id = c; invoice_id = i; amount = n; currency = u })
    → IsSound env.settings (
        (raise_if (not inserted) (conflict "Duplicate operation detected by idempotency key")
            >> (settings >>= λ s. issue_credit (remote client s) r c i n u))
          env w)
unfolding settings ◌>>=◌
credit_once-IsSound false client r c i n u env w local h k = record { holds = h.kept }
credit_once-IsSound true client r c i n u env w local h k =
    rw (remote_local client env.settings local) (issue_credit-IsSound r c i n u env w h k)

pub create_credit_if_allowed-IsSound :
    (client : Option BillingMcpClient) (r c i : String) (n : ℤ) (u : String) (env : Env) (w : World)
    → env.settings.http_mode ≡ false
    → Sound env.settings w
    → IsCovered env.settings
        (rows w).approvals
        (record { customer_id = c; invoice_id = i; amount = n; currency = u })
    → IsSound env.settings (create_credit_if_allowed client r c i n u env w)
unfolding create_credit_if_allowed
create_credit_if_allowed-IsSound client r c i n u env w local h k =
    quiet-bind env.settings (ensure_idempotency (idempotency_key r c i n) r) _ env w h
      (ensure_idempotency-IsQuiet (idempotency_key r c i n) r env w)
      (λ a w' p e. credit_once-IsSound a client r c i n u env w' local p (rw e k))

pub create_approval_request-IsSound :
    (client : Option BillingMcpClient) (r v c i : String) (n : ℤ) (u : String) (env : Env)
    (w : World)
    → env.settings.http_mode ≡ false
    → Sound env.settings w
    → (pos 0 <ℤ n) × (env.settings.auto_credit_limit <ℤ n) × (n ≤ℤ env.settings.max_credit_limit)
    → IsSound env.settings (create_approval_request client r v c i n u env w)
unfolding create_approval_request submit_approval settings now record_approval_created ◌>>=◌
create_approval_request-IsSound client r v c i n u env w local h b =
    rw (remote_local client env.settings local) (
      bind-Ensures (create_approval r v c i n u (env.now w.draws + approval_lifetime)) _ env
        (record w { draws = suc w.draws })
        (create_approval-IsSound r v c i n u (env.now w.draws + approval_lifetime) env
          (record w { draws = suc w.draws }) (record { seen = h.seen; kept = h.kept }) b)
        (λ a w' p. record { holds = record { seen = p.seen; kept = p.kept } }))
