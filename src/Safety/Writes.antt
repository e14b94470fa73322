-- ===== src/Safety/Writes.antt =====
-- The repository's writes to credits and approvals keep the tables safe, each under its condition.
use agentic_ai.Base.{
  ℕ, suc, String, ◌≡◌, ◌≢◌, refl, none, some, arith, inl, inr, List, [], ◌∷◌, ◌++◌, ◌==◌,
}
use agentic_ai.Base.Int.{ℤ}
use agentic_ai.Base.Lists.{All-snoc, All-impl}
use agentic_ai.Domain.Errors.{Result}
use agentic_ai.Domain.Status.{ApprovalStatus}
use agentic_ai.Store.{Tables, CreditRow, ApprovalRow, find_approval, update_approval}
use agentic_ai.World.{Env, World, Settings, rows, ◌>>=◌, flush, now, uuid4}
use agentic_ai.World.Post.{Ensures}
use agentic_ai.Repository.{
  create_credit, create_approval, set_approval_decision, add_credit, add_approval, decided,
}
use agentic_ai.Safety.Tables.{
  Sound, IsSafe, IsCovered, IsBounded, credit_claim, approval_claim, Claim, Grants, Any-append,
  Any-replace, All-replace,
}

pub add_credit-IsSafe :
    (s : Settings) (t : Tables) (row : CreditRow)
    → IsSafe s t
    → IsCovered s t.approvals (credit_claim row)
    → IsSafe s (add_credit row t)
add_credit-IsSafe s t row h c = record {
  bounded = h.bounded;
  covered = All-snoc (λ c. IsCovered s t.approvals (credit_claim c)) t.credits row h.covered c;
}

IsCovered-append :
    (s : Settings) (xs ys : List ApprovalRow) (c : Claim)
    → IsCovered s xs c
    → IsCovered s (xs ++ ys) c
IsCovered-append s xs ys c (inl h) = inl h
IsCovered-append s xs ys c (inr h) = inr (Any-append (Grants c) xs ys h)

pub add_approval-IsSafe :
    (s : Settings) (t : Tables) (row : ApprovalRow)
    → IsSafe s t
    → IsBounded s row
    → IsSafe s (add_approval row t)
add_approval-IsSafe s t row h b = record {
  bounded = All-snoc (IsBounded s) t.approvals row h.bounded b;
  covered =
      All-impl (λ c. IsCovered s t.approvals (credit_claim c))
        (λ c. IsCovered s (t.approvals ++ row ∷ []) (credit_claim c)) t.credits
        (λ c. IsCovered-append s t.approvals (row ∷ []) (credit_claim c)) h.covered;
}

-- A change of the status and of nothing that a claim or a bound reads.
abbrev KeepsClaim : (ApprovalRow → ApprovalRow) → Type 0
KeepsClaim f = (a : ApprovalRow) → approval_claim (f a) ≡ approval_claim a

IsCovered-update :
    (s : Settings) (t : Tables) (k : String) (f : ApprovalRow → ApprovalRow) (a : ApprovalRow)
    (c : Claim)
    → find_approval k t ≡ some a
    → a.status ≢ "APPROVED"
    → IsCovered s t.approvals c
    → IsCovered s (update_approval k f t).approvals c
IsCovered-update s t k f a c e ne (inl h) = inl h
IsCovered-update s t k f a c e ne (inr h) =
    inr (Any-replace (Grants c) (λ r. r.id == k) f t.approvals a e (λ g. absurd (ne g.0)) h)

pub update_approval-IsSafe :
    (s : Settings) (t : Tables) (k : String) (f : ApprovalRow → ApprovalRow) (a : ApprovalRow)
    → find_approval k t ≡ some a
    → a.status ≢ "APPROVED"
    → ((x : ApprovalRow) → (f x).amount ≡ x.amount)
    → IsSafe s t
    → IsSafe s (update_approval k f t)
update_approval-IsSafe s t k f a e ne same h = record {
  bounded = All-replace (IsBounded s) (λ r. r.id == k) f t.approvals (λ x b. rw same b) h.bounded;
  covered =
      All-impl (λ c. IsCovered s t.approvals (credit_claim c))
        (λ c. IsCovered s (update_approval k f t).approvals (credit_claim c)) t.credits
        (λ c. IsCovered-update s t k f a (credit_claim c) e ne) h.covered;
}

-- An action's outcome is sound: after a raise at least what is committed is.
abbrev pub IsSound : {A : Type 0} → Settings → Result A × World → Type 0
IsSound s o = Ensures (λ a w'. Sound s w') (λ w'. IsSafe s w'.stored) o

pub flush-IsSound :
    (s : Settings) (change : Tables → Tables) (env : Env) (w : World)
    → Sound s w
    → IsSafe s (change (rows w))
    → IsSound s (flush change env w)
unfolding flush
flush-IsSound s change env w h c = ground arith

pub create_credit-IsSound :
    (r c i : String) (n : ℤ) (u m : String) (env : Env) (w : World)
    → Sound env.settings w
    → IsCovered env.settings
        (rows w).approvals
        (record { customer_id = c; invoice_id = i; amount = n; currency = u })
    → IsSound env.settings (create_credit r c i n u m env w)
unfolding create_credit flush now uuid4 ◌>>=◌
create_credit-IsSound r c i n u m env w h k = ground (
  arith,
  add_credit-IsSafe env.settings (rows w)
      (record {
        id = env.uuid (suc w.draws);
        request_id = r;
        customer_id = c;
        invoice_id = i;
        amount = n;
        currency = u;
        reason = m;
        created_at = env.now w.draws;
      })
      h.seen k,
)

pub create_approval-IsSound :
    (r v c i : String) (n : ℤ) (u : String) (x : ℕ) (env : Env) (w : World)
    → Sound env.settings w
    → IsBounded env.settings (record {
      id = env.uuid (suc w.draws);
      request_id = r;
      workflow_id = v;
      customer_id = c;
      invoice_id = i;
      amount = n;
      currency = u;
      status = "PENDING";
      created_at = env.now w.draws;
      expires_at = x;
      approved_by = none;
      approved_at = none;
    })
    → IsSound env.settings (create_approval r v c i n u x env w)
unfolding create_approval flush now uuid4 ◌>>=◌
create_approval-IsSound r v c i n u x env w h k = ground (
  arith,
  add_approval-IsSafe env.settings (rows w)
      (record {
        id = env.uuid (suc w.draws);
        request_id = r;
        workflow_id = v;
        customer_id = c;
        invoice_id = i;
        amount = n;
        currency = u;
        status = "PENDING";
        created_at = env.now w.draws;
        expires_at = x;
        approved_by = none;
        approved_at = none;
      })
      h.seen k,
)

-- A decision on a request that is not granted yet.
pub set_approval_decision-IsSound :
    (k : String) (d : ApprovalStatus) (by : String) (a : ApprovalRow) (env : Env) (w : World)
    → find_approval k (rows w) ≡ some a
    → a.status ≢ "APPROVED"
    → Sound env.settings w
    → IsSound env.settings (set_approval_decision k d by env w)
unfolding set_approval_decision flush now ◌>>=◌
set_approval_decision-IsSound k d by a env w e ne h = ground (
  arith,
  update_approval-IsSafe env.settings (rows w) k (decided d by (env.now w.draws)) a e ne (λ x. refl)
      h.seen,
)
