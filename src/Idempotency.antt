-- ===== src/Idempotency.antt =====
-- `BillingService.create_credit_if_allowed`: one credit for one claim.
use agentic_ai.Base.{
  ap, ◌∙◌, String, ◌≡◌, refl, true, false, Option, none, some, List, ◌++◌, arith, ◌==◌, eq_refl,
}
use agentic_ai.Base.Int.{ℤ}
use agentic_ai.Base.Lists.{first-snoc, first-append, first}
use agentic_ai.Domain.Errors.{conflict, Result, ok, err}
use agentic_ai.Store.{find_key, IdempotencyKeyRow}
use agentic_ai.World.{Env, World, ◌>>=◌, now, uuid4, flush, rows, record_credit_created}
use agentic_ai.Repository.{ensure_idempotency, create_credit}
use agentic_ai.Billing.{
  BillingMcpClient, settings, create_credit_if_allowed, issue_credit, idempotency_key,
}

module _ (env : Env) (key request_id : String) where
  -- A key that is known is refused, and nothing changes.
  ensure_known :
      (w : World) (row : IdempotencyKeyRow)
      → find_key key (rows w) ≡ some row
      → ensure_idempotency key request_id env w ≡ (ok false, w)
  unfolding ensure_idempotency ◌>>=◌
  ensure_known w row e = ground (arith, e)

  abbrev taken_row : World → IdempotencyKeyRow
  taken_row w = record { key = key; request_id = request_id; created_at = env.now w.draws }

  -- A key that was taken in is known from then on.
  ensure_taken :
      (w : World)
      → (ensure_idempotency key request_id env w).0 ≡ ok true
      → find_key key (rows (ensure_idempotency key request_id env w).1) ≡ some (taken_row w)
  unfolding ensure_idempotency flush now ◌>>=◌
  ensure_taken w h = ground (
    arith,
    eq_refl key,
    first-snoc (λ (x : IdempotencyKeyRow). x.key == key) (rows w).idempotency_keys (taken_row w),
  )

module _ (client : Option BillingMcpClient) (env : Env) (local : env.settings.http_mode ≡ false)
    (request_id customer_id invoice_id : String) (discrepancy : ℤ) (currency : String) where
  abbrev claim_key : String
  claim_key = idempotency_key request_id customer_id invoice_id discrepancy

  abbrev issued : World → Result String × World
  issued = issue_credit none request_id customer_id invoice_id discrepancy currency env

  abbrev allowed : World → Result String × World
  allowed =
      create_credit_if_allowed client request_id customer_id invoice_id discrepancy currency env

  issue_credit-keys :
      (w : World) (id : String)
      → (issued w).0 ≡ ok id
      → (rows (issued w).1).idempotency_keys ≡ (rows w).idempotency_keys
  unfolding issue_credit create_credit flush now uuid4 record_credit_created ◌>>=◌
  issue_credit-keys w id h = ground arith

  allowed_passed :
      (w : World) (id : String)
      → (allowed w).0 ≡ ok id
      → ((ensure_idempotency claim_key request_id env w).0 ≡ ok true)
        × ((issued (ensure_idempotency claim_key request_id env w).1).0 ≡ ok id)
        × ((allowed w).1 ≡ (issued (ensure_idempotency claim_key request_id env w).1).1)
  unfolding create_credit_if_allowed settings ◌>>=◌
  allowed_passed w id h = ground (arith, local)

  allowed_known :
      (w : World) (row : IdempotencyKeyRow)
      → find_key claim_key (rows w) ≡ some row
      → create_credit_if_allowed client request_id customer_id invoice_id discrepancy currency env w
        ≡ (err (conflict "Duplicate operation detected by idempotency key"), w)
  unfolding create_credit_if_allowed ◌>>=◌
  allowed_known w row e = rw (ensure_known env claim_key request_id w row e) refl

  -- The key of a claim that was credited is found.
  allowed-key :
      (w : World) (id : String)
      → (allowed w).0 ≡ ok id
      → find_key claim_key (rows (allowed w).1) ≡ some (taken_row env claim_key request_id w)
  allowed-key w id h =
      let (taken, done, same) = allowed_passed w id h in
      let v = (ensure_idempotency claim_key request_id env w).1 in
      ap (λ (x : World). find_key claim_key (rows x)) same
      ∙ ap (first (λ (r : IdempotencyKeyRow). r.key == claim_key)) (issue_credit-keys v id done)
      ∙ ensure_taken env claim_key request_id w taken

-- In local mode a claim is credited once: after it was, the same claim is a conflict, and changes
-- nothing, in every world that still has the keys of that moment, whatever was added to them since.
pub create_credit_if_allowed_once :
    (client : Option BillingMcpClient) (env : Env) (request_id customer_id invoice_id : String)
    (discrepancy : ℤ) (currency : String) (w w' : World) (id : String)
    (later : List IdempotencyKeyRow)
    → env.settings.http_mode ≡ false
    → (create_credit_if_allowed client request_id customer_id invoice_id discrepancy currency env
        w).0
      ≡ ok id
    → (rows w').idempotency_keys
      ≡ (rows
          (create_credit_if_allowed client request_id customer_id invoice_id discrepancy currency
            env w).1).idempotency_keys
        ++ later
    → create_credit_if_allowed client request_id customer_id invoice_id discrepancy currency env w'
      ≡ (err (conflict "Duplicate operation detected by idempotency key"), w')
create_credit_if_allowed_once client env request_id customer_id invoice_id discrepancy currency w w'
      id later local h kept =
    let key = idempotency_key request_id customer_id invoice_id discrepancy in
    let p = λ (r : IdempotencyKeyRow). r.key == key in
    let row = taken_row env key request_id w in
    let before =
      allowed client env local request_id customer_id invoice_id discrepancy currency w in
    allowed_known client env local request_id customer_id invoice_id discrepancy currency w' row (
      ap (first p) kept
      ∙ first-append p (rows before.1).idempotency_keys later row (
          allowed-key client env local request_id customer_id invoice_id discrepancy currency w id
            h))
