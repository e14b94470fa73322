-- ===== src/Facts.antt =====
-- The facts of a bill from one kind of source, for any source that gives what the tables hold.
use agentic_ai.Base.{ℕ, String, ◌≡◌, refl, true, Option, none, some, some_inj, ◌∙◌, ap}
use agentic_ai.Domain.Errors.{not_found, validation, Result, ok, err, is_ok, and_then}
use agentic_ai.Domain.Models.{Customer, Contract, Invoice}
use agentic_ai.Store.{Tables}
use agentic_ai.World.{Env, World, Action, rows, continue, pure, ◌>>=◌}
use agentic_ai.Repository.{get_customer, get_latest_finalized_invoice, get_contract_for_period}
use agentic_ai.Billing.{require, billing_facts}
use agentic_ai.LocalClient.Looks.{
  customer_at, invoice_at, contract_at, get_customer-at, get_invoice-at, get_contract-at,
}

-- The value of an action that returns.
abbrev pub value_of {ℓ} : {A : Type ℓ} → Result A → Option A
value_of (ok a) = some a
value_of (err e) = none

-- From every world of a kind, the action delivers the result's value, and if it returns it leaves such
-- a world.
pub record Delivers (I : World → Type 0) {A : Type 0} (env : Env) (m : Action A) (r : Result A)
    : Type 0 where
  pub at :
      (w : World)
      → I w
      → (value_of (m env w).0 ≡ value_of r) × (is_ok (m env w).0 ≡ true → I (m env w).1)

module _ (I : World → Type 0) {A B : Type 0} (env : Env) (f : A → Action B) (g : A → Result B) where
  continue-Delivers :
      (o r : Result A) (w : World)
      → (is_ok o ≡ true → I w)
      → value_of o ≡ value_of r
      → ((a : A) → r ≡ ok a → Delivers I env (f a) (g a))
      → (value_of (continue o f env w).0 ≡ value_of (and_then r g))
        × (is_ok (continue o f env w).0 ≡ true → I (continue o f env w).1)
  continue-Delivers (ok a) (ok b) w h e k = rw (some_inj e) ((k b refl).at w (h refl))
  continue-Delivers (ok a) (err x) w h e k = cc
  continue-Delivers (err x) (ok b) w h e k = cc
  continue-Delivers (err x) (err y) w h e k = (refl, λ g. cc)

  bind-Delivers :
      (m : Action A) (r : Result A)
      → Delivers I env m r
      → ((a : A) → r ≡ ok a → Delivers I env (f a) (g a))
      → Delivers I env (m >>= f) (and_then r g)
  unfolding ◌>>=◌
  bind-Delivers m r h k = record {
    at = λ w s. let (e, s') = h.at w s in continue-Delivers (m env w).0 r (m env w).1 s' e k;
  }

pure-Delivers :
    (I : World → Type 0) {A : Type 0} (env : Env) (a : A) → Delivers I env (pure a) (ok a)
unfolding pure
pure-Delivers I env a = record { at = λ w s. (refl, λ _. s) }

look-Delivers :
    {A : Type 0} (env : Env) (view : World → Tables) (m : Action A) (q : Tables → Result A)
    → ((w : World) → m env w ≡ (q (view w), w))
    → (t : Tables) → Delivers (λ w. view w ≡ t) env m (q t)
look-Delivers env view m q h t = record {
  at = λ w s. (
    ap (λ o. value_of o.0) (h w) ∙ ap (λ t. value_of (q t)) s,
    λ _. ap (λ o. view o.1) (h w) ∙ s,
  );
}

-- The facts that tables hold.
abbrev pub facts_at : String → Env → Tables → Result (Customer × Invoice × Contract)
facts_at id env t = and_then (customer_at id t) λ customer.
    and_then (invoice_at customer.id env t) λ invoice.
      and_then (contract_at customer.id invoice.issued_at t)
        λ contract. ok (customer, invoice, contract)

-- The lookups of one kind of source, one after the other.
pub sources-Deliver :
    (I : World → Type 0) (env : Env) (t : Tables) (customer : String → Action Customer)
    (invoice : String → Action Invoice) (contract : String → ℕ → Action Contract)
    → ((id : String) → Delivers I env (customer id) (customer_at id t))
    → ((id : String) → Delivers I env (invoice id) (invoice_at id env t))
    → ((id : String) (at : ℕ) → Delivers I env (contract id at) (contract_at id at t))
    → (id : String)
    → Delivers I env
        (do c ← customer id; i ← invoice c.id; k ← contract c.id i.issued_at; pure (c, i, k))
        (facts_at id env t)
sources-Deliver I env t customer invoice contract hc hi hk id =
    bind-Delivers I env _ _ (customer id) (customer_at id t) (hc id) λ c _.
      bind-Delivers I env _ _ (invoice c.id) (invoice_at c.id env t) (hi c.id) λ i _.
        bind-Delivers I env _ _ (contract c.id i.issued_at) (contract_at c.id i.issued_at t)
          (hk c.id i.issued_at) λ k _. pure-Delivers I env (c, i, k)

pub session_facts :
    (id : String) (env : Env) (t : Tables)
    → Delivers (λ w. rows w ≡ t) env (billing_facts none id) (facts_at id env t)
unfolding billing_facts
session_facts id env t =
    sources-Deliver (λ w. rows w ≡ t) env t
      (λ id. get_customer id >>= λ o. require o (not_found "Customer not found"))
      (λ id. get_latest_finalized_invoice id >>= λ o.
        require o (not_found "Finalized invoice not found"))
      (λ id at. get_contract_for_period id at >>= λ o.
        require o (validation "No unique active contract found for invoice period"))
      (λ id. look-Delivers env rows _ (λ t. customer_at id t) (get_customer-at id env) t)
      (λ id. look-Delivers env rows _ (λ t. invoice_at id env t) (get_invoice-at id env) t)
      (λ id at. look-Delivers env rows _ (λ t. contract_at id at t) (get_contract-at id at env) t)
      id
