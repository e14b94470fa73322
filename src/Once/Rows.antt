-- ===== src/Once/Rows.antt =====
-- Tables in which every credit has an idempotency key of its own.
use agentic_ai.Base.{
  String, ◌≡◌, ◌≢◌, sym, subst, true, none, List, [], ◌∷◌, ◌++◌, ◌==◌, is_some, arith, ap, eq_iff,
  Option-cases, inl, inr,
}
use agentic_ai.Base.Lists.{All, All-snoc, All-impl, first-append, first-snoc}
use agentic_ai.Store.{Tables, CreditRow, IdempotencyKeyRow, find_key}
use agentic_ai.Repository.{add_key, add_credit}
use agentic_ai.Billing.{idempotency_key}

-- The key of the claim that a credit was issued for.
abbrev pub credit_key : CreditRow → String
credit_key c = idempotency_key c.request_id c.customer_id c.invoice_id c.amount

abbrev pub IsKnown : String → Tables → Type 0
IsKnown key t = is_some (find_key key t) ≡ true

-- No two credits of the list are for the same claim.
abbrev pub Distinct : List CreditRow → Type 0
Distinct [] = Unit
Distinct (c ∷ cs) = All (λ d. credit_key d ≢ credit_key c) cs × Distinct cs

pub record IsOnce (t : Tables) : Type 0 where
  pub distinct : Distinct t.credits
  pub known : All (λ c. IsKnown (credit_key c) t) t.credits

pub Distinct-snoc :
    (cs : List CreditRow) (c : CreditRow)
    → Distinct cs
    → All (λ d. credit_key d ≢ credit_key c) cs
    → Distinct (cs ++ c ∷ [])
Distinct-snoc [] c h k = (tt, tt)
Distinct-snoc (d ∷ cs) c h k = (
  All-snoc (λ e. credit_key e ≢ credit_key d) cs c h.0 (λ e. k.0 (sym e)),
  Distinct-snoc cs c h.1 k.1,
)

IsKnown-add_key :
    (key : String) (row : IdempotencyKeyRow) (t : Tables)
    → IsKnown key t
    → IsKnown key (add_key row t)
IsKnown-add_key key row t h = elim (Option-cases (find_key key t)) [
  | inl e ↦ absurd (ground (arith, e, h))
  | inr (r, e) ↦ ground (
    arith,
    first-append (λ (x : IdempotencyKeyRow). x.key == key) t.idempotency_keys (row ∷ []) r e,
  )
]

pub add_key-IsOnce : (row : IdempotencyKeyRow) (t : Tables) → IsOnce t → IsOnce (add_key row t)
add_key-IsOnce row t h = record {
  distinct = h.distinct;
  known =
      All-impl (λ c. IsKnown (credit_key c) t) (λ c. IsKnown (credit_key c) (add_key row t))
        t.credits (λ c. IsKnown-add_key (credit_key c) row t) h.known;
}

-- Tables that are ready for a credit with this key: it is known, and no credit has it.
pub record IsReady (key : String) (t : Tables) : Type 0 where
  pub once : IsOnce t
  pub taken : IsKnown key t
  pub fresh : All (λ c. credit_key c ≢ key) t.credits

pub add_credit-IsOnce :
    (row : CreditRow) (t : Tables) → IsReady (credit_key row) t → IsOnce (add_credit row t)
add_credit-IsOnce row t h = record {
  distinct = Distinct-snoc t.credits row h.once.distinct h.fresh;
  known = All-snoc (λ c. IsKnown (credit_key c) t) t.credits row h.once.known h.taken;
}

-- A key that is not known yet, once it is added.
pub add_key-IsReady :
    (key : String) (row : IdempotencyKeyRow) (t : Tables)
    → row.key ≡ key
    → find_key key t ≡ none
    → IsOnce t
    → IsReady key (add_key row t)
add_key-IsReady key row t same unknown h = record {
  once = add_key-IsOnce row t h;
  taken = ap is_some (
      first-snoc (λ (x : IdempotencyKeyRow). x.key == key) t.idempotency_keys row unknown
        ((eq_iff row.key key).1 same));
  fresh =
      All-impl (λ c. IsKnown (credit_key c) t) (λ c. credit_key c ≢ key) t.credits
        (λ c k e. ground (arith, subst (λ key. IsKnown key t) e k, unknown)) h.known;
}
