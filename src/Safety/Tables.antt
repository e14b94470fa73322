-- ===== src/Safety/Tables.antt =====
-- The money rules as a property of the tables: what they may hold under given limits.
use agentic_ai.Base.{
  true, some_inj, String, ◌≡◌, ◌⊎◌, inl, inr, List, [], ◌∷◌, ◌++◌, some, Bool, Bool-cases,
}
use agentic_ai.Base.Int.{ℤ, pos, ◌≤ℤ◌, ◌<ℤ◌}
use agentic_ai.Base.Lists.{All, first, replace}
use agentic_ai.Store.{CreditRow, ApprovalRow, Tables}
use agentic_ai.World.{World, Settings, rows}

-- Some element has the property.
abbrev pub Any {ℓ} : {A : Type ℓ} → (A → Type 0) → List A → Type 0
Any P [] = ⊥
Any P (x ∷ xs) = P x ⊎ Any P xs

-- An approval is asked for only above the automatic limit and up to the maximum.
abbrev pub IsBounded : Settings → ApprovalRow → Type 0
IsBounded s a =
    (pos 0 <ℤ a.amount) × (s.auto_credit_limit <ℤ a.amount) × (a.amount ≤ℤ s.max_credit_limit)

-- What a credit is for.
pub record Claim : Type 0 where
  pub customer_id : String
  pub invoice_id : String
  pub amount : ℤ
  pub currency : String

abbrev pub credit_claim : CreditRow → Claim
credit_claim c = record {
  customer_id = c.customer_id;
  invoice_id = c.invoice_id;
  amount = c.amount;
  currency = c.currency;
}

abbrev pub approval_claim : ApprovalRow → Claim
approval_claim a = record {
  customer_id = a.customer_id;
  invoice_id = a.invoice_id;
  amount = a.amount;
  currency = a.currency;
}

-- The approval was granted, for just this claim.
abbrev pub Grants : Claim → ApprovalRow → Type 0
Grants c a = (a.status ≡ "APPROVED") × (approval_claim a ≡ c)

-- A positive amount up to the automatic limit, or one that an approver granted.
abbrev pub IsCovered : Settings → List ApprovalRow → Claim → Type 0
IsCovered s approvals c =
    ((pos 0 <ℤ c.amount) × (c.amount ≤ℤ s.auto_credit_limit)) ⊎ Any (Grants c) approvals

pub record IsSafe (s : Settings) (t : Tables) : Type 0 where
  pub bounded : All (IsBounded s) t.approvals
  pub covered : All (λ c. IsCovered s t.approvals (credit_claim c)) t.credits

-- What the session sees is safe, and so is what is committed.
pub record Sound (s : Settings) (w : World) : Type 0 where
  pub seen : IsSafe s (rows w)
  pub kept : IsSafe s w.stored

pub Any-append {ℓ} : {A : Type ℓ} (P : A → Type 0) (xs ys : List A) → Any P xs → Any P (xs ++ ys)
Any-append P [] ys h = elim h [ ]
Any-append P (x ∷ xs) ys (inl h) = inl h
Any-append P (x ∷ xs) ys (inr h) = inr (Any-append P xs ys h)

hit_eq {ℓ} :
    {A : Type ℓ} (p : A → Bool) (x : A) (xs : List A) (r : A)
    → p x ≡ true
    → first p (x ∷ xs) ≡ some r
    → x ≡ r
hit_eq p x xs r hit e = some_inj (rw hit at e)

module _ {ℓ} {A : Type ℓ} (P : A → Type 0) (p : A → Bool) (f : A → A) where
  -- An element that is replaced was no witness, or still is one.
  pub Any-replace :
      (xs : List A) (r : A)
      → first p xs ≡ some r
      → (P r → P (f r))
      → Any P xs
      → Any P (replace p f xs)
  Any-replace [] r e keeps h = elim h [ ]
  Any-replace (x ∷ xs) r e keeps h = elim (Bool-cases (p x)) [
    | inl hit ↦ rw hit (moved (hit_eq p x xs r hit e) h)
    | inr miss ↦
        rw miss (elim h [ inl k ↦ inl k | inr k ↦ inr (Any-replace xs r (rw miss at e) keeps k) ])
  ]
    where
      moved : x ≡ r → P x ⊎ Any P xs → P (f x) ⊎ Any P xs
      moved same (inl k) = inl (rw same (keeps (rw same at k)))
      moved same (inr k) = inr k

  pub Any-replace-first :
      (xs : List A) (r : A) → first p xs ≡ some r → P (f r) → Any P (replace p f xs)
  Any-replace-first [] r e h = cc
  Any-replace-first (x ∷ xs) r e h = elim (Bool-cases (p x)) [
    | inl hit ↦ rw hit (inl (rw (hit_eq p x xs r hit e) h))
    | inr miss ↦ rw miss (inr (Any-replace-first xs r (rw miss at e) h))
  ]

  pub All-replace : (xs : List A) → ((x : A) → P x → P (f x)) → All P xs → All P (replace p f xs)
  All-replace [] keeps h = tt
  All-replace (x ∷ xs) keeps h = elim (Bool-cases (p x)) [
    | inl hit ↦ rw hit (keeps x h.0, h.1)
    | inr miss ↦ rw miss (h.0, All-replace xs keeps h.1)
  ]
