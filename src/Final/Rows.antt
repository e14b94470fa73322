-- ===== src/Final/Rows.antt =====
-- The row of a decided request, under the changes of tables that the repository makes.
use agentic_ai.Base.{
  String, ◌≡◌, ◌≢◌, sym, ◌∙◌, Bool, true, false, some, List, [], ◌∷◌, ◌==◌, arith, eq_iff, ne_false,
}
use agentic_ai.Base.Lists.{first, replace, first-append}
use agentic_ai.Store.{Tables, ApprovalRow, find_approval, update_approval}
use agentic_ai.Repository.{add_approval}

-- The request `k` has this row.
abbrev pub Final : String → ApprovalRow → Tables → Type 0
Final k a t = find_approval k t ≡ some a

-- A replacement of an element that the other test refuses, before and after.
first-replace_other {ℓ} :
    {A : Type ℓ} (p q : A → Bool) (f : A → A) (xs : List A) (r : A)
    → ((x : A) → p x ≡ true → (q x ≡ false) × (q (f x) ≡ false))
    → first q xs ≡ some r
    → first q (replace p f xs) ≡ some r
first-replace_other p q f [] r other e = cc
first-replace_other p q f (x ∷ xs) r other e =
    ground (arith, e, other x, first-replace_other p q f xs r other)

pub add_approval-Final :
    (k : String) (a row : ApprovalRow) (t : Tables) → Final k a t → Final k a (add_approval row t)
add_approval-Final k a row t h = first-append (λ r. r.id == k) t.approvals (row ∷ []) a h

-- The change of another request's row.
pub update_approval-Final :
    (k j : String) (a : ApprovalRow) (f : ApprovalRow → ApprovalRow) (t : Tables)
    → j ≢ k
    → ((x : ApprovalRow) → (f x).id ≡ x.id)
    → Final k a t
    → Final k a (update_approval j f t)
update_approval-Final k j a f t ne same h =
    first-replace_other (λ r. r.id == j) (λ r. r.id == k) f t.approvals a
      (λ x e.
        let other : (x.id == k) ≡ false =
          ne_false x.id k (λ i. ne (sym ((eq_iff x.id j).0 e) ∙ i)) in
        (other, rw (same x) other))
      h
