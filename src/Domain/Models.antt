-- ===== src/Domain/Models.antt =====
-- src/domain/models/: the validated values that the repository hands to the services.
-- Times are instants in microseconds.
use agentic_ai.Base.{
  leb, List, [], ◌∷◌, Bool, true, false, ℕ, String, Option, count, ◌&&◌, ◌==ℕ◌, ltb, if◌then◌else◌,
}
use agentic_ai.Base.Int.{ℤ, nat_abs}
use agentic_ai.Base.Lists.{length}
use agentic_ai.Base.Text.{upper, codes}
use agentic_ai.Domain.Status.{CustomerStatus, ContractStatus, InvoiceStatus, ApprovalStatus}
use agentic_ai.Domain.Errors.{Result, ok, err, bad_value}

-- `amount` is in cents: the field has two decimal places.
pub record Money : Type 0 where
  pub amount : ℤ
  pub currency : String

-- 12 digits, the two decimal places among them.
abbrev pub max_cents : ℕ
max_cents = 1_000_000_000_000

-- The validation of `Money(amount=…, currency=…)`.
unfoldable pub money : ℤ → String → Result Money
money amount currency =
    if ltb (nat_abs amount) max_cents && (count currency ==ℕ 3)
    then ok (record { amount = amount; currency = upper currency })
    else err (bad_value "Money")

is_digit : ℕ → Bool
is_digit c = leb b'0' c && leb c b'9'

digits_only : List ℕ → Bool
unfolding is_digit
digits_only [] = true
digits_only (c ∷ s) = is_digit c && digits_only s

-- `re.match(r"^CUST-[0-9]{3,}$", s)` on the code points of `s`.
after_prefix : List ℕ → List ℕ → Bool
unfolding digits_only
after_prefix [] s = leb 3 (length s) && digits_only s
after_prefix (p ∷ ps) [] = false
after_prefix (p ∷ ps) (c ∷ s) = (p ==ℕ c) && after_prefix ps s

unfoldable pub is_customer_id : String → Bool
unfolding after_prefix
is_customer_id s = after_prefix (codes "CUST-") (codes s)

pub record Customer : Type 0 where
  pub id : String
  pub email : String
  pub status : CustomerStatus

pub record Contract : Type 0 where
  pub id : String
  pub customer_id : String
  pub monthly_price : Money
  pub effective_from : ℕ
  pub effective_to : Option ℕ
  pub status : ContractStatus

pub record Invoice : Type 0 where
  pub id : String
  pub customer_id : String
  pub billing_period : String
  pub issued_at : ℕ
  pub total : Money
  pub status : InvoiceStatus

pub record Credit : Type 0 where
  pub id : String
  pub customer_id : String
  pub invoice_id : String
  pub amount : Money
  pub reason : String
  pub created_at : ℕ

pub record ApprovalRequest : Type 0 where
  pub id : String
  pub request_id : String
  pub customer_id : String
  pub invoice_id : String
  pub amount : Money
  pub status : ApprovalStatus
  pub created_at : ℕ
  pub expires_at : ℕ
