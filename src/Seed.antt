-- ===== src/Seed.antt =====
-- src/infrastructure/persistence/seed.py: the data with which a development database begins.
use agentic_ai.Base.{ℕ, String, Option, none, some, [], ◌∷◌, ◌++◌}
use agentic_ai.Base.Int.{pos}
use agentic_ai.Store.{CustomerRow, ContractRow, InvoiceRow, Tables, find_customer}
use agentic_ai.World.{Action, pure, query, ◌>>=◌, ◌>>◌, now, flush, commit, with_session}

abbrev pub seed_customer : String → String → CustomerRow
seed_customer id email = record { id = id; email = email; status = "ACTIVE" }

abbrev pub seed_contract : String → String → ℕ → ContractRow
seed_contract id customer_id at = record {
  id = id;
  customer_id = customer_id;
  monthly_price_amount = pos 10000;
  monthly_price_currency = "USD";
  effective_from = at;
  effective_to = none;
  status = "ACTIVE";
}

abbrev pub seed_invoice : String → String → ℕ → ℕ → InvoiceRow
seed_invoice id customer_id at cents = record {
  id = id;
  customer_id = customer_id;
  billing_period = "2026-09";
  issued_at = at;
  total_amount = pos cents;
  total_currency = "USD";
  status = "FINALIZED";
}

-- The rows of the three `add_all` calls.
abbrev pub add_seed : ℕ → Tables → Tables
add_seed at t = record t {
  customers =
      t.customers
      ++ seed_customer "CUST-001" "cust001@example.com"
        ∷ seed_customer "CUST-002" "cust002@example.com"
        ∷ [];
  contracts =
      t.contracts
      ++ seed_contract "CONT-001" "CUST-001" at ∷ seed_contract "CONT-002" "CUST-002" at ∷ [];
  invoices =
      t.invoices
      ++ seed_invoice "INV-001" "CUST-001" at 15000
        ∷ seed_invoice "INV-002" "CUST-002" at 10000
        ∷ [];
}

-- `if exists: return`
fill : Option CustomerRow → Action (Unit {0})
fill (some exists) = pure tt
fill none = do at ← now; flush (add_seed at); commit

unfoldable pub seed : Action (Unit {0})
unfolding fill
seed = with_session do exists ← query (λ env t. find_customer "CUST-001" t); fill exists
