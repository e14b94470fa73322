-- ===== src/Tests/Idempotency.antt =====
-- The same claim twice, on the seeded database.
use agentic_ai.Base.{String, ◌≡◌, refl, none, []}
use agentic_ai.Base.Int.{pos}
use agentic_ai.Domain.Errors.{Result, conflict, ok, err}
use agentic_ai.World.{World}
use agentic_ai.Billing.{create_credit_if_allowed}
use agentic_ai.Idempotency.{create_credit_if_allowed_once}
use agentic_ai.Fixtures.{program, test_env, seeded}

abbrev claimed : World → Result String × World
claimed = create_credit_if_allowed none "r-1" "CUST-001" "INV-001" (pos 2000) "USD" test_env

first_is_credited : (claimed seeded).0 ≡ ok "2"
unfolding program
first_is_credited = refl

create_credit_if_allowed_once_example :
    claimed (claimed seeded).1
    ≡ (err (conflict "Duplicate operation detected by idempotency key"), (claimed seeded).1)
unfolding program
create_credit_if_allowed_once_example =
    create_credit_if_allowed_once none test_env "r-1" "CUST-001" "INV-001" (pos 2000) "USD" seeded
      (claimed seeded).1 "2" [] refl first_is_credited refl
