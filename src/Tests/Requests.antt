-- ===== src/Tests/Requests.antt =====
-- Requests to the two endpoints, on the seeded database and on one with a request that waits.
use agentic_ai.Base.{String, ◌≡◌, ◌≢◌, refl, false, true, none, some, List, [], ◌∷◌, arith}
use agentic_ai.Domain.Errors.{is_ok}
use agentic_ai.Domain.Models.{money}
use agentic_ai.Store.{find_key}
use agentic_ai.Approvals.Accepted.{approval_decision-IsDone}
use agentic_ai.World.Always.{IsDone}
use agentic_ai.Routes.{Request, chats, decides, serve, chat, approval_decision}
use agentic_ai.Safety.Tables.{IsSafe}
use agentic_ai.Safety.Keeps.{KeepsSound}
use agentic_ai.Safety.Requests.{serve-IsSafe}
use agentic_ai.Approvals.Outcome.{approval_decision_atomic, approval_decision_late}
use agentic_ai.Approvals.Effect.{approval_decision_effect}
use agentic_ai.Approvals.Granted.{Approves, Rejects}
use agentic_ai.Fixtures.{
  program, test_env, seeded, waiting, waiting_workflow, waiting_world, silent_llm, default_settings,
}

silent_reads : (m : String) → KeepsSound (silent_llm.parse_request m)
silent_reads m = record { at = λ env w h. record { holds = h } }

seeded-IsSafe : IsSafe default_settings seeded.stored
seeded-IsSafe = record { bounded = tt; covered = tt }

two_requests : List Request
two_requests = chats "My bill is wrong" "CUST-001" (some "r-9") ∷ decides "9" "approve" "boss" ∷ []

serve-IsSafe_example :
    IsSafe default_settings (serve none silent_llm two_requests test_env seeded).stored
serve-IsSafe_example =
    serve-IsSafe none tt silent_llm silent_reads test_env refl two_requests seeded seeded-IsSafe

-- The seeded customer CUST-001 was billed 150.00 for a contract of 100.00: 50.00 needs an approver.
chat_waits :
    ((chat none silent_llm "My bill is wrong" "CUST-001"
        (some "r-9")
        test_env
        seeded).1.stored.approvals
      ≡ [])
    → ⊥
unfolding program
chat_waits h = cc

approval_decision_effect_example :
    let t =
      (approval_decision none "A1" "approve" "boss" test_env
        (waiting_world "PENDING" 5000)).1.stored in
    (◌≡◌ {A = String} "approve" "approve"
      → Approves "A1" "boss"
          (waiting "PENDING" 5000)
          waiting_workflow
          (waiting_world "PENDING" 5000).stored
          t.credits
          t.approvals)
    × (◌≢◌ {A = String} "approve" "approve"
        → Rejects "A1" "boss"
            (waiting "PENDING" 5000)
            (waiting_world "PENDING" 5000).stored
            t.credits
            t.approvals)
unfolding program
approval_decision_effect_example =
    approval_decision_effect none "A1" "approve" "boss" test_env (waiting_world "PENDING" 5000)
      (waiting "PENDING" 5000) waiting_workflow refl refl refl refl

approval_decision_atomic_example :
    (approval_decision none "A1" "reject" "boss" test_env (waiting_world "PENDING" 10)).1.stored
    ≡ (waiting_world "PENDING" 10).stored
unfolding program
approval_decision_atomic_example =
    approval_decision_atomic none "A1" "reject" "boss" test_env (waiting_world "PENDING" 10) refl
      refl

approval_decision_late_example :
    (is_ok (approval_decision none "A1" "approve" "boss" test_env (waiting_world "PENDING" 10)).0
      ≡ false)
    × ((approval_decision none "A1" "approve" "boss" test_env (waiting_world "PENDING" 10)).1.stored
        ≡ (waiting_world "PENDING" 10).stored)
approval_decision_late_example =
    approval_decision_late none "A1" "approve" "boss" test_env (waiting_world "PENDING" 10)
      (waiting "PENDING" 10) waiting_workflow refl refl refl (omega arith)

valid_amount : is_ok (money (waiting "PENDING" 5000).amount "USD") ≡ true
unfolding program
valid_amount = refl

new_claim :
    find_key "credit:r-1:CUST-001:INV-001:50.00" (waiting_world "PENDING" 5000).stored ≡ none
unfolding program
new_claim = refl

-- An approver's "approve" in time, where the claim is new.
approval_decision-IsDone_example :
    IsDone test_env
      (approval_decision none "A1" "approve" "boss" test_env (waiting_world "PENDING" 5000)).0
approval_decision-IsDone_example =
    approval_decision-IsDone none "A1" "approve" "boss" test_env (waiting_world "PENDING" 5000)
      (waiting "PENDING" 5000) waiting_workflow refl refl refl refl (omega arith)
      (λ e. (valid_amount, new_claim))
