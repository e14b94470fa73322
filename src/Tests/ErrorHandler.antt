-- ===== src/Tests/ErrorHandler.antt =====
-- The answers to rejections, on a database with a request that waits until 5000.
use agentic_ai.Base.{String, ◌≡◌, ◌≢◌, refl, none, some}
use agentic_ai.Routes.{approval_decision}
use agentic_ai.ErrorHandler.{error_status, app_error_status}
use agentic_ai.ErrorHandler.Statuses.{
  IsAnswered, rejection_status, approval_decision-rejection_status,
}
use agentic_ai.Fixtures.{program, test_env, waiting_world}

late_is_400 :
    error_status
      (approval_decision none "A1" "reject" "ann" test_env (waiting_world "PENDING" 500)).0
    ≡ some 400
unfolding program error_status app_error_status
late_is_400 = refl

reject_is_no_approve : ◌≢◌ {A = String} "reject" "approve"
reject_is_no_approve e = cc

approval_decision-rejection_status_example :
    IsAnswered test_env
      (rejection_status "A1" 1000 (waiting_world "PENDING" 5000).stored)
      (approval_decision none "A1" "reject" "ann" test_env (waiting_world "PENDING" 5000)).0
approval_decision-rejection_status_example =
    approval_decision-rejection_status none "A1" "reject" "ann" test_env
      (waiting_world "PENDING" 5000) reject_is_no_approve
