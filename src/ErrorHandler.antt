-- ===== src/ErrorHandler.antt =====
-- `app_error_handler` of src/api/main.py: the status of the answer to an exception of the program.
pub mod Statuses
use agentic_ai.Base.{ℕ, Option, none, some}
use agentic_ai.Domain.Errors.{
  Error, validation, authorization, not_found, conflict, external_service, workflow, http, Result,
  ok, err,
}

-- The status for an `AppError`; the handler is not asked about other exceptions.
unfoldable pub app_error_status : Error → Option ℕ
app_error_status (validation text) = some 400
app_error_status (authorization text) = some 403
app_error_status (not_found text) = some 404
app_error_status (conflict text) = some 409
app_error_status (external_service text) = some 503
app_error_status (workflow text) = some 500
app_error_status _ = none

-- The status that an exception is answered with: that of an `HTTPException`, that of the handler, or
-- 500 for any other.
abbrev pub failure_status : Error → ℕ
failure_status (http status detail) = status
failure_status e = elim (app_error_status e) [ none ↦ 500 | some status ↦ status ]

-- The status of the exception that an endpoint ends in, if it does.
unfoldable pub error_status {ℓ} : {A : Type ℓ} → Result A → Option ℕ
error_status (ok a) = none
error_status (err e) = some (failure_status e)
