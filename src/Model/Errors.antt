-- ===== src/Model/Errors.antt =====
-- server/src/utils/errors.ts, the enum `ExportStatus` of server/prisma/schema.prisma, and the texts
-- of messages, each as a constructor with what the source interpolates into it.
use export_vault.Prelude.{ℕ, Option, List}
use export_vault.Text.{Text, codes}

pub data ExportStatus : Type 0 where
  pending queued running interrupted resuming verifying completed failed cancelled : ExportStatus

-- The problems that a verification lists.
pub data Problem : Type 0 where
  bad_header : Problem
  wrong_row_count : (expected found : ℕ) → Problem
  wrong_unique_count : (expected found : ℕ) → Problem
  duplicate_ids : ℕ → Problem
  beyond_snapshot : (count snapshot : ℕ) → Problem
  not_ascending : Problem
  malformed : ℕ → Problem
  empty_file : Problem

pub data Message : Type 0 where
  row_limit_not_positive : Message
  row_limit_too_high : Message
  too_few_records : (available snapshot requested : ℕ) → Message
  job_not_found : Message
  nothing_to_resume : Message
  cancelled_for_good : Message
  cannot_resume_while : ExportStatus → Message
  cannot_cancel_completed : Message
  cannot_cancel_while : ExportStatus → Message
  not_completed : ExportStatus → Message
  no_file_key : Message
  not_verified : Message
  checkpoint_gap : (expected found : ℕ) → Message
  checkpoint_order : (batch last previous : ℕ) → Message
  dataset_exhausted : (exported after snapshot requested : ℕ) → Message
  row_count_mismatch : (exported requested : ℕ) → Message
  log_mismatch : (logged requested : ℕ) → Message
  verification_failed : Option (List Problem) → Message
  job_missing : Text → Message
  owned_by_live_worker : Text → ExportStatus → Message
  already_completed : Message
  was_cancelled : Message
  assembled_empty : Text → Message
  write_mismatch : Text → (expected reported : ℕ) → Message
  no_body : Text → Message
  worker_stalled : (exported requested heartbeat : ℕ) → Message
  email_taken : Message
  bad_credentials : Message
  missing_token : Message
  invalid_token : Message
  account_gone : Message
  body_invalid : Message
  params_invalid : Message
  too_many_exports too_many_attempts : Message
  -- the message of an error that a library threw
  foreign : ℕ → Message

-- The classes of errors.ts; `app_error` is a direct instance of the base class with its own status
-- and code, `plain` an `Error` of the language or a library.
pub data AppError : Type 0 where
  app_error : Message → ℕ → Text → AppError
  validation_error : Message → AppError
  unauthorized_error : Message → AppError
  forbidden_error : Message → AppError
  not_found_error : Message → AppError
  conflict_error : Message → AppError
  export_integrity_error : Message → AppError
  plain : Message → AppError

abbrev pub message : AppError → Message
message (app_error m _ _) = m
message (validation_error m) = m
message (unauthorized_error m) = m
message (forbidden_error m) = m
message (not_found_error m) = m
message (conflict_error m) = m
message (export_integrity_error m) = m
message (plain m) = m

-- `statusCode` of an AppError, and 500 of any other error, as the error handler answers it
abbrev pub status_code : AppError → ℕ
status_code (app_error _ status _) = status
status_code (validation_error _) = 400
status_code (unauthorized_error _) = 401
status_code (forbidden_error _) = 403
status_code (not_found_error _) = 404
status_code (conflict_error _) = 409
status_code (export_integrity_error _) = 500
status_code (plain _) = 500

abbrev pub error_code : AppError → Text
error_code (app_error _ _ code) = code
error_code (validation_error _) = codes "VALIDATION_ERROR"
error_code (unauthorized_error _) = codes "UNAUTHORIZED"
error_code (forbidden_error _) = codes "FORBIDDEN"
error_code (not_found_error _) = codes "NOT_FOUND"
error_code (conflict_error _) = codes "CONFLICT"
error_code (export_integrity_error _) = codes "EXPORT_INTEGRITY_ERROR"
error_code (plain _) = codes "INTERNAL_ERROR"

pub data FailureType : Type 0 where
  export_job_missing export_run_failed worker_stalled_failure queue_job_failed : FailureType
