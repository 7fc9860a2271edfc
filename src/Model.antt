-- ===== src/Model.antt =====
-- The tables of server/prisma/schema.prisma as records, one list of rows to a table, and the
-- errors of server/src/utils/errors.ts with the messages that the services give them.
--
-- A uuid is an opaque text. A timestamp is its number of milliseconds. A BIGINT that the program
-- only fills with record ids, sums of lengths or MAX(id) is a natural number.
pub mod Errors
use export_vault.Prelude.{ℕ, Bool, Option, List}
use export_vault.Prelude.Int.{ℤ}
use export_vault.Text.{Text}
use export_vault.Model.Errors.{ExportStatus, Message, FailureType, AppError}

-- A DECIMAL(12,2) as the driver hands it over: its text, or a number of hundredths, which may be
-- negative.
pub data Amount : Type 0 where
  text : Text → Amount
  hundredths : ℤ → Amount

pub record RawRecordRow : Type 0 where
  pub id : ℕ
  pub external_id : Text
  pub name : Text
  pub email : Text
  pub category : Option Text
  pub amount : Option Amount
  pub status : Option Text
  pub created_at : ℕ
  pub updated_at : ℕ

pub record ExportJob : Type 0 where
  pub id : Text
  pub user_id : Text
  pub status : ExportStatus
  pub snapshot_max_id : ℕ
  pub requested_row_limit : ℕ
  pub last_exported_id : Option ℕ
  pub exported_row_count : ℕ
  pub batch_size : ℕ
  pub file_key : Option Text
  pub file_url : Option Text
  pub started_at : Option ℕ
  pub completed_at : Option ℕ
  pub failed_at : Option ℕ
  pub error_message : Option Message
  pub cancel_requested : Bool
  pub created_at : ℕ
  pub updated_at : ℕ

pub record ExportCheckpoint : Type 0 where
  pub export_job_id : Text
  pub batch_number : ℕ
  pub last_record_id : ℕ
  pub rows_written : ℕ

pub record ExportFailure : Type 0 where
  pub export_job_id : Option Text
  pub error_type : FailureType
  pub error : AppError

pub record User : Type 0 where
  pub id : Text
  pub name : Text
  pub email : Text
  pub password_hash : Text
  pub created_at : ℕ
  pub updated_at : ℕ
