-- ===== src/Jobs.antt =====
-- apps/backend/app/models/analysis_job.py: the `analysis_jobs` row, which is the queue itself.
-- Ids, hashes and revision values are only compared, so they are numbers; instants are numbers of
-- one clock, as `UTCDateTime` reads them back; the columns with a CHECK constraint on their values
-- are data types. The two columns of text that the code never reads again are enumerations of
-- what it writes (`stage`, `error_code`) or the text's code points (`error_message`).
pub mod Valid
use partha.Prelude.{ℕ, ◌*◌, Bool, true, false, Option, List}

pub data JobStatus : Type 0 where
  queued running completed failed cancelled : JobStatus

pub data RevisionKind : Type 0 where
  git upload : RevisionKind

-- The stages of a run; the last is that of a finished job.
pub data Stage : Type 0 where
  extracting_modules building_dependency_graph preparing_architecture done : Stage

-- `_ERROR_CODE`, `_CANCELLED_CODE`, `_STALE_CODE`, `RESOURCE_EXCEEDED_CODE`, and what a rejected
-- seal writes
pub data ErrorCode : Type 0 where
  job_failed job_cancelled job_stale resource_exceeded int_validation : ErrorCode

-- Instants count microseconds; `timedelta(seconds=n)`.
abbrev pub seconds : ℕ → ℕ
seconds n = n * 1000000

pub record AnalysisJob : Type 0 where
  pub id : ℕ
  pub repository_id : ℕ
  pub owner_id : ℕ
  pub revision_kind : RevisionKind
  pub revision_value : ℕ
  pub config_hash : ℕ
  pub status : JobStatus
  pub stage : Option Stage
  pub progress : ℕ
  pub attempt : ℕ
  pub max_attempts : ℕ
  pub cancel_requested : Bool
  pub worker_id : Option ℕ
  pub lease_expires_at : Option ℕ
  pub next_attempt_at : Option ℕ
  pub snapshot_id : Option ℕ
  pub error_code : Option ErrorCode
  pub error_message : Option (List ℕ)
  pub created_at : ℕ
  pub updated_at : ℕ
  pub started_at : Option ℕ
  pub completed_at : Option ℕ

abbrev pub job_key : AnalysisJob → ℕ
job_key j = j.id

-- `status == "..."` in a guard.
abbrev pub is_queued : JobStatus → Bool
is_queued JobStatus.queued = true
is_queued _ = false

abbrev pub is_running : JobStatus → Bool
is_running JobStatus.running = true
is_running _ = false

abbrev pub is_completed : JobStatus → Bool
is_completed JobStatus.completed = true
is_completed _ = false
