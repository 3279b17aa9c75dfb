-- ===== src/JobService.antt =====
-- apps/backend/app/services/analysis_job_service.py: submit, status and cancel of a durable job.
-- The service is a record of its owner and of the constants that its module computes; `fresh` is
-- the id that `uuid4` gives to a new row. `others` is what other sessions have committed when an
-- insert of this session reaches its commit; the unique indexes are checked against that.
pub mod Lookup
pub mod Rows
pub mod Submit
pub mod Cancel
pub mod Queries
pub mod Valid
pub mod Final
pub mod CancelRuns
pub mod Outcome
pub mod Submission
use partha.Prelude.{
  ℕ, Bool, true, false, ◌&&◌, ◌||◌, Option, none, some, List, [], ◌∷◌, ◌==◌, leb, holds_value,
  is_none, if◌then◌else◌,
}
use partha.Jobs.{
  JobStatus, queued, running, completed, AnalysisJob, is_queued, is_running, is_completed,
}
use partha.Database.{RepositoryRecord, RiSnapshot, Database}

pub record AnalysisJobService : Type 0 where
  pub owner_id : ℕ
  pub config_hash : ℕ
  pub schema_version : ℕ
  pub producer_set_hash : ℕ
  pub clock : ℕ → ℕ

-- `created_at` descending, for the latest job.
abbrev pub created_ge : AnalysisJob → AnalysisJob → Bool
created_ge a b = leb b.created_at a.created_at

abbrev pub is_active : JobStatus → Bool
is_active s = is_queued s || is_running s

-- The statuses of the partial unique index `uq_analysis_jobs_effective_identity`.
abbrev pub is_effective : JobStatus → Bool
is_effective s = is_active s || is_completed s
