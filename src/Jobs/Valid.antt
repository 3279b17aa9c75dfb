-- ===== src/Jobs/Valid.antt =====
-- The invariant of an `analysis_jobs` row, and what a claim, a renewal and a reclaim make of it.
use partha.Prelude.{◌≤◌, ◌<◌, ◌≡◌, ◌≢◌, Bool, true, false, none, List, All, is_none}
use partha.Table.{IsKeyed}
use partha.Jobs.{JobStatus, queued, running, completed, failed, cancelled, AnalysisJob, job_key}

abbrev pub is_terminal : JobStatus → Bool
is_terminal completed = true
is_terminal failed = true
is_terminal cancelled = true
is_terminal _ = false

-- A job is never started more often than its budget of attempts; a queued job has an attempt left;
-- exactly a running job has an owner and a lease; a finished job says when it finished, and a
-- completed one that it is complete.
pub record IsValid (j : AnalysisJob) : Type 0 where
  pub budget_kept : j.attempt ≤ j.max_attempts
  pub attempt_left : j.status ≡ queued → j.attempt < j.max_attempts
  pub owned :
      j.status ≡ running → (is_none j.worker_id ≡ false) × (is_none j.lease_expires_at ≡ false)
  pub unowned : j.status ≢ running → (j.worker_id ≡ none) × (j.lease_expires_at ≡ none)
  pub finished : is_terminal j.status ≡ true → is_none j.completed_at ≡ false
  pub full : j.status ≡ completed → j.progress ≡ 100

-- The table: one row for each id, every row valid.
pub record IsQueue (jobs : List AnalysisJob) : Type 0 where
  pub keyed : IsKeyed job_key jobs
  pub valid : All IsValid jobs
