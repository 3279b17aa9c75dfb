-- ===== src/JobService/Cancel.antt =====
-- `cancel` of the service. `busy` says which of the tries of the flag write meet SQLite's lock.
use partha.Prelude.{ℕ, zero, suc, Bool, true, false, ◌&&◌, none, some, ◌==◌, if◌then◌else◌}
use partha.Table.{update_row}
use partha.Jobs.{JobStatus, cancelled, AnalysisJob, job_key, is_queued, is_running}
use partha.Database.{RepositoryStatus, repository_key}
use partha.Session.{
  conflict, service_busy, Exec, pure, raise, ◌>>=◌, ◌>>◌, modify, commit, rollback, read_clock,
  statement,
}
use partha.JobService.{AnalysisJobService}
use partha.JobService.Lookup.{get_record, latest_job, reload_job}

abbrev pub cancelled_job : ℕ → AnalysisJob → AnalysisJob
cancelled_job now j = record j {
  status = cancelled;
  cancel_requested = false;
  worker_id = none;
  lease_expires_at = none;
  next_attempt_at = none;
  completed_at = some now;
  updated_at = now;
}

abbrev pub flagged_job : ℕ → AnalysisJob → AnalysisJob
flagged_job now j = record j { cancel_requested = true; updated_at = now }

module _ (service : AnalysisJobService) where
  open service use {owner_id, clock}

  unfoldable pub cancel_repository : ℕ → Exec (Unit {0})
  cancel_repository repository_id = modify (λ db. record db {
    repositories =
        (update_row repository_key repository_id (λ r. r.owner_id == owner_id)
          (λ r. record r {
            status = RepositoryStatus.cancelled;
            analysis_stage = none;
            analysis_progress = 0;
            error_message = none;
            analysed_at = none;
          })
          db.repositories).0;
  })

  -- A guarded update of the job, with its row count.
  unfoldable pub update_job : ℕ → (JobStatus → Bool) → (AnalysisJob → AnalysisJob) → Exec ℕ
  update_job id in_state values = statement λ db.
      let (jobs, count) =
        update_row job_key id (λ j. j.owner_id == owner_id && in_state j.status) values db.jobs in
      (count, record db { jobs = jobs })

  -- The flag on a job that runs.
  unfoldable pub flag_running : AnalysisJob → Exec AnalysisJob
  unfolding update_job
  flag_running job = do
    now ← read_clock clock
    count ← update_job job.id is_running (flagged_job now)
    commit
    after ← reload_job service job.id
    if count == 0 then raise conflict else pure after

  unfoldable pub cancel_running : AnalysisJob → Exec AnalysisJob
  unfolding flag_running
  cancel_running job = if is_running job.status then flag_running job else raise conflict

  -- A worker has claimed the row in between: the row is read again.
  unfoldable pub cancel_claimed : AnalysisJob → Exec AnalysisJob
  unfolding cancel_running
  cancel_claimed job = do commit; after ← reload_job service job.id; cancel_running after

  unfoldable pub finish_cancel : AnalysisJob → Exec AnalysisJob
  unfolding cancel_repository
  finish_cancel job = do cancel_repository job.repository_id; commit; reload_job service job.id

  -- A job that waits in the queue.
  unfoldable pub cancel_queued : AnalysisJob → Exec AnalysisJob
  unfolding update_job cancel_claimed finish_cancel
  cancel_queued job = do
    now ← read_clock clock
    count ← update_job job.id is_queued (cancelled_job now)
    if count == 0 then cancel_claimed job else finish_cancel job

  -- `job` is the row as it was read before.
  unfoldable pub cancel_job : AnalysisJob → Exec AnalysisJob
  unfolding cancel_queued cancel_running
  cancel_job job = if is_queued job.status then cancel_queued job else cancel_running job

  -- The loop over `_CANCEL_LOCK_ATTEMPTS`, by the tries that are left.
  unfoldable pub cancel_tries : ℕ → (ℕ → Bool) → ℕ → Exec AnalysisJob
  unfolding cancel_job
  cancel_tries zero busy repository_id = raise service_busy
  cancel_tries (suc left) busy repository_id = do
    found ← latest_job service repository_id
    let again = cancel_tries left busy repository_id
    elim found [
      | none ↦ raise conflict
      | some job ↦ if busy left then rollback >> again else cancel_job job
    ]

  unfoldable pub cancel : (ℕ → Bool) → ℕ → Exec AnalysisJob
  unfolding cancel_tries
  cancel busy repository_id = do get_record service repository_id; cancel_tries 3 busy repository_id
