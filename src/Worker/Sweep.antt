-- ===== src/Worker/Sweep.antt =====
-- `_reconcile_stale` and `sweep_stale` of analysis_worker.py: jobs whose worker has died.
use partha.Prelude.{
  ℕ, suc, ◌+◌, Bool, true, false, ◌&&◌, Option, none, some, List, [], ◌∷◌, ltb, if◌then◌else◌,
  before,
}
use partha.Jobs.{seconds, job_stale, AnalysisJob, is_running}
use partha.Database.{lease_failed}
use partha.Session.{Exec, pure, gets, ◌>>=◌, ◌>>◌, commit, rollback, read_clock, statement}
use partha.ControlPlane.{JobLease, reclaim, expired_job_ids}
use partha.Retention.{purge_orphaned_failed_facts}
use partha.Worker.{
  AnalysisWorker, StageContext, backoff, stale_message, get_job, get_snapshot, get_record,
  edit_record, failed_record, requeued_record, failed_job, requeued_job,
}
use partha.Worker.Endings.{already_sealed, fail_building, update_owned_job, complete_at, cancel}

module _ (w : AnalysisWorker) where
  open w use {worker_id, lease_seconds, clock}

  -- A missed reclaim rolls back; the table it returns is the one that it met.
  unfoldable pub reclaim_job : AnalysisJob → Exec (Option JobLease)
  reclaim_job job = do
    now ← read_clock clock
    lease ← statement λ db.
        let (lease, jobs) = reclaim lease_seconds now job worker_id db.jobs in
        (lease, record db { jobs = jobs })
    elim lease [ none ↦ rollback >> pure none | some l ↦ pure (some l) ]

  unfoldable pub requeue_stale : StageContext → ℕ → ℕ → Exec (Unit {0})
  requeue_stale ctx attempt now = do
    update_owned_job w ctx false
        (requeued_job job_stale stale_message (now + seconds (backoff attempt)) now)
    edit_record ctx.record_id requeued_record
    commit

  unfoldable pub fail_stale : StageContext → ℕ → Exec (Unit {0})
  fail_stale ctx now = do
    update_owned_job w ctx false (failed_job job_stale stale_message now)
    edit_record ctx.record_id (failed_record lease_failed)
    commit

  unfoldable pub requeue_or_fail_stale : StageContext → AnalysisJob → ℕ → Exec (Unit {0})
  unfolding requeue_stale fail_stale
  requeue_or_fail_stale ctx job now =
      if ltb job.attempt job.max_attempts
      then requeue_stale ctx job.attempt now
      else fail_stale ctx now

  -- The job after the reclaim: a cancellation first, then a sealed snapshot, then a retry.
  unfoldable pub settle_stale : AnalysisJob → ℕ → Exec (Unit {0})
  settle_stale job now = do
    record_id ← get_record job.repository_id
    snapshot ← get_snapshot job.snapshot_id
    let ctx : StageContext = record { job_id = job.id; record_id = record_id }
    if job.cancel_requested then cancel w ctx else elim (already_sealed snapshot) [
      | some s ↦ complete_at w ctx s now
      | none ↦ do fail_building snapshot job_stale; requeue_or_fail_stale ctx job now
    ]

  unfoldable pub reconcile_stale : AnalysisJob → ℕ → Exec Bool
  unfolding reclaim_job settle_stale requeue_or_fail_stale
  reconcile_stale job now = do
    lease ← reclaim_job job
    elim lease [ none ↦ pure false | some _ ↦ settle_stale job now >> pure true ]

  -- The row that the sweep reads again is still running, with a lease before its moment.
  unfoldable pub sweep_job : ℕ → Option AnalysisJob → Exec Bool
  sweep_job now none = pure false
  sweep_job now (some job) =
      if is_running job.status && before job.lease_expires_at now
      then reconcile_stale job now
      else pure false

  unfoldable pub sweep_jobs : ℕ → List ℕ → Exec ℕ
  unfolding sweep_job
  sweep_jobs now [] = pure 0
  sweep_jobs now (id ∷ ids) = do
    job ← get_job id
    swept ← sweep_job now job
    count ← sweep_jobs now ids
    pure (if swept then suc count else count)

  -- Returns the number of reclaimed jobs. `reused` is false in every context of a sweep.
  unfoldable pub sweep_stale : Exec ℕ
  unfolding sweep_jobs
  sweep_stale = do
    purge_orphaned_failed_facts 20
    now ← read_clock clock
    ids ← gets (λ db. expired_job_ids now db.jobs)
    sweep_jobs now ids
