-- ===== src/Worker/Retry.antt =====
-- `_retry_or_fail` and `_fail_resource_exceeded` of analysis_worker.py: what follows an exception.
use partha.Prelude.{ℕ, ◌+◌, Bool, true, false, Option, none, some, leb, if◌then◌else◌}
use partha.Jobs.{seconds, job_failed, resource_exceeded, AnalysisJob}
use partha.Database.{analysis_failed, budget_exceeded}
use partha.Session.{
  Exn, lease_lost, cancellation_observed, Exec, pure, raise, catch, ◌>>=◌, ◌>>◌, commit, rollback,
  read_clock,
}
use partha.Worker.{
  AnalysisWorker, StageContext, backoff, error_message, get_job, get_snapshot, get_record,
  edit_record, failed_record, failed_job, requeued_job,
}
use partha.Worker.Endings.{
  already_sealed, update_owned_job, lock_owned_job, fail_open_snapshot, complete_at,
  complete_sealed_snapshot, cancel,
}

module _ (w : AnalysisWorker) where
  open w use {clock}

  -- The lock, or the cancellation that stands in its way: true where the job has been cancelled.
  unfoldable pub lock_or_cancel : StageContext → Exec Bool
  lock_or_cancel ctx =
      catch (lock_owned_job w ctx true >> pure false)
        λ e. elim e [ cancellation_observed ↦ cancel w ctx >> pure true | other ↦ raise other ]

  unfoldable pub give_up : StageContext → Exn → ℕ → Exec (Unit {0})
  give_up ctx exc now = do
    update_owned_job w ctx false (failed_job job_failed (error_message exc) now)
    edit_record ctx.record_id (failed_record analysis_failed)
    commit

  unfoldable pub try_again : StageContext → Exn → ℕ → ℕ → Exec (Unit {0})
  try_again ctx exc attempt now = do
    update_owned_job w ctx false
        (requeued_job job_failed (error_message exc) (now + seconds (backoff attempt)) now)
    commit

  unfoldable pub requeue_or_fail : StageContext → Exn → AnalysisJob → ℕ → Exec (Unit {0})
  unfolding give_up try_again
  requeue_or_fail ctx exc job now = do
    fail_open_snapshot w ctx job_failed
    if leb job.max_attempts job.attempt
        then give_up ctx exc now
        else try_again ctx exc job.attempt now

  unfoldable pub retry_job : StageContext → Exn → Option AnalysisJob → Exec (Unit {0})
  retry_job ctx exc none = raise lease_lost
  retry_job ctx exc (some job) = do
    record_id ← get_record job.repository_id
    let ctx' = record ctx { record_id = record_id }
    now ← read_clock clock
    was_cancelled ← lock_or_cancel ctx'
    if was_cancelled then pure tt else do
      snapshot ← get_snapshot job.snapshot_id
      elim (already_sealed snapshot) [
        | some s ↦ complete_at w ctx' s now
        | none ↦ requeue_or_fail ctx' exc job now
      ]

  unfoldable pub retry_or_fail : StageContext → Exn → Exec (Unit {0})
  unfolding lock_or_cancel requeue_or_fail retry_job
  retry_or_fail ctx exc = do rollback; job ← get_job ctx.job_id; retry_job ctx exc job

  unfoldable pub fail_exceeded : StageContext → Exn → ℕ → Exec (Unit {0})
  fail_exceeded ctx exc now = do
    fail_open_snapshot w ctx resource_exceeded
    update_owned_job w ctx false (failed_job resource_exceeded (error_message exc) now)
    edit_record ctx.record_id (failed_record budget_exceeded)
    commit

  unfoldable pub exceed_job : StageContext → Exn → Option AnalysisJob → Exec (Unit {0})
  exceed_job ctx exc none = raise lease_lost
  exceed_job ctx exc (some job) = do
    record_id ← get_record job.repository_id
    let ctx' = record ctx { record_id = record_id }
    now ← read_clock clock
    was_cancelled ← lock_or_cancel ctx'
    if was_cancelled then pure tt else do
      snapshot ← get_snapshot job.snapshot_id
      elim (already_sealed snapshot) [
        | some s ↦ complete_sealed_snapshot w ctx' s
        | none ↦ fail_exceeded ctx' exc now
      ]

  unfoldable pub fail_resource_exceeded : StageContext → Exn → Exec (Unit {0})
  unfolding lock_or_cancel fail_exceeded exceed_job
  fail_resource_exceeded ctx exc = do rollback; job ← get_job ctx.job_id; exceed_job ctx exc job
