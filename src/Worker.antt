-- ===== src/Worker.antt =====
-- apps/backend/app/workers/analysis_worker.py: how a claimed job ends. Every handler is an action on
-- the worker's session, with the commits and rollbacks of the source where the source has them.
-- The bodies of the stages (extraction, resolution, sealing) and the heartbeat's thread are not
-- modelled: `Worker.Run` takes them as an argument. `repo_metadata`, which `_complete` refines from
-- the snapshot as far as it can, is not among the modelled columns.
pub mod Endings
pub mod Retry
pub mod Sweep
pub mod Run
pub mod Valid
pub mod Soundness
pub mod Tracking
pub mod Retries
pub mod Sweeps
pub mod Runs
use partha.Prelude.{ℕ, ◌^◌, Bool, true, false, Option, none, some, List, [], ◌∷◌, min, take}
use partha.Prelude.Text.{codes}
use partha.Table.{find, update_row}
use partha.Jobs.{queued, completed, failed, cancelled, done, ErrorCode, AnalysisJob, job_key}
use partha.Database.{
  RepositoryStatus, RepositoryError, RepositoryRecord, repository_key, RiSnapshot, snapshot_key,
}
use partha.Session.{Exn, Exec, pure, gets, modify}

pub record AnalysisWorker : Type 0 where
  pub worker_id : ℕ
  pub lease_seconds : ℕ
  pub clock : ℕ → ℕ

-- `_StageContext`: the job by its id, and the repository record if there is one. `reused` is a
-- field of the session.
pub record StageContext : Type 0 where
  pub job_id : ℕ
  pub record_id : Option ℕ

-- `_backoff`, in seconds
unfoldable pub backoff : ℕ → ℕ
backoff attempt = min (2 ^ attempt) 60

-- `str(exc) or exc.__class__.__name__`, cut to the column's width
abbrev pub message_or_class : Exn → List ℕ
message_or_class e = elim e.text [ [] ↦ e.class_name | c ∷ cs ↦ c ∷ cs ]

unfoldable pub error_message : Exn → List ℕ
error_message e = take 1024 (message_or_class e)

abbrev pub stale_message : List ℕ
stale_message = codes "Analysis worker lease expired before the job completed."

unfoldable pub get_job : ℕ → Exec (Option AnalysisJob)
get_job id = gets (λ db. find job_key id db.jobs)

unfoldable pub get_snapshot : Option ℕ → Exec (Option RiSnapshot)
get_snapshot none = pure none
get_snapshot (some id) = gets (λ db. find snapshot_key id db.snapshots)

-- `session.get(RepositoryRecord, job.repository_id)`, as the id that a context keeps.
unfoldable pub get_record : ℕ → Exec (Option ℕ)
get_record id =
    gets (λ db. elim (find repository_key id db.repositories) [ none ↦ none | some r ↦ some r.id ])

-- Assignments to the attributes of the context's record, if it has one.
unfoldable pub edit_record : Option ℕ → (RepositoryRecord → RepositoryRecord) → Exec (Unit {0})
edit_record none f = pure tt
edit_record (some id) f = modify (λ db. record db {
  repositories = (update_row repository_key id (λ _. true) f db.repositories).0;
})

-- What a finished, a cancelled and a failed analysis write to the record.
abbrev pub completed_record : ℕ → RepositoryRecord → RepositoryRecord
completed_record completed_at r = record r {
  status = RepositoryStatus.completed;
  analysis_stage = some done;
  analysis_progress = 100;
  error_message = none;
  analysed_at = some completed_at;
}

abbrev pub cancelled_record : RepositoryRecord → RepositoryRecord
cancelled_record r = record r {
  status = RepositoryStatus.cancelled;
  analysis_stage = none;
  analysis_progress = 0;
  error_message = none;
  analysed_at = none;
}

abbrev pub failed_record : RepositoryError → RepositoryRecord → RepositoryRecord
failed_record e r = record r {
  status = RepositoryStatus.error;
  analysis_stage = none;
  analysis_progress = 0;
  error_message = some e;
}

abbrev pub requeued_record : RepositoryRecord → RepositoryRecord
requeued_record r = record r {
  status = RepositoryStatus.analysing;
  analysis_stage = none;
  analysis_progress = 0;
  error_message = none;
}

-- The `.values(...)` of the terminal updates of a job.
abbrev pub completed_job : ℕ → ℕ → AnalysisJob → AnalysisJob
completed_job completed_at now j = record j {
  status = completed;
  stage = some done;
  progress = 100;
  cancel_requested = false;
  worker_id = none;
  lease_expires_at = none;
  next_attempt_at = none;
  error_code = none;
  error_message = none;
  completed_at = some completed_at;
  updated_at = now;
}

-- `_complete` leaves `next_attempt_at` as it is.
abbrev pub finished_job : ℕ → AnalysisJob → AnalysisJob
finished_job now j = record j {
  status = completed;
  stage = some done;
  progress = 100;
  cancel_requested = false;
  worker_id = none;
  lease_expires_at = none;
  error_code = none;
  error_message = none;
  completed_at = some now;
  updated_at = now;
}

abbrev pub cancelled_job : ℕ → AnalysisJob → AnalysisJob
cancelled_job now j = record j {
  status = cancelled;
  worker_id = none;
  lease_expires_at = none;
  next_attempt_at = none;
  completed_at = some now;
  updated_at = now;
}

abbrev pub failed_job : ErrorCode → List ℕ → ℕ → AnalysisJob → AnalysisJob
failed_job code message now j = record j {
  status = failed;
  worker_id = none;
  lease_expires_at = none;
  next_attempt_at = none;
  error_code = some code;
  error_message = some message;
  completed_at = some now;
  updated_at = now;
}

abbrev pub requeued_job : ErrorCode → List ℕ → ℕ → ℕ → AnalysisJob → AnalysisJob
requeued_job code message retry_at now j = record j {
  status = queued;
  worker_id = none;
  lease_expires_at = none;
  next_attempt_at = some retry_at;
  error_code = some code;
  error_message = some message;
  updated_at = now;
}
