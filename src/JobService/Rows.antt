-- ===== src/JobService/Rows.antt =====
-- The rows that `submit` and `status` write, and the unique indexes that an insert is checked against.
use partha.Prelude.{
  ℕ, Bool, true, false, ◌&&◌, ◌||◌, not, Option, none, some, List, [], ◌∷◌, ◌++◌, ◌==◌, is_none,
  coalesce, holds_value, if◌then◌else◌,
}
use partha.Table.{update_row}
use partha.Jobs.{completed, Stage, done, AnalysisJob, is_completed}
use partha.Database.{RepositoryStatus, RepositoryRecord, repository_key, RiSnapshot, Database}
use partha.Session.{integrity_error, Exec, ok, raised}
use partha.JobService.{is_effective}

-- The two unique indexes of `analysis_jobs`, for a row that is to be inserted: no other row has its
-- snapshot, and no other effective row its identity.
abbrev pub same_snapshot : AnalysisJob → AnalysisJob → Bool
same_snapshot a b = elim b.snapshot_id [ none ↦ false | some s ↦ holds_value a.snapshot_id s ]

abbrev pub same_identity : AnalysisJob → AnalysisJob → Bool
same_identity a b =
    is_effective a.status
    && is_effective b.status
    && a.repository_id == b.repository_id
    && a.revision_value == b.revision_value
    && a.config_hash == b.config_hash

abbrev pub collides : AnalysisJob → List AnalysisJob → Bool
collides j [] = false
collides j (x ∷ t) = (same_snapshot x j || same_identity x j) || collides j t

-- A row is added, with the changes to other tables that stand in the same transaction; at the
-- commit the indexes are checked against what others have committed meanwhile.
unfoldable pub insert_job :
    (Database → Database) → AnalysisJob → (Database → Database) → Exec (Unit {0})
insert_job others job also s =
    let theirs = others s.committed in
    let mine = also (record theirs { jobs = theirs.jobs ++ job ∷ [] }) in
    if collides job theirs.jobs
    then (raised integrity_error, record s { committed = theirs; work = mine })
    else (ok tt, record s { committed = mine; work = mine })

abbrev pub prepared_record : RepositoryRecord → RepositoryRecord
prepared_record r = record r {
  status = RepositoryStatus.analysing;
  analysis_stage = none;
  analysis_progress = 0;
  error_message = none;
  analysed_at = none;
}

abbrev pub completed_record : ℕ → RepositoryRecord → RepositoryRecord
completed_record completed_at r = record r {
  status = RepositoryStatus.completed;
  analysis_stage = some done;
  analysis_progress = 100;
  error_message = none;
  analysed_at = some completed_at;
}

abbrev pub set_record : ℕ → (RepositoryRecord → RepositoryRecord) → Database → Database
set_record id f db = record db {
  repositories = (update_row repository_key id (λ _. true) f db.repositories).0;
}

-- `job.started_at or snapshot.created_at`
abbrev pub reconciled_job : RiSnapshot → ℕ → ℕ → AnalysisJob → AnalysisJob
reconciled_job s completed_at now j = record j {
  status = completed;
  stage = some done;
  progress = 100;
  snapshot_id = some s.snapshot_id;
  cancel_requested = false;
  worker_id = none;
  lease_expires_at = none;
  next_attempt_at = none;
  error_code = none;
  error_message = none;
  started_at = some (coalesce j.started_at s.created_at);
  completed_at = some completed_at;
  updated_at = now;
}

abbrev pub is_done : Option Stage → Bool
is_done (some done) = true
is_done _ = false

abbrev pub is_completed_status : RepositoryStatus → Bool
is_completed_status RepositoryStatus.completed = true
is_completed_status _ = false

-- Nothing is left to reconcile.
abbrev pub is_reconciled : RepositoryRecord → AnalysisJob → RiSnapshot → Bool
is_reconciled r j s =
    is_completed j.status
    && is_done j.stage
    && j.progress == 100
    && holds_value j.snapshot_id s.snapshot_id
    && not j.cancel_requested
    && is_none j.worker_id
    && is_none j.lease_expires_at
    && is_none j.next_attempt_at
    && is_none j.error_code
    && is_none j.error_message
    && not (is_none j.completed_at)
    && is_completed_status r.status
    && is_done r.analysis_stage
    && r.analysis_progress == 100
    && is_none r.error_message
    && not (is_none r.analysed_at)
