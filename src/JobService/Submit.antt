-- ===== src/JobService/Submit.antt =====
-- `submit` and `status` of the service. No other session completes a job of the same identity
-- between a reconciliation's reads and its commit.
use partha.Prelude.{ℕ, true, false, Option, none, some, coalesce, if◌then◌else◌}
use partha.Table.{update_row}
use partha.Jobs.{queued, completed, done, AnalysisJob, RevisionKind, job_key}
use partha.Database.{RepositoryRecord, RiSnapshot, Database}
use partha.Session.{
  Raised, integrity_error, Exec, pure, raise, catch, ◌>>=◌, ◌>>◌, modify, commit, rollback,
  read_clock,
}
use partha.JobService.{AnalysisJobService}
use partha.JobService.Lookup.{
  get_record, reload_record, require_revision, completed_snapshot, active_job, effective_job,
  latest_job, job_for_snapshot,
}
use partha.JobService.Rows.{
  insert_job, prepared_record, completed_record, set_record, reconciled_job, is_reconciled,
}

module _ (service : AnalysisJobService) (others : Database → Database) where
  open service use {owner_id, config_hash, clock}

  -- Every column of both rows is written, whatever stood there.
  unfoldable pub write_completed : RepositoryRecord → AnalysisJob → RiSnapshot → Exec AnalysisJob
  write_completed r j s = do
    now ← read_clock clock
    let completed_at = coalesce s.sealed_at now
    let after = reconciled_job s completed_at now j
    modify (λ db. set_record r.id (completed_record completed_at) (record db {
      jobs = (update_row job_key j.id (λ _. true) (reconciled_job s completed_at now) db.jobs).0;
    }))
    commit
    pure after

  unfoldable pub reconcile_completed_job :
      RepositoryRecord → AnalysisJob → RiSnapshot → Exec AnalysisJob
  unfolding write_completed
  reconcile_completed_job r j s = if is_reconciled r j s then pure j else write_completed r j s

  -- The row of a job that never ran: its snapshot was sealed before.
  abbrev pub completed_row :
      ℕ → RepositoryRecord → RevisionKind → ℕ → RiSnapshot → ℕ → ℕ → ℕ → AnalysisJob
  completed_row fresh r kind value s completed_at created updated = record {
    id = fresh;
    repository_id = r.id;
    owner_id = owner_id;
    revision_kind = kind;
    revision_value = value;
    config_hash = config_hash;
    status = completed;
    stage = some done;
    progress = 100;
    attempt = 0;
    max_attempts = 3;
    cancel_requested = false;
    worker_id = none;
    lease_expires_at = none;
    next_attempt_at = none;
    snapshot_id = some s.snapshot_id;
    error_code = none;
    error_message = none;
    created_at = created;
    updated_at = updated;
    started_at = some s.created_at;
    completed_at = some completed_at;
  }

  abbrev pub queued_row : ℕ → RepositoryRecord → RevisionKind → ℕ → ℕ → ℕ → AnalysisJob
  queued_row fresh r kind value created updated = record {
    id = fresh;
    repository_id = r.id;
    owner_id = owner_id;
    revision_kind = kind;
    revision_value = value;
    config_hash = config_hash;
    status = queued;
    stage = none;
    progress = 0;
    attempt = 0;
    max_attempts = 3;
    cancel_requested = false;
    worker_id = none;
    lease_expires_at = none;
    next_attempt_at = none;
    snapshot_id = none;
    error_code = none;
    error_message = none;
    created_at = created;
    updated_at = updated;
    started_at = none;
    completed_at = none;
  }

  -- What an `except IntegrityError` does; any other exception goes on.
  abbrev pub on_integrity_error : Exec AnalysisJob → Raised → Exec AnalysisJob
  on_integrity_error handler integrity_error = handler
  on_integrity_error handler e = raise e

  -- Another submission has inserted the row first.
  unfoldable pub existing_or_raise : RepositoryRecord → RiSnapshot → Exec AnalysisJob
  unfolding reconcile_completed_job
  existing_or_raise r s = do
    rollback
    after ← reload_record service r.id
    existing ← job_for_snapshot service after.id s.snapshot_id
    effective ← effective_job service after.id
    elim existing [
      | some j ↦ reconcile_completed_job after j s
      | none ↦ elim effective [
        | some j ↦ reconcile_completed_job after j s
        | none ↦ raise integrity_error
      ]
    ]

  unfoldable pub insert_completed_job : ℕ → RepositoryRecord → RiSnapshot → Exec AnalysisJob
  unfolding existing_or_raise
  insert_completed_job fresh r s = do
    now ← read_clock clock
    let completed_at = coalesce s.sealed_at now
    revision ← require_revision service r
    created ← read_clock clock
    updated ← read_clock clock
    let row = completed_row fresh r revision.0 revision.1 s completed_at created updated
    catch (do insert_job others row (set_record r.id (completed_record completed_at)); pure row)
        (on_integrity_error (existing_or_raise r s))

  -- A concurrent submission or completion has won the effective identity.
  unfoldable pub effective_or_raise : RepositoryRecord → Exec AnalysisJob
  unfolding reconcile_completed_job
  effective_or_raise r = do
    rollback
    after ← reload_record service r.id
    revision ← require_revision service after
    sealed ← completed_snapshot service after revision.1
    effective ← effective_job service after.id
    elim effective [
      | none ↦ raise integrity_error
      | some j ↦ elim sealed [ none ↦ pure j | some s ↦ reconcile_completed_job after j s ]
    ]

  unfoldable pub insert_queued_job : ℕ → RepositoryRecord → Exec AnalysisJob
  unfolding effective_or_raise
  insert_queued_job fresh r = do
    revision ← require_revision service r
    created ← read_clock clock
    updated ← read_clock clock
    let row = queued_row fresh r revision.0 revision.1 created updated
    catch (do insert_job others row (set_record r.id prepared_record); pure row)
        (on_integrity_error (effective_or_raise r))

  -- The sealed snapshot of the identity exists.
  unfoldable pub submit_sealed : ℕ → RepositoryRecord → RiSnapshot → Exec AnalysisJob
  unfolding insert_completed_job reconcile_completed_job
  submit_sealed fresh r s = do
    existing ← job_for_snapshot service r.id s.snapshot_id
    elim existing [ none ↦ insert_completed_job fresh r s | some j ↦ reconcile_completed_job r j s ]

  -- It does not.
  unfoldable pub submit_open : ℕ → RepositoryRecord → Exec AnalysisJob
  unfolding insert_queued_job
  submit_open fresh r = do
    active ← active_job service r.id
    elim active [ none ↦ insert_queued_job fresh r | some j ↦ pure j ]

  unfoldable pub submit : ℕ → ℕ → Exec AnalysisJob
  unfolding submit_sealed submit_open
  submit fresh repository_id = do
    r ← get_record service repository_id
    revision ← require_revision service r
    sealed ← completed_snapshot service r revision.1
    elim sealed [ none ↦ submit_open fresh r | some s ↦ submit_sealed fresh r s ]

  unfoldable pub status_sealed : ℕ → RepositoryRecord → RiSnapshot → Exec (Option AnalysisJob)
  unfolding insert_completed_job reconcile_completed_job
  status_sealed fresh r s = do
    existing ← job_for_snapshot service r.id s.snapshot_id
    effective ← effective_job service r.id
    j ← elim existing [
      | some j ↦ reconcile_completed_job r j s
      | none ↦ elim effective [
        | some j ↦ reconcile_completed_job r j s
        | none ↦ insert_completed_job fresh r s
      ]
    ]
    pure (some j)

  unfoldable pub status : ℕ → ℕ → Exec (Option AnalysisJob)
  unfolding status_sealed
  status fresh repository_id = do
    r ← get_record service repository_id
    revision ← require_revision service r
    sealed ← completed_snapshot service r revision.1
    elim sealed [ none ↦ latest_job service repository_id | some s ↦ status_sealed fresh r s ]
