-- ===== src/Worker/Endings.antt =====
-- The terminal transitions of analysis_worker.py, and the guarded writes that they are made of.
use partha.Prelude.{
  ℕ, not, is_none, Bool, true, false, ◌&&◌, ◌||◌, Option, none, some, [], if◌then◌else◌,
  holds_value, coalesce,
}
use partha.Table.{update_row}
use partha.Jobs.{Stage, ErrorCode, job_cancelled, AnalysisJob, is_running}
use partha.Database.{SnapshotState, is_building, is_sealed, RiSnapshot, snapshot_key}
use partha.Session.{
  Raised, lease_lost, cancellation_observed, failure, Exec, pure, raise, catch, ◌>>=◌, ◌>>◌, modify,
  commit, rollback, read_clock, statement, get_reused,
}
use partha.ControlPlane.{update_owned, lease_until}
use partha.Retention.{purge_snapshot_facts}
use partha.Worker.{
  AnalysisWorker, StageContext, get_job, get_snapshot, get_record, edit_record, completed_record,
  cancelled_record, completed_job, finished_job, cancelled_job,
}

-- `SnapshotStore.mark_failed` of intelligence/snapshot_store.py: its guard, its commit, its purge.
-- The text of the error of `_require_building` is not modelled.
unfoldable pub mark_failed : RiSnapshot → ErrorCode → Exec (Unit {0})
mark_failed snapshot code =
    if not (is_building snapshot.state)
    then raise (failure (record { text = []; class_name = [] }))
    else do
      modify (λ db. record db {
        snapshots =
            (update_row snapshot_key snapshot.snapshot_id (λ _. true)
              (λ s. record s { state = SnapshotState.failed; failure_code = some code })
              db.snapshots).0;
      })
      commit
      purge_snapshot_facts snapshot.snapshot_id
      pure tt

-- `snapshot is not None and snapshot.state == "completed"`
abbrev pub already_sealed : Option RiSnapshot → Option RiSnapshot
already_sealed none = none
already_sealed (some s) = if is_sealed s.state then some s else none

-- The row is this worker's running job, and its cancellation is requested.
abbrev pub must_cancel : ℕ → Option AnalysisJob → Bool
must_cancel worker none = false
must_cancel worker (some j) =
    is_running j.status && holds_value j.worker_id worker && j.cancel_requested

abbrev snapshot_of : Option AnalysisJob → Option ℕ
snapshot_of none = none
snapshot_of (some j) = j.snapshot_id

unfoldable pub fail_building : Option RiSnapshot → ErrorCode → Exec (Unit {0})
fail_building none code = pure tt
fail_building (some s) code = if is_building s.state then mark_failed s code else pure tt

module _ (w : AnalysisWorker) where
  open w use {worker_id, lease_seconds, clock}

  unfoldable pub update_owned_job :
      StageContext → Bool → (AnalysisJob → AnalysisJob) → Exec (Unit {0})
  update_owned_job ctx require values = do
    held ← statement λ db.
        let (held, jobs) = update_owned ctx.job_id worker_id values require db.jobs in
        (held, record db { jobs = jobs })
    if held then pure tt else (rollback >> raise lease_lost)

  -- The handler of a lost lease in `_lock_owned_job`.
  unfoldable pub observe_cancellation : StageContext → Bool → Raised → Exec (Unit {0})
  observe_cancellation ctx true lease_lost = do
    current ← get_job ctx.job_id
    if must_cancel worker_id current then raise cancellation_observed else raise lease_lost
  observe_cancellation ctx _ e = raise e

  unfoldable pub lock_owned_job : StageContext → Bool → Exec (Unit {0})
  unfolding observe_cancellation
  lock_owned_job ctx require =
      catch (update_owned_job ctx require (λ j. j)) (observe_cancellation ctx require)

  unfoldable pub fail_open_snapshot : StageContext → ErrorCode → Exec (Unit {0})
  fail_open_snapshot ctx code = do
    reused ← get_reused
    job ← get_job ctx.job_id
    if reused || is_none (snapshot_of job)
        then pure tt
        else do snapshot ← get_snapshot (snapshot_of job); fail_building snapshot code

  -- `_complete_sealed_snapshot`; the same writes stand inline in `_retry_or_fail` and
  -- `_reconcile_stale`, which read the clock before they know of the snapshot.
  unfoldable pub complete_at : StageContext → RiSnapshot → ℕ → Exec (Unit {0})
  complete_at ctx snapshot now = do
    let completed_at = coalesce snapshot.sealed_at now
    update_owned_job ctx false (completed_job completed_at now)
    edit_record ctx.record_id (completed_record completed_at)
    commit

  unfoldable pub complete_sealed_snapshot : StageContext → RiSnapshot → Exec (Unit {0})
  complete_sealed_snapshot ctx snapshot = do now ← read_clock clock; complete_at ctx snapshot now

  unfoldable pub cancel_unsealed : StageContext → Exec (Unit {0})
  cancel_unsealed ctx = do
    fail_open_snapshot ctx job_cancelled
    now ← read_clock clock
    update_owned_job ctx false (cancelled_job now)
    edit_record ctx.record_id cancelled_record
    commit

  unfoldable pub cancel : StageContext → Exec (Unit {0})
  unfolding cancel_unsealed
  cancel ctx = do
    lock_owned_job ctx false
    job ← get_job ctx.job_id
    snapshot ← get_snapshot (snapshot_of job)
    elim (already_sealed snapshot) [
      | some s ↦ complete_sealed_snapshot ctx s
      | none ↦ cancel_unsealed ctx
    ]

  -- The handler of a lost lease in `_complete`.
  unfoldable pub cancel_accepted : StageContext → Raised → Exec Bool
  cancel_accepted ctx lease_lost = do
    job ← get_job ctx.job_id
    if not (must_cancel worker_id job) then raise lease_lost else do
      record_id ← get_record (elim job [ none ↦ 0 | some j ↦ j.repository_id ])
      cancel (record ctx { record_id = record_id })
      pure false
  cancel_accepted ctx e = raise e

  unfoldable pub complete : StageContext → Exec (Unit {0})
  unfolding cancel_accepted
  complete ctx = do
    now ← read_clock clock
    updated ←
        catch (update_owned_job ctx true (finished_job now) >> pure true) (cancel_accepted ctx)
    if updated then (edit_record ctx.record_id (completed_record now) >> commit) else pure tt

  unfoldable pub checkpoint : StageContext → Stage → ℕ → Exec (Unit {0})
  checkpoint ctx stage progress = do
    now ← read_clock clock
    update_owned_job ctx false (λ j. record j {
      stage = some stage;
      progress = progress;
      lease_expires_at = some (lease_until lease_seconds now);
      updated_at = now;
    })
    commit
