-- ===== src/Worker/Run.antt =====
-- `_execute_stages` and `run_once` of analysis_worker.py.
use partha.Prelude.{ℕ, Bool, true, false, Option, none, some, List, [], ◌∷◌, if◌then◌else◌}
use partha.Jobs.{
  Stage, extracting_modules, building_dependency_graph, preparing_architecture, AnalysisJob,
}
use partha.Session.{
  Exn, Raised, lease_lost, cancellation_observed, exceeded, failure, Exec, pure, raise, gets, catch,
  ◌>>=◌, ◌>>◌, commit, rollback, read_clock, statement,
}
use partha.ControlPlane
use partha.ControlPlane.{JobLease}
use partha.Worker.{AnalysisWorker, StageContext, get_job, get_record}
use partha.Worker.Endings.{cancel, complete, checkpoint}
use partha.Worker.Retry.{retry_or_fail, fail_resource_exceeded}

-- `stages`, with the progress that each reaches.
abbrev pub stages : List (Stage × ℕ)
stages =
    (extracting_modules, 35) ∷ (building_dependency_graph, 75) ∷ (preparing_architecture, 90) ∷ []

-- `except _LeaseLostError: self._log_lease_lost(job.id); return`
unfoldable pub abandon : Raised → Exec (Unit {0})
abandon lease_lost = pure tt
abandon e = raise e

unfoldable pub text_of : Raised → Exn
text_of (exceeded e) = e
text_of (failure e) = e
text_of _ = record { text = []; class_name = [] }

module _ (w : AnalysisWorker) where
  open w use {worker_id, lease_seconds, clock}

  unfoldable pub claim_table : ℕ → Exec (Option JobLease)
  claim_table now = statement λ db.
      let (lease, jobs) = ControlPlane.claim lease_seconds now worker_id db.jobs in
      (lease, record db { jobs = jobs })

  -- `claim` commits its statement, whether it has won a row or not.
  unfoldable pub claim_job : Exec (Option JobLease)
  claim_job = do now ← read_clock clock; lease ← claim_table now; commit; pure lease

-- `run_stage` is a stage's body under its heartbeat, which may raise.
module _ (w : AnalysisWorker) (run_stage : Stage → StageContext → Exec (Unit {0})) where
  unfoldable pub run_stages : StageContext → List (Stage × ℕ) → Exec (Unit {0})
  run_stages ctx [] = do
    cancelled ← gets (λ db. ControlPlane.cancel_requested ctx.job_id db.jobs)
    if cancelled then cancel w ctx else complete w ctx
  run_stages ctx ((stage, progress) ∷ rest) = do
    cancelled ← gets (λ db. ControlPlane.cancel_requested ctx.job_id db.jobs)
    let continue = do run_stage stage ctx; checkpoint w ctx stage progress; run_stages ctx rest
    if cancelled then cancel w ctx else continue

  unfoldable pub observed : StageContext → Option AnalysisJob → Exec (Unit {0})
  observed ctx none = pure tt
  observed ctx (some job) = do
    record_id ← get_record job.repository_id
    catch (cancel w (record ctx { record_id = record_id })) abandon

  -- The `except` clauses, in their order; every other exception goes to the bounded retry.
  unfoldable pub handle_exception : StageContext → Raised → Exec (Unit {0})
  handle_exception ctx cancellation_observed = do
    rollback
    job ← get_job ctx.job_id
    observed ctx job
  handle_exception ctx lease_lost = rollback
  handle_exception ctx (exceeded e) = catch (fail_resource_exceeded w ctx e) abandon
  handle_exception ctx e = catch (retry_or_fail w ctx (text_of e)) abandon

  unfoldable pub execute_stages : StageContext → Exec (Unit {0})
  unfolding run_stages abandon observed text_of handle_exception
  execute_stages ctx = catch (run_stages ctx stages) (handle_exception ctx)

  unfoldable pub run_job : JobLease → Option AnalysisJob → Exec Bool
  run_job lease none = pure false
  run_job lease (some job) = do
    record_id ← get_record job.repository_id
    execute_stages (record { job_id = job.id; record_id = record_id })
    pure true

  unfoldable pub run_once : Exec Bool
  unfolding claim_job run_job
  run_once = do
    lease ← claim_job w
    elim lease [ none ↦ pure false | some l ↦ do job ← get_job l.job_id; run_job l job ]
