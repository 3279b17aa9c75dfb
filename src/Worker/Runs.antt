-- ===== src/Worker/Runs.antt =====
-- The run of a claimed job keeps the queue valid, whatever its stages do with the other tables.
use partha.Prelude.{ℕ, false, Option, none, some, List, [], ◌∷◌}
use partha.Jobs.{Stage, AnalysisJob}
use partha.Session.{Raised, lease_lost, cancellation_observed, exceeded, Exec, ◌>>=◌}
use partha.Session.Keeps.{
  Keeps, keeps_rules, Keeps-bind, Keeps-if, Keeps-gets, Keeps-catch, Keeps-pure, Keeps-option,
}
use partha.ControlPlane.{JobLease}
use partha.ControlPlane.Valid.{claim-IsQueue}
use partha.Worker.{AnalysisWorker, StageContext, get_job}
use partha.Worker.Run.{
  stages, run_stages, abandon, observed, handle_exception, execute_stages, claim_table, claim_job,
  run_job, run_once,
}
use partha.Worker.Valid.{IsSound, Keeps-statement, Keeps-rollback}
use partha.Worker.Soundness.{
  sound_rules, Keeps-get_job, Keeps-get_record, Keeps-cancel, Keeps-complete, Keeps-checkpoint,
}
use partha.Worker.Retries.{Keeps-retry_or_fail, Keeps-fail_resource_exceeded}

Keeps-abandon : (e : Raised) → Keeps IsSound (abandon e)
unfolding abandon
Keeps-abandon lease_lost = search keeps_rules
Keeps-abandon e = search keeps_rules

Keeps-claim_table : (w : AnalysisWorker) (now : ℕ) → Keeps IsSound (claim_table w now)
unfolding claim_table
Keeps-claim_table w now =
    Keeps-statement _ (λ db v. claim-IsQueue w.lease_seconds now w.worker_id db.jobs v)

Keeps-claim_job : (w : AnalysisWorker) → Keeps IsSound (claim_job w)
unfolding claim_job
Keeps-claim_job w = search (sound_rules, Keeps-claim_table) depth 7

module _ (w : AnalysisWorker) (run_stage : Stage → StageContext → Exec (Unit {0}))
    (stage_keeps : (stage : Stage) (ctx : StageContext) → Keeps IsSound (run_stage stage ctx)) where
  Keeps-run_stages :
      (ctx : StageContext) (rest : List (Stage × ℕ))
      → Keeps IsSound (run_stages w run_stage ctx rest)
  unfolding run_stages
  Keeps-run_stages ctx [] = search (keeps_rules, Keeps-cancel, Keeps-complete)
  Keeps-run_stages ctx ((stage, progress) ∷ rest) = Keeps-bind _ _ (Keeps-gets _) λ cancelled.
      Keeps-if cancelled _ _ (Keeps-cancel w ctx) (
        Keeps-bind _ _ (stage_keeps stage ctx) λ _.
          Keeps-bind _ _ (Keeps-checkpoint w ctx stage progress) λ _. Keeps-run_stages ctx rest)

  Keeps-observed :
      (ctx : StageContext) (job : Option _) → Keeps IsSound (observed w run_stage ctx job)
  unfolding observed
  Keeps-observed ctx none = search keeps_rules
  Keeps-observed ctx (some job) =
      search (keeps_rules, Keeps-get_record, Keeps-cancel, Keeps-abandon)

  Keeps-handle :
      (ctx : StageContext) (e : Raised) → Keeps IsSound (handle_exception w run_stage ctx e)
  unfolding handle_exception
  Keeps-handle ctx cancellation_observed =
      search (keeps_rules, Keeps-rollback, Keeps-get_job, Keeps-observed)
  Keeps-handle ctx lease_lost = Keeps-rollback
  Keeps-handle ctx (exceeded e) = search (keeps_rules, Keeps-fail_resource_exceeded, Keeps-abandon)
  Keeps-handle ctx e = search (keeps_rules, Keeps-retry_or_fail, Keeps-abandon)

  -- From the claim to the last commit of the job.
  pub Keeps-execute_stages : (ctx : StageContext) → Keeps IsSound (execute_stages w run_stage ctx)
  unfolding execute_stages
  Keeps-execute_stages ctx = Keeps-catch _ _ (Keeps-run_stages ctx stages) (Keeps-handle ctx)

  Keeps-run_job :
      (lease : JobLease) (job : Option AnalysisJob) → Keeps IsSound (run_job w run_stage lease job)
  unfolding run_job
  Keeps-run_job lease none = search keeps_rules
  Keeps-run_job lease (some job) = search (keeps_rules, Keeps-get_record, Keeps-execute_stages)

  Keeps-go_on :
      (lease : JobLease) → Keeps IsSound (get_job lease.job_id >>= run_job w run_stage lease)
  Keeps-go_on lease = search (keeps_rules, Keeps-get_job, Keeps-run_job)

  -- One poll of the queue.
  pub Keeps-run_once : Keeps IsSound (run_once w run_stage)
  unfolding run_once
  Keeps-run_once = Keeps-bind _ _ (Keeps-claim_job w) λ lease.
      Keeps-option lease _ (λ l. get_job l.job_id >>= run_job w run_stage l) (Keeps-pure false)
        Keeps-go_on
