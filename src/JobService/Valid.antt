-- ===== src/JobService/Valid.antt =====
-- What `cancel` of the service keeps: any predicate of a session that its statements keep, and so
-- the validity of the queue.
use partha.Prelude.{ℕ, zero, suc, ◌≡◌, refl, Bool, true, ◌&&◌, ◌==◌, arith, if◌then◌else◌}
use partha.Jobs.{AnalysisJob, JobStatus, is_queued, is_running}
use partha.Jobs.Valid.{IsValid}
use partha.Session.{Session, commit, rollback, read_clock, ◌>>◌}
use partha.Session.Keeps.{
  Keeps, keeps_rules, Keeps-pure, Keeps-raise, Keeps-if, Keeps-bind, Keeps-option,
}
use partha.ControlPlane.Valid.{update_row-IsQueue}
use partha.Worker.Valid.{
  IsSound, Keeps-commit, Keeps-rollback, Keeps-read_clock, Keeps-modify, Keeps-statement,
}
use partha.JobService.{AnalysisJobService}
use partha.JobService.Queries.{Keeps-reload_job, Keeps-latest_job, Keeps-get_record}
use partha.JobService.Cancel.{
  cancelled_job, flagged_job, cancel_repository, update_job, flag_running, cancel_running,
  cancel_claimed, finish_cancel, cancel_queued, cancel_job, cancel_tries, cancel,
}

-- The statements of a cancellation keep `P`.
pub record Admits (service : AnalysisJobService) (P : Session → Type 0) : Type 0 where
  pub on_commit : Keeps P commit
  pub on_rollback : Keeps P rollback
  pub on_clock : Keeps P (read_clock service.clock)
  pub on_flag : (id now : ℕ) → Keeps P (update_job service id is_running (flagged_job now))
  pub on_cancel : (id now : ℕ) → Keeps P (update_job service id is_queued (cancelled_job now))
  pub on_record : (id : ℕ) → Keeps P (cancel_repository service id)

module _ (service : AnalysisJobService) {P : Session → Type 0} (admits : Admits service P) where
  open admits use {on_commit, on_rollback, on_clock, on_flag, on_cancel, on_record}

  Keeps-flag_running : (job : AnalysisJob) → Keeps P (flag_running service job)
  unfolding flag_running
  Keeps-flag_running job = Keeps-bind _ _ on_clock λ now.
      Keeps-bind _ _ (on_flag job.id now) λ count. Keeps-bind _ _ on_commit λ _.
        Keeps-bind _ _ (Keeps-reload_job service job.id)
          λ after. Keeps-if (count == 0) _ _ (Keeps-raise _) (Keeps-pure after)

  Keeps-cancel_running : (job : AnalysisJob) → Keeps P (cancel_running service job)
  unfolding cancel_running
  Keeps-cancel_running job = search (keeps_rules, Keeps-flag_running)

  Keeps-cancel_claimed : (job : AnalysisJob) → Keeps P (cancel_claimed service job)
  unfolding cancel_claimed
  Keeps-cancel_claimed job =
      Keeps-bind _ _ on_commit
        λ _. Keeps-bind _ _ (Keeps-reload_job service job.id) Keeps-cancel_running

  Keeps-finish_cancel : (job : AnalysisJob) → Keeps P (finish_cancel service job)
  unfolding finish_cancel
  Keeps-finish_cancel job =
      Keeps-bind _ _ (on_record job.repository_id)
        λ _. Keeps-bind _ _ on_commit λ _. Keeps-reload_job service job.id

  Keeps-cancel_queued : (job : AnalysisJob) → Keeps P (cancel_queued service job)
  unfolding cancel_queued
  Keeps-cancel_queued job = Keeps-bind _ _ on_clock λ now.
      Keeps-bind _ _ (on_cancel job.id now)
        λ count. search (keeps_rules, Keeps-cancel_claimed, Keeps-finish_cancel)

  pub Keeps-cancel_job : (job : AnalysisJob) → Keeps P (cancel_job service job)
  unfolding cancel_job
  Keeps-cancel_job job = search (keeps_rules, Keeps-cancel_queued, Keeps-cancel_running)

  Keeps-cancel_tries :
      (left : ℕ) (busy : ℕ → Bool) (id : ℕ) → Keeps P (cancel_tries service left busy id)
  unfolding cancel_tries
  Keeps-cancel_tries zero busy id = search (keeps_rules)
  Keeps-cancel_tries (suc left) busy id =
      let again = Keeps-cancel_tries left busy id in
      Keeps-bind _ _ (Keeps-latest_job service id) λ found.
        Keeps-option found _
          (λ job.
            if busy left
            then rollback >> cancel_tries service left busy id
            else cancel_job service job)
          (Keeps-raise _)
          λ job. Keeps-if _ _ _ (Keeps-bind _ _ on_rollback (λ _. again)) (Keeps-cancel_job job)

  -- Whichever tries meet a lock and however it ends.
  pub Keeps-cancel : (busy : ℕ → Bool) (id : ℕ) → Keeps P (cancel service busy id)
  unfolding cancel
  Keeps-cancel busy id =
      Keeps-bind _ _ (Keeps-get_record service id) λ _. Keeps-cancel_tries 3 busy id

module _ (service : AnalysisJobService) where
  Keeps-update_job :
      (id : ℕ) (in_state : JobStatus → Bool) (values : AnalysisJob → AnalysisJob)
      → ((j : AnalysisJob) → (values j).id ≡ j.id)
      → ((j : AnalysisJob)
          → IsValid j
          → j.owner_id == service.owner_id && in_state j.status ≡ true
          → IsValid (values j))
      → Keeps IsSound (update_job service id in_state values)
  unfolding update_job
  Keeps-update_job id in_state values same keep =
      Keeps-statement _ (λ db v. update_row-IsQueue id _ values same keep db.jobs v)

  Keeps-cancel_repository : (id : ℕ) → Keeps IsSound (cancel_repository service id)
  unfolding cancel_repository
  Keeps-cancel_repository id = Keeps-modify _ (λ db. refl)

  pub Admits-IsSound : Admits service IsSound
  Admits-IsSound = record {
    on_commit = Keeps-commit;
    on_rollback = Keeps-rollback;
    on_clock = Keeps-read_clock service.clock;
    on_flag = λ id now.
        Keeps-update_job id is_running (flagged_job now) (λ _. refl) (λ j v h. ground arith);
    on_cancel = λ id now.
        Keeps-update_job id is_queued (cancelled_job now) (λ _. refl) (λ j v h. ground arith);
    on_record = Keeps-cancel_repository;
  }
