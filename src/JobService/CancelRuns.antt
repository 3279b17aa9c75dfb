-- ===== src/JobService/CancelRuns.antt =====
-- The runs of `cancel` of the service, one for each way that its guarded updates go.
use partha.Prelude.{
  ℕ, suc, ◌≡◌, refl, ◌∙◌, ap, Bool, true, false, ◌&&◌, some, ◌==◌, if◌then◌else◌, ==_refl,
}
use partha.Table.{find, IsKeyed, update_row}
use partha.Table.Laws.{touch, hits, find-update_row_self, update_row-count, update_row-IsKeyed}
use partha.Table.Cases.{find-key}
use partha.Jobs.{JobStatus, AnalysisJob, job_key, is_queued, is_running}
use partha.Session.{
  Session, ok, raised, conflict, commit, statement, read_clock, ◌>>=◌, modify, gets, pure, raise,
}
use partha.JobService.{AnalysisJobService}
use partha.JobService.Lookup.{reload_job}
use partha.JobService.Cancel.{
  cancelled_job, flagged_job, cancel_repository, update_job, flag_running, cancel_running,
  cancel_claimed, finish_cancel, cancel_queued,
}

module _ (service : AnalysisJobService) (job row : AnalysisJob) (s : Session)
    (k : IsKeyed job_key s.work.jobs) (here : find job_key job.id s.work.jobs ≡ some row)
    (mine : row.owner_id ≡ service.owner_id) where
  pub owned : (row.owner_id == service.owner_id) ≡ true
  owned = rw (mine, ==_refl service.owner_id) refl

  module _ (in_state : JobStatus → Bool) (values : AnalysisJob → AnalysisJob)
      (same : (j : AnalysisJob) → (values j).id ≡ j.id) where
    passes :
        (b : Bool)
        → in_state row.status ≡ b
        → (row.owner_id == service.owner_id && in_state row.status) ≡ b
    passes b e = rw (owned, e) refl

    update_count :
        (b : Bool)
        → in_state row.status ≡ b
        → (update_row job_key job.id
            (λ j. j.owner_id == service.owner_id && in_state j.status)
            values
            s.work.jobs).1
          ≡ (if b then 1 else 0)
    update_count b e =
        update_row-count job_key job.id (λ j. j.owner_id == service.owner_id && in_state j.status)
          values s.work.jobs k
        ∙ ap (hits (λ j. j.owner_id == service.owner_id && in_state j.status)) here
        ∙ ap (λ (c : Bool). if c then 1 else 0) (passes b e)

    update_found :
        (b : Bool)
        → in_state row.status ≡ b
        → find job_key job.id
            (update_row job_key job.id
              (λ j. j.owner_id == service.owner_id && in_state j.status)
              values
              s.work.jobs).0
          ≡ some (if b then values row else row)
    update_found b e =
        find-update_row_self job_key job.id
          (λ j. j.owner_id == service.owner_id && in_state j.status) values same s.work.jobs
        ∙ ap (touch (λ j. j.owner_id == service.owner_id && in_state j.status) values) here
        ∙ ap (λ (c : Bool). some (if c then values row else row)) (passes b e)

  -- A running job is flagged.
  pub cancel_running_flagged :
      is_running row.status ≡ true
      → is_running job.status ≡ true
      → let (r, after) = cancel_running service job s in
        let flagged = flagged_job (service.clock s.ticks) row in
        (r ≡ ok flagged) × (find job_key job.id after.committed.jobs ≡ some flagged)
  unfolding cancel_running flag_running update_job statement read_clock commit reload_job gets pure
      raise ◌>>=◌
  cancel_running_flagged run read =
      let values = flagged_job (service.clock s.ticks) in
      let counted = update_count is_running values (λ _. refl) true run in
      let found = update_found is_running values (λ _. refl) true run in
      rw (read, counted, found, owned) (refl, found)

  -- A job that no longer runs is not: the caller gets a conflict.
  pub cancel_running_refused :
      is_running row.status ≡ false
      → is_running job.status ≡ true
      → let (r, after) = cancel_running service job s in
        (r ≡ raised conflict) × (find job_key job.id after.committed.jobs ≡ some row)
  unfolding cancel_running flag_running update_job statement read_clock commit reload_job gets pure
      raise ◌>>=◌
  cancel_running_refused idle read =
      let values = flagged_job (service.clock s.ticks) in
      let counted = update_count is_running values (λ _. refl) false idle in
      let found = update_found is_running values (λ _. refl) false idle in
      rw (read, counted, found, owned) (refl, found)

  -- A job that was read as neither queued nor running is not touched.
  pub cancel_running_stopped :
      is_running job.status ≡ false → cancel_running service job s ≡ (raised conflict, s)
  unfolding cancel_running raise
  cancel_running_stopped idle = rw idle refl

  -- A queued job is cancelled at once.
  pub cancel_queued_done :
      is_queued row.status ≡ true
      → let (r, after) = cancel_queued service job s in
        let done = cancelled_job (service.clock s.ticks) row in
        (r ≡ ok done) × (find job_key job.id after.committed.jobs ≡ some done)
  unfolding cancel_queued finish_cancel cancel_repository update_job statement read_clock commit
      reload_job gets pure raise ◌>>=◌ modify
  cancel_queued_done waits =
      let values = cancelled_job (service.clock s.ticks) in
      let counted = update_count is_queued values (λ _. refl) true waits in
      let found = update_found is_queued values (λ _. refl) true waits in
      rw (counted, found, owned) (refl, found)

  -- What a session sees after an update of the queued row that finds no such row.
  abbrev pub after_miss : Session
  after_miss =
      let jobs =
        (update_row job_key job.id (λ j. j.owner_id == service.owner_id && is_queued j.status)
          (cancelled_job (service.clock s.ticks)) s.work.jobs).0 in
      record s {
        committed = record s.work { jobs = jobs };
        work = record s.work { jobs = jobs };
        ticks = suc s.ticks;
      }

  -- A job that was claimed meanwhile is read again, and goes on as it is now.
  pub cancel_queued_again :
      is_queued row.status ≡ false
      → cancel_queued service job s ≡ cancel_running service row after_miss
  unfolding cancel_queued cancel_claimed update_job statement read_clock commit reload_job gets pure
      raise ◌>>=◌
  cancel_queued_again taken =
      let values = cancelled_job (service.clock s.ticks) in
      let counted = update_count is_queued values (λ _. refl) false taken in
      let found = update_found is_queued values (λ _. refl) false taken in
      rw (counted, found, owned) refl

  pub after_miss-IsKeyed : IsKeyed job_key after_miss.work.jobs
  after_miss-IsKeyed = update_row-IsKeyed job_key job.id _ _ (λ _. refl) s.work.jobs k

  pub same_id : row.id ≡ job.id
  same_id = find-key job_key job.id s.work.jobs here

  pub after_miss-find :
      is_queued row.status ≡ false → find job_key row.id after_miss.work.jobs ≡ some row
  after_miss-find taken =
      ap (λ (i : ℕ). find job_key i after_miss.work.jobs) same_id
      ∙ update_found is_queued (cancelled_job (service.clock s.ticks)) (λ _. refl) false taken
