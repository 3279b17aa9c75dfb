-- ===== src/JobService/Outcome.antt =====
-- What `cancel` of the service does to the row, by the status that was read and by the status that
-- the row has when the update reaches it.
use partha.Prelude.{ℕ, suc, ◌≡◌, refl, sym, ◌∙◌, ap, true, false, Option, some}
use mathlib.Core.Path.{subst}
use partha.Table.{find, IsKeyed}
use partha.Jobs.{
  JobStatus, queued, running, completed, failed, cancelled, AnalysisJob, job_key, is_queued,
  is_running,
}
use partha.Database.{Database}
use partha.Session.{Session, Outcome, ok, raised, conflict}
use partha.JobService.{AnalysisJobService}
use partha.JobService.Cancel.{cancelled_job, flagged_job, cancel_running, cancel_queued, cancel_job}
use partha.JobService.CancelRuns.{
  cancel_running_flagged, cancel_running_refused, cancel_running_stopped, cancel_queued_done,
  cancel_queued_again, after_miss, after_miss-IsKeyed, after_miss-find, same_id,
}

-- What the caller gets and what the row becomes, by the status that was read, the status that the
-- row has, and the two readings of the clock.
abbrev pub CancelledAs :
    JobStatus → JobStatus → ℕ → ℕ → AnalysisJob → Outcome AnalysisJob → Option AnalysisJob → Type 0
CancelledAs queued queued now later row r found =
    (r ≡ ok (cancelled_job now row)) × (found ≡ some (cancelled_job now row))
CancelledAs queued running now later row r found =
    (r ≡ ok (flagged_job later row)) × (found ≡ some (flagged_job later row))
CancelledAs running running now later row r found =
    (r ≡ ok (flagged_job now row)) × (found ≡ some (flagged_job now row))
CancelledAs _ _ now later row r found = (r ≡ raised conflict) × (found ≡ some row)

module _ (service : AnalysisJobService) (job row : AnalysisJob) (s : Session)
    (k : IsKeyed job_key s.work.jobs) (here : find job_key job.id s.work.jobs ≡ some row)
    (mine : row.owner_id ≡ service.owner_id) where
  -- A description of what a run leaves, for the row under the id that was read.
  abbrev Ended : JobStatus → JobStatus → Outcome AnalysisJob × Session → Type 0
  Ended read actual (r, after) =
      CancelledAs read actual (service.clock s.ticks) (service.clock (suc s.ticks)) row r
        (find job_key job.id after.committed.jobs)

  waiting : job.status ≡ queued → cancel_queued service job s ≡ cancel_job service job s
  unfolding cancel_job
  waiting e = rw e refl

  other : is_queued job.status ≡ false → cancel_running service job s ≡ cancel_job service job s
  unfolding cancel_job
  other e = rw e refl

  -- The row was read as queued, and runs now.
  again_running :
      is_queued row.status ≡ false
      → is_running row.status ≡ true
      → Ended queued running (cancel_queued service job s)
  again_running taken run =
      subst (Ended queued running) (sym (cancel_queued_again service job row s k here mine taken)) (
        subst
          (λ i.
            let (r, after) =
              cancel_running service row (after_miss service job row s k here mine) in
            let flagged = flagged_job (service.clock (suc s.ticks)) row in
            (r ≡ ok flagged) × (find job_key i after.committed.jobs ≡ some flagged))
          (same_id service job row s k here mine)
          (cancel_running_flagged service row row (after_miss service job row s k here mine)
            (after_miss-IsKeyed service job row s k here mine)
            (after_miss-find service job row s k here mine taken) mine run run))

  -- The row was read as queued, and is finished now.
  again_finished :
      is_queued row.status ≡ false
      → is_running row.status ≡ false
      → Ended queued completed (cancel_queued service job s)
  again_finished taken idle =
      subst (Ended queued completed)
        (sym (
          cancel_queued_again service job row s k here mine taken
          ∙ cancel_running_stopped service row row (after_miss service job row s k here mine)
              (after_miss-IsKeyed service job row s k here mine)
              (after_miss-find service job row s k here mine taken) mine idle))
        (
          refl,
          ap (λ (i : ℕ). find job_key i (after_miss service job row s k here mine).work.jobs)
                (sym (same_id service job row s k here mine))
              ∙ after_miss-find service job row s k here mine taken,
        )

  flagged-Ended :
      is_running row.status ≡ true
      → job.status ≡ running
      → Ended running running (cancel_job service job s)
  flagged-Ended run e =
      subst (Ended running running) (other (rw e refl))
        (cancel_running_flagged service job row s k here mine run (rw e refl))

  refused-Ended :
      is_running row.status ≡ false
      → job.status ≡ running
      → Ended running completed (cancel_job service job s)
  refused-Ended idle e =
      subst (Ended running completed) (other (rw e refl))
        (cancel_running_refused service job row s k here mine idle (rw e refl))

  module _ (clean : s.committed ≡ s.work) where
    stopped-Ended :
        is_queued job.status ≡ false
        → is_running job.status ≡ false
        → Ended completed completed (cancel_job service job s)
    stopped-Ended idle still =
        subst (Ended completed completed)
          (sym (cancel_running_stopped service job row s k here mine still) ∙ other idle)
          (refl, ap (λ (db : Database). find job_key job.id db.jobs) clean ∙ here)

    ended :
        (read actual : JobStatus)
        → job.status ≡ read
        → row.status ≡ actual
        → Ended read actual (cancel_job service job s)
    ended queued queued e f =
        subst (Ended queued queued) (waiting e)
          (cancel_queued_done service job row s k here mine (rw f refl))
    ended queued running e f =
        subst (Ended queued running) (waiting e) (again_running (rw f refl) (rw f refl))
    ended queued completed e f =
        subst (Ended queued completed) (waiting e) (again_finished (rw f refl) (rw f refl))
    ended queued failed e f =
        subst (Ended queued completed) (waiting e) (again_finished (rw f refl) (rw f refl))
    ended queued cancelled e f =
        subst (Ended queued completed) (waiting e) (again_finished (rw f refl) (rw f refl))
    ended running running e f = flagged-Ended (rw f refl) e
    ended running queued e f = refused-Ended (rw f refl) e
    ended running completed e f = refused-Ended (rw f refl) e
    ended running failed e f = refused-Ended (rw f refl) e
    ended running cancelled e f = refused-Ended (rw f refl) e
    ended completed actual e f = stopped-Ended (rw e refl) (rw e refl)
    ended failed actual e f = stopped-Ended (rw e refl) (rw e refl)
    ended cancelled actual e f = stopped-Ended (rw e refl) (rw e refl)

-- In a session that has written nothing yet and sees one row for each id, a cancellation of a job of
-- this owner that was read with one status and has this or another one by now: a job read and still queued becomes cancelled; a job read as
-- queued and claimed since, or read as running and still running, stays with its worker and is
-- flagged, and the caller gets the row as it then is. In every other case the caller gets a conflict
-- and the committed row is as it was.
pub cancel_job_lem :
    (service : AnalysisJobService) (job row : AnalysisJob) (s : Session)
    → IsKeyed job_key s.work.jobs
    → find job_key job.id s.work.jobs ≡ some row
    → row.owner_id ≡ service.owner_id
    → s.committed ≡ s.work
    → let (r, after) = cancel_job service job s in
      CancelledAs job.status row.status
        (service.clock s.ticks)
        (service.clock (suc s.ticks))
        row
        r
        (find job_key job.id after.committed.jobs)
cancel_job_lem service job row s k here mine clean =
    ended service job row s k here mine clean job.status row.status refl refl
