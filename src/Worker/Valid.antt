-- ===== src/Worker/Valid.antt =====
-- The endings of a job keep the queue valid, in the committed rows and in the open transaction.
use partha.Prelude.{ℕ, ◌≡◌, refl, Bool, true, Option, none, some, arith}
use partha.Jobs.{AnalysisJob}
use partha.Jobs.Valid.{IsValid, IsQueue}
use partha.Database.{Database}
use partha.Session.{Session, modify, commit, rollback, read_clock, statement}
use partha.Session.Rules.{Ensures-modify, Ensures-commit, Ensures-rollback, Ensures-read_clock}
use partha.Session.Keeps.{Keeps, keeps_rules, Keeps-bind, Keeps-pure}
use partha.ControlPlane.{is_owned}
use partha.ControlPlane.Valid.{update_owned-IsQueue}
use partha.Worker.{
  AnalysisWorker, StageContext, edit_record, completed_job, finished_job, cancelled_job, failed_job,
}
use partha.Worker.Endings.{update_owned_job}

pub record IsSound (s : Session) : Type 0 where
  pub stored : IsQueue s.committed.jobs
  pub open_rows : IsQueue s.work.jobs

pub Keeps-commit : Keeps IsSound commit
Keeps-commit =
    Ensures-commit IsSound (λ s h. record { stored = h.open_rows; open_rows = h.open_rows })

pub Keeps-rollback : Keeps IsSound rollback
Keeps-rollback =
    Ensures-rollback IsSound (λ s h. record { stored = h.stored; open_rows = h.stored })

pub Keeps-read_clock : (clock : ℕ → ℕ) → Keeps IsSound (read_clock clock)
Keeps-read_clock clock =
    Ensures-read_clock (λ _. IsSound) clock
      (λ s h. record { stored = h.stored; open_rows = h.open_rows })

-- An action on the other tables.
pub Keeps-modify :
    (f : Database → Database) → ((db : Database) → (f db).jobs ≡ db.jobs) → Keeps IsSound (modify f)
Keeps-modify f same =
    Ensures-modify IsSound f (λ s h. record { stored = h.stored; open_rows = rw same h.open_rows })

pub Keeps-edit_record : (id : Option ℕ) (f : _) → Keeps IsSound (edit_record id f)
unfolding edit_record
Keeps-edit_record none f = Keeps-pure tt
Keeps-edit_record (some id) f = Keeps-modify _ (λ db. refl)

pub Keeps-statement :
    {A : Type 0} (f : Database → A × Database)
    → ((db : Database) → IsQueue db.jobs → IsQueue (f db).1.jobs)
    → Keeps IsSound (statement f)
unfolding statement
Keeps-statement f keep = record {
  at = λ s h. record { stored = h.stored; open_rows = keep s.work h.open_rows };
}

module _ (w : AnalysisWorker) (ctx : StageContext) where
  -- A guarded write whose values keep a running job of this worker valid.
  pub Keeps-update_owned_job :
      (require : Bool) (values : AnalysisJob → AnalysisJob)
      → ((j : AnalysisJob) → (values j).id ≡ j.id)
      → ((j : AnalysisJob) → IsValid j → is_owned w.worker_id require j ≡ true → IsValid (values j))
      → Keeps IsSound (update_owned_job w ctx require values)
  unfolding update_owned_job
  Keeps-update_owned_job require values same keep =
      Keeps-bind _ _
        (Keeps-statement _
          (λ db v. update_owned-IsQueue ctx.job_id w.worker_id require values same keep db.jobs v))
        (λ held. search (keeps_rules, Keeps-rollback))

-- The rows that the terminal updates write are valid.
module _ (worker now : ℕ) (require : Bool) (j : AnalysisJob) (v : IsValid j)
    (own : is_owned worker require j ≡ true) where
  pub completed_job-IsValid : (at : ℕ) → IsValid (completed_job at now j)
  completed_job-IsValid at = ground arith

  pub finished_job-IsValid : IsValid (finished_job now j)
  finished_job-IsValid = ground arith

  pub cancelled_job-IsValid : IsValid (cancelled_job now j)
  cancelled_job-IsValid = ground arith

  pub failed_job-IsValid : (code : _) (message : _) → IsValid (failed_job code message now j)
  failed_job-IsValid code message = ground arith
