-- ===== src/System.antt =====
-- The queue under all its users: any number of workers and services, one method after the other.
-- A worker's poll, its sweep and its heartbeat, and a service's submission, status reading and
-- cancellation each start from a session that sees what is committed, and leave what they have
-- committed, whether they return or raise. Two methods that interleave within one another are the
-- subject of the guarded statements of `ControlPlane`.
pub mod Reachable
use partha.Prelude.{ℕ, ◌≡◌, Bool, false, none}
use partha.Table.{find}
use partha.Jobs.{Stage, job_key}
use partha.Database.{Database}
use partha.Session.{Session, Exec}
use partha.ControlPlane
use partha.ControlPlane.{JobLease}
use partha.Worker.{AnalysisWorker, StageContext}
use partha.Worker.Run.{run_once}
use partha.Worker.Sweep.{sweep_stale}
use partha.JobService.{AnalysisJobService}
use partha.JobService.Cancel.{cancel}
use partha.JobService.Submit.{submit, status}

-- A session that sees what is committed.
abbrev pub session : Database → ℕ → Session
session db ticks = record { committed = db; work = db; ticks = ticks; reused = false }

-- What a method leaves in the database.
abbrev pub commits : {A : Type 0} → Exec A → Database → ℕ → Database
commits m db ticks = (m (session db ticks)).1.committed

-- `run_stage` stands for the bodies of the stages, and `others` for what other sessions commit between
-- the reads of a submission and its insert. `uuid4` gives an id that no row has.
pub data Step (run_stage : Stage → StageContext → Exec (Unit {0})) (others : Database → Database)
    (db : Database) : Database → Type 0 where
  poll :
      (w : AnalysisWorker) (ticks : ℕ)
      → Step run_stage others db (commits (run_once w run_stage) db ticks)
  sweep :
      (w : AnalysisWorker) (ticks : ℕ) → Step run_stage others db (commits (sweep_stale w) db ticks)
  heartbeat :
      (lease_seconds now : ℕ) (locked : Bool) (lease : JobLease)
      → Step run_stage others db
          (record db { jobs = (ControlPlane.renew lease_seconds locked now lease db.jobs).1 })
  submitted :
      (service : AnalysisJobService) (fresh repository_id ticks : ℕ)
      → find job_key fresh (others db).jobs ≡ none
      → Step run_stage others db (commits (submit service others fresh repository_id) db ticks)
  read_status :
      (service : AnalysisJobService) (fresh repository_id ticks : ℕ)
      → find job_key fresh (others db).jobs ≡ none
      → Step run_stage others db (commits (status service others fresh repository_id) db ticks)
  cancelled :
      (service : AnalysisJobService) (busy : ℕ → Bool) (repository_id ticks : ℕ)
      → Step run_stage others db (commits (cancel service busy repository_id) db ticks)

pub data Steps (run_stage : Stage → StageContext → Exec (Unit {0})) (others : Database → Database)
    (db : Database) : Database → Type 0 where
  start : Steps run_stage others db db
  step :
      (middle after : Database)
      → Steps run_stage others db middle
      → Step run_stage others middle after
      → Steps run_stage others db after
