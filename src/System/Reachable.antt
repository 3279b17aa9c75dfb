-- ===== src/System/Reachable.antt =====
-- What holds of every database that the system reaches.
use partha.Prelude.{ℕ, ◌≡◌, none}
use partha.Table.{find}
use partha.Jobs.{Stage, job_key}
use partha.Jobs.Valid.{IsQueue}
use partha.Database.{Database}
use partha.Session.{Exec, Session, Outcome, ok, raised}
use partha.Session.Rules.{Post}
use partha.Worker.{StageContext}
use partha.Session.Keeps.{Keeps, kept, Keeps-of_kept}
use partha.ControlPlane.Valid.{renew-IsQueue}
use partha.Worker.Valid.{IsSound}
use partha.Worker.Runs.{Keeps-run_once}
use partha.Worker.Sweeps.{Keeps-sweep_stale}
use partha.JobService.Valid.{Keeps-cancel, Admits-IsSound}
use partha.JobService.Submission.{Ends, Ends-submit, Ends-status}
use partha.System.{
  session, commits, Step, poll, sweep, heartbeat, submitted, read_status, cancelled, Steps, start,
  step,
}

session-IsQueue :
    {A : Type 0} (m : Exec A) (db : Database) (ticks : ℕ)
    → Keeps IsSound m
    → IsQueue db.jobs
    → IsQueue (commits m db ticks).jobs
session-IsQueue m db ticks k v =
    (kept m k (session db ticks) (record { stored = v; open_rows = v })).stored

inserted-IsQueue :
    {A : Type 0} (m : Exec A) (fresh : ℕ) (others : Database → Database) (db : Database) (ticks : ℕ)
    → Ends fresh others m
    → find job_key fresh (others db).jobs ≡ none
    → IsQueue db.jobs
    → IsQueue (commits m db ticks).jobs
inserted-IsQueue {A} m fresh others db ticks k new v = last (m (session db ticks)) (
    k.at (session db ticks) (record { sound = record { stored = v; open_rows = v }; new_id = new }))
  where
    last :
        (r : Outcome A × Session)
        → Post (λ _. IsSound) (λ _. IsSound) r
        → IsQueue r.1.committed.jobs
    last (ok a, t) p = p.stored
    last (raised e, t) p = p.stored

module _ (run_stage : Stage → StageContext → Exec (Unit {0})) (others : Database → Database)
    (stage_keeps : (stage : Stage) (ctx : StageContext) (s : Session)
      → IsSound s
      → IsSound (run_stage stage ctx s).1)
    (others_keep : (db : Database) → IsQueue db.jobs → IsQueue (others db).jobs) where
  Step-IsQueue :
      (db after : Database) → Step run_stage others db after → IsQueue db.jobs → IsQueue after.jobs
  Step-IsQueue db _ (poll w ticks) v =
      session-IsQueue _ db ticks
        (Keeps-run_once w run_stage (λ stage ctx. Keeps-of_kept _ (stage_keeps stage ctx))) v
  Step-IsQueue db _ (sweep w ticks) v = session-IsQueue _ db ticks (Keeps-sweep_stale w) v
  Step-IsQueue db _ (heartbeat lease_seconds now locked lease) v =
      renew-IsQueue lease_seconds now locked lease db.jobs v
  Step-IsQueue db _ (submitted service fresh repository_id ticks new) v =
      inserted-IsQueue _ fresh others db ticks
        (Ends-submit service others fresh others_keep repository_id) new v
  Step-IsQueue db _ (read_status service fresh repository_id ticks new) v =
      inserted-IsQueue _ fresh others db ticks
        (Ends-status service others fresh others_keep repository_id) new v
  Step-IsQueue db _ (cancelled service busy repository_id ticks) v =
      session-IsQueue _ db ticks (Keeps-cancel service (Admits-IsSound service) busy repository_id)
        v

  -- From a database whose queue is valid, every sequence of methods of any workers and services leads
  -- to one whose queue is valid, where the bodies of the stages keep the queue valid and so does what
  -- others commit before an insert: one row for each id; attempts within their budget; an owner and a
  -- lease on exactly the running rows; an end and its instant on the finished ones.
  pub Steps-IsQueue :
      (db after : Database) → Steps run_stage others db after → IsQueue db.jobs → IsQueue after.jobs
  Steps-IsQueue db _ start v = v
  Steps-IsQueue db _ (step middle after before next) v =
      Step-IsQueue middle after next (Steps-IsQueue db middle before v)
