-- ===== src/Tests/Sessions.antt =====
-- The theorems on sessions at a database of two repositories, whose first has a job that waits and
-- whose second one that runs, and a failed snapshot with two facts beside a sealed one with one.
use partha.Prelude.{◌≡◌, refl, false, none, some, List, [], ◌∷◌}
use partha.Table.{find}
use partha.Jobs.{queued, git, job_key, Stage}
use partha.Jobs.Valid.{IsQueue}
use partha.Database.{
  RepositoryRecord, RepositoryStatus, RiSnapshot, SnapshotState, Fact, node, edge, Database,
}
use partha.Session.{Session, Exec, pure, ok}
use partha.Retention.{purge_snapshot_facts}
use partha.Retention.Purge.{purged, purge_snapshot_facts_lem}
use partha.Worker.{AnalysisWorker}
use partha.Worker.Run.{run_once}
use partha.Worker.Sweep.{sweep_stale}
use partha.JobService.{AnalysisJobService}
use partha.JobService.Cancel.{flagged_job, cancel_job, cancel}
use partha.JobService.Final.{cancel_keeps_final}
use partha.JobService.Outcome.{cancel_job_lem}
use partha.System.{session, commits, Step, poll, sweep, cancelled, submitted, start, step}
use partha.Worker.{StageContext}
use partha.Worker.Valid.{IsSound}
use partha.JobService.Submit.{submit}
use partha.System.Reachable.{Steps-IsQueue}
use partha.Tests.{busy_job, failed_job, three_jobs, three_jobs-IsKeyed, three_jobs-IsQueue}

abbrev repository : RepositoryRecord
repository = record {
  id = 11;
  owner_id = 5;
  revision_kind = some git;
  revision_value = some 9;
  status = RepositoryStatus.analysing;
  analysis_stage = none;
  analysis_progress = 0;
  analysed_at = none;
  error_message = none;
}

abbrev sealed_one : RiSnapshot
sealed_one = record {
  snapshot_id = 21;
  repository_id = 12;
  revision_kind = git;
  revision_value = 9;
  schema_version = 1;
  producer_set_hash = 2;
  config_hash = 4;
  state = SnapshotState.sealed;
  canonical_graph_hash = some 77;
  failure_code = none;
  created_at = 50;
  sealed_at = some 60;
}

abbrev failed_one : RiSnapshot
failed_one = record sealed_one {
  snapshot_id = 22;
  state = SnapshotState.failed;
  canonical_graph_hash = none;
  sealed_at = none;
}

abbrev facts : List Fact
facts =
    record { table = node; snapshot_id = 22 }
    ∷ record { table = node; snapshot_id = 21 }
    ∷ record { table = edge; snapshot_id = 22 }
    ∷ []

abbrev database : Database
database = record {
  jobs = three_jobs;
  repositories = repository ∷ record repository { id = 12 } ∷ record repository { id = 13 } ∷ [];
  snapshots = sealed_one ∷ failed_one ∷ [];
  facts = facts;
}

abbrev fresh_session : Session
fresh_session = session database 0

abbrev worker : AnalysisWorker
worker = record { worker_id = 8; lease_seconds = 60; clock = λ n. n }

abbrev service : AnalysisJobService
service = record {
  owner_id = 5;
  config_hash = 4;
  schema_version = 1;
  producer_set_hash = 2;
  clock = λ n. n;
}

-- Stages that find nothing to write.
abbrev run_stage : Stage → StageContext → Exec (Unit {0})
run_stage stage ctx = pure tt

run_stage-IsSound :
    (stage : Stage) (ctx : StageContext) (s : Session)
    → IsSound s
    → IsSound (run_stage stage ctx s).1
unfolding pure
run_stage-IsSound stage ctx s h = h

abbrev polled : Database
polled = commits (run_once worker run_stage) database 0

abbrev swept : Database
swept = commits (sweep_stale worker) polled 100

abbrev quiet : Database
quiet = commits (cancel service (λ _. false) 12) swept 200

abbrev resubmitted : Database
resubmitted = commits (submit service (λ db. db) 4 13) database 0

-- A poll, a sweep and a cancellation.
Steps-IsQueue_example : IsQueue quiet.jobs
Steps-IsQueue_example =
    Steps-IsQueue run_stage (λ db. db) run_stage-IsSound (λ db v. v) database quiet
      (step swept quiet
        (step polled swept (step database polled start (poll worker 0)) (sweep worker 100))
        (cancelled service (λ _. false) 12 200))
      three_jobs-IsQueue

-- A submission for the repository whose job has failed takes a new id.
resubmission : Step run_stage (λ db. db) database resubmitted
resubmission = submitted service 4 13 0 refl

purge_snapshot_facts_lem_example :
    purge_snapshot_facts 22 fresh_session
    ≡ (ok 2, record fresh_session { committed = purged 22 database; work = purged 22 database })
purge_snapshot_facts_lem_example = purge_snapshot_facts_lem 22 fresh_session

cancel_keeps_final_example :
    find job_key 3 (cancel service (λ _. false) 11 fresh_session).1.committed.jobs ≡ some failed_job
cancel_keeps_final_example =
    cancel_keeps_final service failed_job refl (λ _. false) 11 fresh_session refl refl

-- Job 2 was read as queued, and worker 7 has claimed it since.
cancel_job_lem_example :
    let (r, after) = cancel_job service (record busy_job { status = queued }) fresh_session in
    (r ≡ ok (flagged_job 1 busy_job))
    × (find job_key 2 after.committed.jobs ≡ some (flagged_job 1 busy_job))
cancel_job_lem_example =
    cancel_job_lem service (record busy_job { status = queued }) busy_job fresh_session
      three_jobs-IsKeyed refl refl refl
