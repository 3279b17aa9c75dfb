-- ===== src/Tests.antt =====
-- The theorems at concrete queues. Job 1 waits, job 2 runs on worker 7 under a lease that lapses at
-- the second 60, job 3 has failed.
pub mod Sessions
pub mod Limits
pub mod Budgets
pub mod Paths
pub mod Snapshots
pub mod Guard
pub mod Reuse
pub mod Derivations
pub mod Nodes
use partha.Prelude.{
  ℕ, suc, ◌+◌, ◌≤◌, ◌≡◌, ◌≢◌, refl, Bool, true, false, Option, none, some, List, [], ◌∷◌, All,
  arith, inl, inr, length, ltb, map, ◌↔◌,
}
use partha.Table.{find, IsKeyed, update_row, rowcount}
use partha.Table.Select.{first_by, select_by, IsSorted}
use partha.Jobs.{
  JobStatus, queued, running, completed, failed, cancelled, git, job_failed, seconds, AnalysisJob,
  job_key, Stage,
}
use partha.Jobs.Valid.{IsValid, IsQueue}
use partha.Database.{Database}
use partha.Session.{Session, Exec, pure, ok}
use partha.ControlPlane.{
  JobLease, Jobs, lease_until, claimed_by, claim_candidate, claim, reclaim, update_owned, renew,
  expired_job_ids, DateTime, naive, aware, lease_expired, instant, lost, deferred, renewed,
  LeaseRenewal,
}
use partha.ControlPlane.Claiming.{Claimed, claim_lem, claim_race}
use partha.ControlPlane.Ownership.{OwnedUpdate, update_owned_lem, RenewedAs, renew_lem}
use partha.ControlPlane.Reclaim.{Reclaimed, reclaim_lem, reclaim_active, fenced_after_reclaim}
use partha.ControlPlane.Expiry.{HasLapsed, OldestFirst, expired_job_ids_lem, lease_expired_lem}
use partha.Worker.{finished_job}

abbrev pub waiting : AnalysisJob
waiting = record {
  id = 1;
  repository_id = 11;
  owner_id = 5;
  revision_kind = git;
  revision_value = 9;
  config_hash = 4;
  status = queued;
  stage = none;
  progress = 0;
  attempt = 0;
  max_attempts = 3;
  cancel_requested = false;
  worker_id = none;
  lease_expires_at = none;
  next_attempt_at = none;
  snapshot_id = none;
  error_code = none;
  error_message = none;
  created_at = 100;
  updated_at = 100;
  started_at = none;
  completed_at = none;
}

abbrev pub busy_job : AnalysisJob
busy_job = record waiting {
  id = 2;
  repository_id = 12;
  status = running;
  attempt = 1;
  worker_id = some 7;
  lease_expires_at = some (seconds 60);
  started_at = some 200;
}

abbrev pub failed_job : AnalysisJob
failed_job = record waiting {
  id = 3;
  repository_id = 13;
  status = failed;
  attempt = 3;
  error_code = some job_failed;
  started_at = some 200;
  completed_at = some 300;
}

abbrev pub three_jobs : Jobs
three_jobs = waiting ∷ busy_job ∷ failed_job ∷ []

pub three_jobs-IsKeyed : IsKeyed job_key three_jobs
three_jobs-IsKeyed = (refl, (refl, (refl, tt)))

pub three_jobs-IsQueue : IsQueue three_jobs
three_jobs-IsQueue = record {
  keyed = three_jobs-IsKeyed;
  valid = (ground arith, (ground arith, (ground arith, tt)));
}

claim_lem_example : Claimed 60 1000 8 three_jobs (claim 60 1000 8 three_jobs)
claim_lem_example = claim_lem 60 1000 8 three_jobs three_jobs-IsKeyed

abbrev lease_of_8 : JobLease
lease_of_8 = record { job_id = 1; worker_id = 8; expires_at = lease_until 60 1000; attempt = 1 }

abbrev after_claim : Jobs
after_claim = claimed_by 1000 (lease_until 60 1000) 8 waiting ∷ busy_job ∷ failed_job ∷ []

claim_of_1 : claim_candidate 60 1000 8 1 three_jobs ≡ (some lease_of_8, after_claim)
unfolding claim_candidate update_row
claim_of_1 = refl

claim_race_example : claim_candidate 60 1001 9 1 after_claim ≡ (none, after_claim)
claim_race_example =
    claim_race 60 1000 1001 8 9 1 three_jobs three_jobs-IsKeyed lease_of_8 after_claim claim_of_1

abbrev at_61 : ℕ
at_61 = seconds 61

reclaim_lem_example :
    Reclaimed 60 at_61 busy_job 8 three_jobs (reclaim 60 at_61 busy_job 8 three_jobs)
reclaim_lem_example = reclaim_lem 60 at_61 busy_job 8 three_jobs three_jobs-IsKeyed

reclaim_active_example : reclaim 60 (seconds 59) busy_job 8 three_jobs ≡ (none, three_jobs)
reclaim_active_example =
    reclaim_active 60 (seconds 59) busy_job 8 three_jobs three_jobs-IsKeyed busy_job (seconds 60)
      refl refl (inl (ground arith))

abbrev lease_of_reclaim : JobLease
lease_of_reclaim = record {
  job_id = 2;
  worker_id = 8;
  expires_at = lease_until 60 at_61;
  attempt = 1;
}

abbrev after_reclaim : Jobs
after_reclaim =
    waiting
    ∷ record busy_job {
      worker_id = some 8;
      lease_expires_at = some (lease_until 60 at_61);
      updated_at = at_61;
    }
    ∷ failed_job
    ∷ []

reclaim_of_2 : reclaim 60 at_61 busy_job 8 three_jobs ≡ (some lease_of_reclaim, after_reclaim)
unfolding reclaim update_row
reclaim_of_2 = refl

abbrev lease_of_7 : JobLease
lease_of_7 = record { job_id = 2; worker_id = 7; expires_at = seconds 60; attempt = 1 }

fenced_after_reclaim_example :
    (update_owned 2 7 (finished_job 9) false after_reclaim ≡ (false, after_reclaim))
    × (renew 60 false 9 lease_of_7 after_reclaim
        ≡ (record { outcome = lost; cancel_requested = false; expires_at = none }, after_reclaim))
fenced_after_reclaim_example =
    fenced_after_reclaim 60 at_61 9 busy_job 7 8 three_jobs three_jobs-IsKeyed (ground arith)
      lease_of_reclaim after_reclaim reclaim_of_2 lease_of_7 refl refl (finished_job 9) (λ j. refl)
      false

update_owned_lem_example :
    OwnedUpdate 2 7
      (finished_job 9)
      true
      three_jobs
      (update_owned 2 7 (finished_job 9) true three_jobs)
update_owned_lem_example =
    update_owned_lem 2 7 (finished_job 9) true (λ j. refl) three_jobs three_jobs-IsKeyed

renew_lem_example :
    let (r, after) = renew 60 false 9 lease_of_7 three_jobs in
    RenewedAs r.outcome 60 false 9 lease_of_7 three_jobs r after
renew_lem_example = renew_lem 60 9 lease_of_7 three_jobs three_jobs-IsKeyed false

expired_job_ids_lem_example :
    (rows : List AnalysisJob) × (expired_job_ids at_61 three_jobs ≡ map (λ j. j.id) rows)
    × OldestFirst rows
    × ((Q : AnalysisJob → Type 0) → All Q rows ↔ All (λ j. HasLapsed at_61 j → Q j) three_jobs)
    × ((p : AnalysisJob → Bool)
        → ((j : AnalysisJob) → (p j ≡ true) ↔ HasLapsed at_61 j)
        → length rows ≡ rowcount p three_jobs)
expired_job_ids_lem_example = expired_job_ids_lem at_61 three_jobs

lease_expired_lem_example : lease_expired (naive 3) (aware 4) ≡ some (ltb 3 4)
lease_expired_lem_example = lease_expired_lem (naive 3) (aware 4)
