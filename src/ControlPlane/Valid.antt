-- ===== src/ControlPlane/Valid.antt =====
-- Every statement of the control plane keeps the queue valid.
use partha.Prelude.{
  ℕ, ◌≡◌, refl, Bool, true, false, ◌&&◌, none, some, arith, holds_value, if◌then◌else◌,
  Option-cases, inl, inr,
}
use partha.Table.{find, update_row}
use partha.Table.Laws.{All-update_row, All-update_row_found, update_row-IsKeyed}
use partha.Table.Cases.{update_row_same}
use partha.Jobs.{AnalysisJob, job_key, is_queued, is_running}
use partha.Jobs.Valid.{IsValid, IsQueue}
use partha.ControlPlane.{
  lease_until, JobLease, Jobs, claimed_by, next_eligible_job_id, claim_candidate, claim, renew,
  reclaim, is_owned, update_owned,
}
use partha.ControlPlane.Claiming.{claim_candidate-table}

-- A guarded update whose values keep a valid row valid keeps the queue valid.
pub update_row-IsQueue :
    (i : ℕ) (p : AnalysisJob → Bool) (f : AnalysisJob → AnalysisJob)
    → ((j : AnalysisJob) → (f j).id ≡ j.id)
    → ((j : AnalysisJob) → IsValid j → p j ≡ true → IsValid (f j))
    → (jobs : Jobs) → IsQueue jobs
    → IsQueue (update_row job_key i p f jobs).0
update_row-IsQueue i p f same keep jobs v = record {
  keyed = update_row-IsKeyed job_key i p f same jobs v.keyed;
  valid = All-update_row job_key i p f IsValid keep jobs v.valid;
}

claimed_by-IsValid :
    (now expires_at worker : ℕ) (j : AnalysisJob)
    → IsValid j
    → is_queued j.status ≡ true
    → IsValid (claimed_by now expires_at worker j)
claimed_by-IsValid now expires_at worker j v q = ground arith

-- A running job may be given another owner and another lease.
leased-IsValid :
    (now expires_at worker : ℕ) (j : AnalysisJob)
    → IsValid j
    → is_running j.status ≡ true
    → IsValid
        (record j { worker_id = some worker; lease_expires_at = some expires_at; updated_at = now })
leased-IsValid now expires_at worker j v r = ground arith

extended-IsValid :
    (now expires_at worker : ℕ) (j : AnalysisJob)
    → IsValid j
    → (is_running j.status && holds_value j.worker_id worker) ≡ true
    → IsValid (record j { lease_expires_at = some expires_at; updated_at = now })
extended-IsValid now expires_at worker j v r = ground arith

pick-IsQueue :
    {A : Type 0} (b : Bool) (x y : A) (jobs after : Jobs)
    → IsQueue jobs
    → IsQueue after
    → IsQueue (if◌then◌else◌ {A = A × Jobs} b (x, jobs) (y, after)).1
pick-IsQueue true x y jobs after v w = v
pick-IsQueue false x y jobs after v w = w

module _ (lease_seconds now worker : ℕ) (jobs : Jobs) (v : IsQueue jobs) where
  pub claim_candidate-IsQueue :
      (candidate : ℕ) → IsQueue (claim_candidate lease_seconds now worker candidate jobs).1
  claim_candidate-IsQueue candidate =
      rw (claim_candidate-table lease_seconds now worker candidate jobs) (
        update_row-IsQueue candidate (λ j. is_queued j.status)
          (claimed_by now (lease_until lease_seconds now) worker) (λ r. refl)
          (claimed_by-IsValid now (lease_until lease_seconds now) worker) jobs v)

  pub claim-IsQueue : IsQueue (claim lease_seconds now worker jobs).1
  unfolding claim
  claim-IsQueue = elim (Option-cases (next_eligible_job_id now jobs)) [
    | inl e ↦ rw (e, claim) v
    | inr (candidate, e) ↦ rw (e, claim) (claim_candidate-IsQueue candidate)
  ]

  pub reclaim-IsQueue : (job : AnalysisJob) → IsQueue (reclaim lease_seconds now job worker jobs).1
  unfolding reclaim
  reclaim-IsQueue job = pick-IsQueue _ none _ jobs _ v (
      update_row-IsQueue job.id _
        (λ j. record j {
          worker_id = some worker;
          lease_expires_at = some (lease_until lease_seconds now);
          updated_at = now;
        })
        (λ r. refl)
        (λ j w p. leased-IsValid now (lease_until lease_seconds now) worker j w (ground arith)) jobs
        v)

pub renew-IsQueue :
    (lease_seconds now : ℕ) (locked : Bool) (lease : JobLease) (jobs : Jobs)
    → IsQueue jobs
    → IsQueue (renew lease_seconds locked now lease jobs).1
unfolding renew
renew-IsQueue lease_seconds now true lease jobs v = v
renew-IsQueue lease_seconds now false lease jobs v = pick-IsQueue _ _ _ jobs _ v (
    update_row-IsQueue lease.job_id
      (λ j. is_running j.status && holds_value j.worker_id lease.worker_id)
      (λ j. record j { lease_expires_at = some (lease_until lease_seconds now); updated_at = now })
      (λ r. refl) (extended-IsValid now (lease_until lease_seconds now) lease.worker_id) jobs v)

pub update_owned-IsQueue :
    (job_id worker : ℕ) (require : Bool) (values : AnalysisJob → AnalysisJob)
    → ((j : AnalysisJob) → (values j).id ≡ j.id)
    → ((j : AnalysisJob) → IsValid j → is_owned worker require j ≡ true → IsValid (values j))
    → (jobs : Jobs) → IsQueue jobs
    → IsQueue (update_owned job_id worker values require jobs).1
unfolding update_owned
update_owned-IsQueue job_id worker require values same keep jobs v =
    update_row-IsQueue job_id (is_owned worker require) values same keep jobs v

-- The values may depend on the row that is found.
pub update_owned_found-IsQueue :
    (job_id worker : ℕ) (require : Bool) (values : AnalysisJob → AnalysisJob)
    → ((j : AnalysisJob) → (values j).id ≡ j.id)
    → (jobs : Jobs) → IsQueue jobs
    → ((j : AnalysisJob)
        → find job_key job_id jobs ≡ some j
        → IsValid j
        → is_owned worker require j ≡ true
        → IsValid (values j))
    → IsQueue (update_owned job_id worker values require jobs).1
unfolding update_owned
update_owned_found-IsQueue job_id worker require values same jobs v keep = record {
  keyed = update_row-IsKeyed job_key job_id (is_owned worker require) values same jobs v.keyed;
  valid =
      All-update_row_found job_key job_id (is_owned worker require) values IsValid jobs v.keyed
        v.valid keep;
}

-- The lock sets `updated_at` to itself: the rows stay as they are.
pub update_owned_same :
    (job_id worker : ℕ) (require : Bool) (jobs : Jobs)
    → (update_owned job_id worker (λ j. j) require jobs).1 ≡ jobs
unfolding update_owned
update_owned_same job_id worker require jobs =
    update_row_same job_key job_id (is_owned worker require) jobs
