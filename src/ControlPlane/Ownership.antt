-- ===== src/ControlPlane/Ownership.antt =====
-- `renew` and `update_owned` of control_plane.py: who may write to a running job.
use mathlib.Core.Option.{some-injective}
use partha.Prelude.{
  ℕ, ◌≡◌, refl, ◌≢◌, Bool, true, false, ◌&&◌, none, some, arith, inl, inr, sym, ap, ◌∙◌,
  holds_value,
}
use partha.Table.{find, IsKeyed}
use partha.Table.Laws.{update_row-IsKeyed}
use partha.Table.Cases.{update_row_cases}
use partha.Jobs.{AnalysisJob, job_key, running, is_running}
use partha.ControlPlane.{
  lease_until, JobLease, Jobs, RenewalOutcome, renewed, lost, deferred, LeaseRenewal, renew,
  is_owned, update_owned,
}

-- What a guarded write of `worker` to the job has done.
abbrev pub OwnedUpdate : ℕ → ℕ → (AnalysisJob → AnalysisJob) → Bool → Jobs → Bool × Jobs → Type 0
OwnedUpdate job_id worker values require jobs (false, after) =
    (after ≡ jobs)
    × ((j : AnalysisJob) → find job_key job_id jobs ≡ some j → is_owned worker require j ≡ false)
OwnedUpdate job_id worker values require jobs (true, after) =
    (j : AnalysisJob) × (find job_key job_id jobs ≡ some j)
    × (j.status ≡ running)
    × (j.worker_id ≡ some worker)
    × (require ≡ true → j.cancel_requested ≡ false)
    × (find job_key job_id after ≡ some (values j))
    × ((i : ℕ) → i ≢ job_id → find job_key i after ≡ find job_key i jobs)

owned_facts :
    (worker : ℕ) (require : Bool) (j : AnalysisJob)
    → is_owned worker require j ≡ true
    → (j.status ≡ running)
      × (j.worker_id ≡ some worker)
      × (require ≡ true → j.cancel_requested ≡ false)
owned_facts worker require j h = ground arith

module _ (job_id worker : ℕ) (values : AnalysisJob → AnalysisJob) (require : Bool)
    (same_id : (j : AnalysisJob) → (values j).id ≡ j.id) (jobs : Jobs)
    (k : IsKeyed job_key jobs) where
  -- In a table with one row for each id, and with values that leave the id as it is: the write reports
  -- success only where the worker owns the running job and, where that is asked for, no cancellation
  -- is requested; then that row alone changes. It reports a miss only where this is not so; then
  -- nothing changes.
  pub update_owned_lem :
      OwnedUpdate job_id worker values require jobs (update_owned job_id worker values require jobs)
  unfolding update_owned
  update_owned_lem =
      elim (update_row_cases job_key job_id (is_owned worker require) values same_id jobs k) [
        | inl m ↦ rw (m.counted, m.unchanged) (refl, m.refused)
        | inr (j, h) ↦
            let (is_run, is_mine, no_cancel) = owned_facts worker require j h.passed in
            rw h.counted (j, h.found, is_run, is_mine, no_cancel, h.updated, h.others)
      ]

  pub update_owned-IsKeyed : IsKeyed job_key (update_owned job_id worker values require jobs).1
  unfolding update_owned
  update_owned-IsKeyed = update_row-IsKeyed job_key job_id _ values same_id jobs k

-- A worker whose job another worker owns cannot write to it.
pub update_owned_fenced :
    (job_id worker : ℕ) (values : AnalysisJob → AnalysisJob) (require : Bool) (jobs : Jobs)
    → ((j : AnalysisJob) → (values j).id ≡ j.id)
    → IsKeyed job_key jobs
    → (j : AnalysisJob) → find job_key job_id jobs ≡ some j
    → is_owned worker require j ≡ false
    → update_owned job_id worker values require jobs ≡ (false, jobs)
unfolding update_owned
update_owned_fenced job_id worker values require jobs same_id k j here other =
    elim (update_row_cases job_key job_id (is_owned worker require) values same_id jobs k) [
      | inl m ↦ rw (m.counted, m.unchanged)
      | inr (x, h) ↦
          cc (
            h.passed,
            other,
            ap (is_owned worker require) (some-injective x j (sym h.found ∙ here)),
          )
    ]

-- What a renewal has done, by its outcome.
abbrev pub RenewedAs :
    RenewalOutcome → ℕ → Bool → ℕ → JobLease → Jobs → LeaseRenewal → Jobs → Type 0
RenewedAs deferred lease_seconds locked now lease jobs r after = (locked ≡ true) × (after ≡ jobs)
RenewedAs lost lease_seconds locked now lease jobs r after =
    (after ≡ jobs)
    × ((j : AnalysisJob)
        → find job_key lease.job_id jobs ≡ some j
        → (is_running j.status && holds_value j.worker_id lease.worker_id) ≡ false)
RenewedAs renewed lease_seconds locked now lease jobs r after =
    (j : AnalysisJob) × (find job_key lease.job_id jobs ≡ some j)
    × (j.status ≡ running)
    × (j.worker_id ≡ some lease.worker_id)
    × (find job_key lease.job_id after
        ≡ some (record j {
          lease_expires_at = some (lease_until lease_seconds now);
          updated_at = now;
        }))
    × (r.cancel_requested ≡ j.cancel_requested)
    × (r.expires_at ≡ some (lease_until lease_seconds now))
    × ((i : ℕ) → i ≢ lease.job_id → find job_key i after ≡ find job_key i jobs)

renew_guard_facts :
    (worker : ℕ) (j : AnalysisJob)
    → (is_running j.status && holds_value j.worker_id worker) ≡ true
    → (j.status ≡ running) × (j.worker_id ≡ some worker)
renew_guard_facts worker j h = ground arith

module _ (lease_seconds now : ℕ) (lease : JobLease) (jobs : Jobs) (k : IsKeyed job_key jobs) where
  -- In a table with one row for each id: a renewal with the outcome renewed has extended the lease of
  -- the running job that the lease's worker owns, of that row alone, and tells whether its
  -- cancellation is requested; with the outcome lost the worker does not own the running job, with
  -- the outcome deferred the statement met a lock, and in both nothing has changed.
  pub renew_lem :
      (locked : Bool)
      → let (r, after) = renew lease_seconds locked now lease jobs in
        RenewedAs r.outcome lease_seconds locked now lease jobs r after
  unfolding renew
  renew_lem true = (refl, refl)
  renew_lem false =
      elim (update_row_cases job_key lease.job_id
        (λ j. is_running j.status && holds_value j.worker_id lease.worker_id)
        (λ j. record j {
          lease_expires_at = some (lease_until lease_seconds now);
          updated_at = now;
        })
        (λ r. refl) jobs k) [
          | inl m ↦ rw m.counted (refl, m.refused)
          | inr (j, h) ↦
              let (is_run, is_mine) = renew_guard_facts lease.worker_id j h.passed in
              rw (h.counted) (j, h.found, is_run, is_mine, h.updated, rw h.updated, refl, h.others)
        ]

  -- A worker that no longer owns the job is told so, and the job stays as it is.
  pub renew_fenced :
      (j : AnalysisJob)
      → find job_key lease.job_id jobs ≡ some j
      → (is_running j.status && holds_value j.worker_id lease.worker_id) ≡ false
      → renew lease_seconds false now lease jobs
        ≡ (record { outcome = lost; cancel_requested = false; expires_at = none }, jobs)
  unfolding renew
  renew_fenced j here other =
      elim (update_row_cases job_key lease.job_id
        (λ j. is_running j.status && holds_value j.worker_id lease.worker_id)
        (λ j. record j {
          lease_expires_at = some (lease_until lease_seconds now);
          updated_at = now;
        })
        (λ r. refl) jobs k) [
          | inl m ↦ rw m.counted
          | inr (x, h) ↦ cc (
            h.passed,
            other,
            ap (λ (r : AnalysisJob). is_running r.status && holds_value r.worker_id lease.worker_id)
                (some-injective x j (sym h.found ∙ here)),
          )
        ]
