-- ===== src/ControlPlane/Reclaim.antt =====
-- `reclaim` of control_plane.py: taking an expired job over, and what its old owner can still do.
use mathlib.Core.Path.{subst}
use mathlib.Core.Option.{some-injective}
use partha.Prelude.{
  ℕ, ◌≤◌, ◌<◌, ◌≡◌, refl, ◌≢◌, ◌⊎◌, Bool, true, false, ◌&&◌, Option, none, some, arith, inl, inr,
  sym, ap, ◌∙◌, same_value, before, ◌==◌,
}
use partha.Table.{find, IsKeyed}
use partha.Table.Laws.{update_row-IsKeyed}
use partha.Table.Cases.{update_row_cases}
use partha.Jobs.{AnalysisJob, job_key, running, is_running}
use partha.ControlPlane.{lease_until, JobLease, Jobs, lost, renew, reclaim, update_owned}
use partha.ControlPlane.Ownership.{update_owned_fenced, renew_fenced}

-- The guard of `reclaim`: the row still has the owner and the lease that were read, and the lease
-- lies before now.
abbrev pub reclaimable : ℕ → AnalysisJob → AnalysisJob → Bool
reclaimable now job j =
    is_running j.status
    && same_value j.worker_id job.worker_id
    && same_value j.lease_expires_at job.lease_expires_at
    && before j.lease_expires_at now

-- What `reclaim` of the row `job`, as read before, has done.
abbrev pub Reclaimed : ℕ → ℕ → AnalysisJob → ℕ → Jobs → Option JobLease × Jobs → Type 0
Reclaimed lease_seconds now job worker jobs (none, after) =
    (after ≡ jobs)
    × ((j : AnalysisJob) → find job_key job.id jobs ≡ some j → reclaimable now job j ≡ false)
Reclaimed lease_seconds now job worker jobs (some lease, after) =
    (j : AnalysisJob) × (t : ℕ) × (find job_key job.id jobs ≡ some j)
    × (j.status ≡ running)
    × (j.worker_id ≡ job.worker_id)
    × (job.lease_expires_at ≡ some t)
    × (j.lease_expires_at ≡ some t)
    × (t < now)
    × (lease.job_id ≡ job.id)
    × (lease.worker_id ≡ worker)
    × (lease.expires_at ≡ lease_until lease_seconds now)
    × (find job_key job.id after
        ≡ some (record j {
          worker_id = some worker;
          lease_expires_at = some (lease_until lease_seconds now);
          updated_at = now;
        }))
    × ((i : ℕ) → i ≢ job.id → find job_key i after ≡ find job_key i jobs)

lapsed_lease :
    (now : ℕ) (o o' : Option ℕ)
    → (same_value o o' && before o now) ≡ true
    → (t : ℕ) × (o' ≡ some t) × (o ≡ some t) × (t < now)
lapsed_lease now none none h = cc
lapsed_lease now none (some b) h = cc
lapsed_lease now (some a) none h = cc
lapsed_lease now (some a) (some b) h = (a, ground arith, refl, ground arith)

reclaimable_facts :
    (now : ℕ) (job j : AnalysisJob)
    → reclaimable now job j ≡ true
    → (j.status ≡ running)
      × (j.worker_id ≡ job.worker_id)
      × ((same_value j.lease_expires_at job.lease_expires_at && before j.lease_expires_at now)
          ≡ true)
reclaimable_facts now job j h = ground arith

module _ (lease_seconds now : ℕ) (job : AnalysisJob) (worker : ℕ) (jobs : Jobs)
    (k : IsKeyed job_key jobs) where
  -- In a table with one row for each id: a reclaim that gets a lease has found the row running under
  -- the owner and the lease that were read, and that lease before now; the row is the new worker's,
  -- under a lease of the full length and with its attempts as they were, and no other row changes. A
  -- reclaim that gets none has found the row otherwise, and changes nothing.
  pub reclaim_lem :
      Reclaimed lease_seconds now job worker jobs (reclaim lease_seconds now job worker jobs)
  unfolding reclaim
  reclaim_lem =
      elim (update_row_cases job_key job.id (reclaimable now job)
        (λ j. record j {
          worker_id = some worker;
          lease_expires_at = some (lease_until lease_seconds now);
          updated_at = now;
        })
        (λ r. refl) jobs k) [
          | inl m ↦ rw m.counted (refl, m.refused)
          | inr (j, h) ↦
              let (is_run, same, lapsed) = reclaimable_facts now job j h.passed in
              let (t, read, stands, early) =
                lapsed_lease now j.lease_expires_at job.lease_expires_at lapsed in
              rw h.counted (
                j, t, h.found, is_run, same, read, stands, early, refl, refl, refl, h.updated,
                h.others,
              )
        ]

  -- An active lease is never stolen, in a table with one row for each id: while the lease of the row
  -- has not lapsed, or is not the one that was read, a reclaim gets nothing and changes nothing.
  pub reclaim_active :
      (j : AnalysisJob) (t : ℕ)
      → find job_key job.id jobs ≡ some j
      → j.lease_expires_at ≡ some t
      → (now ≤ t) ⊎ (job.lease_expires_at ≢ some t)
      → reclaim lease_seconds now job worker jobs ≡ (none, jobs)
  unfolding reclaim
  reclaim_active j t here leased held =
      elim (update_row_cases job_key job.id (reclaimable now job)
        (λ j. record j {
          worker_id = some worker;
          lease_expires_at = some (lease_until lease_seconds now);
          updated_at = now;
        })
        (λ r. refl) jobs k) [
          | inl m ↦ rw m.counted
          | inr (x, h) ↦
              let (_, _, lapsed) = reclaimable_facts now job x h.passed in
              let (u, read, stands, early) =
                lapsed_lease now x.lease_expires_at job.lease_expires_at lapsed in
              let same : x ≡ j = some-injective x j (sym h.found ∙ here) in
              let same_lease : u ≡ t =
                some-injective u t
                  (sym stands ∙ ap (λ (r : AnalysisJob). r.lease_expires_at) same ∙ leased) in
              elim held [
                | inl later ↦ absurd (omega arith)
                | inr moved ↦ absurd (moved (read ∙ ap some same_lease))
              ]
        ]

  pub reclaim-IsKeyed : IsKeyed job_key (reclaim lease_seconds now job worker jobs).1
  unfolding reclaim
  reclaim-IsKeyed =
      let after =
        update_row-IsKeyed job_key job.id (reclaimable now job)
          (λ j. record j {
            worker_id = some worker;
            lease_expires_at = some (lease_until lease_seconds now);
            updated_at = now;
          })
          (λ r. refl) jobs k in
      ground (arith, after)

not_owner : (b : Bool) (worker owner : ℕ) → owner ≢ worker → (b && worker == owner) ≡ false
not_owner b worker owner ne = ground arith

-- Fencing, in a table with one row for each id: after another worker has reclaimed the job, its old
-- owner can neither write to it, with values that leave the id as it is, nor renew its lease where
-- the renewal meets no lock; what it tries changes nothing.
pub fenced_after_reclaim :
    (lease_seconds now now' : ℕ) (job : AnalysisJob) (owner worker : ℕ) (jobs : Jobs)
    → IsKeyed job_key jobs
    → owner ≢ worker
    → (lease : JobLease) (after : Jobs)
    → reclaim lease_seconds now job worker jobs ≡ (some lease, after)
    → (old : JobLease) → old.job_id ≡ job.id
    → old.worker_id ≡ owner
    → (values : AnalysisJob → AnalysisJob) → ((j : AnalysisJob) → (values j).id ≡ j.id)
    → (require : Bool)
    → (update_owned job.id owner values require after ≡ (false, after))
      × (renew lease_seconds false now' old after
          ≡ (record { outcome = lost; cancel_requested = false; expires_at = none }, after))
fenced_after_reclaim lease_seconds now now' job owner worker jobs k ne lease after won old same_job
      is_owner values same_id require =
    let (j, t, _, _, _, _, _, _, _, _, _, taken, _) =
      subst (Reclaimed lease_seconds now job worker jobs) won
        (reclaim_lem lease_seconds now job worker jobs k) in
    let k' =
      subst (λ r. IsKeyed job_key r.1) won (reclaim-IsKeyed lease_seconds now job worker jobs k) in
    let new = record j {
      worker_id = some worker;
      lease_expires_at = some (lease_until lease_seconds now);
      updated_at = now;
    } in
    (
      update_owned_fenced job.id owner values require after same_id k' new taken (ground arith),
      renew_fenced lease_seconds now' old after k' new (rw same_job taken)
          (rw is_owner (not_owner (is_running j.status) worker owner ne)),
    )
