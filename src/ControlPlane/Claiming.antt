-- ===== src/ControlPlane/Claiming.antt =====
-- `claim` of control_plane.py: who gets which job.
use partha.Prelude.{
  ℕ, ◌+◌, ◌≡◌, refl, ◌≢◌, true, false, Option, none, some, arith, leb→le, sym, ap, ◌∙◌,
  Option-cases, inl, inr, All, [], ◌∷◌, ◌≤◌,
}
use mathlib.Core.Path.{subst}
use mathlib.Core.Option.{some-injective}
use partha.Table.{find, IsKeyed, update_row}
use partha.Table.Laws.{update_row-IsKeyed}
use partha.Table.Cases.{update_row_cases}
use partha.Table.Select.{first_by}
use partha.Table.Select.First.{first_by-none, first_by-some, first_by_found, IsFirst}
use partha.Jobs.{AnalysisJob, job_key, queued, is_queued}
use partha.ControlPlane.{
  lease_until, JobLease, Jobs, created_le, is_eligible, next_eligible_job_id, claimed_by,
  claim_candidate, claim,
}

-- What a claim by `worker` at `now` has done to the queue, by its result.
abbrev pub ClaimedCandidate : ℕ → ℕ → ℕ → ℕ → Jobs → Option JobLease × Jobs → Type 0
ClaimedCandidate lease_seconds now worker candidate jobs (none, after) =
    (after ≡ jobs) × ((j : AnalysisJob) → find job_key candidate jobs ≡ some j → j.status ≢ queued)
ClaimedCandidate lease_seconds now worker candidate jobs (some lease, after) =
    (j : AnalysisJob) × (find job_key candidate jobs ≡ some j)
    × (j.status ≡ queued)
    × (find job_key candidate after
        ≡ some (claimed_by now (lease_until lease_seconds now) worker j))
    × (lease ≡ record {
      job_id = candidate;
      worker_id = worker;
      expires_at = lease_until lease_seconds now;
      attempt = j.attempt + 1;
    })
    × ((i : ℕ) → i ≢ candidate → find job_key i after ≡ find job_key i jobs)

-- What `claim` has done: nothing, where no job is eligible; or it has taken the eligible job that was
-- created first, and no other row has changed.
abbrev pub Claimed : ℕ → ℕ → ℕ → Jobs → Option JobLease × Jobs → Type 0
Claimed lease_seconds now worker jobs (none, after) =
    (after ≡ jobs) × All (λ j. is_eligible now j ≡ false) jobs
Claimed lease_seconds now worker jobs (some lease, after) =
    (j : AnalysisJob) × (find job_key lease.job_id jobs ≡ some j)
    × (is_eligible now j ≡ true)
    × All (λ other. is_eligible now other ≡ true → j.created_at ≤ other.created_at) jobs
    × (find job_key lease.job_id after
        ≡ some (claimed_by now (lease_until lease_seconds now) worker j))
    × (lease.worker_id ≡ worker)
    × (lease.expires_at ≡ lease_until lease_seconds now)
    × (lease.attempt ≡ j.attempt + 1)
    × ((i : ℕ) → i ≢ lease.job_id → find job_key i after ≡ find job_key i jobs)

module _ (lease_seconds now worker candidate : ℕ) (jobs : Jobs) (k : IsKeyed job_key jobs) where
  pub claim_candidate_lem :
      ClaimedCandidate lease_seconds now worker candidate jobs
        (claim_candidate lease_seconds now worker candidate jobs)
  unfolding claim_candidate
  claim_candidate_lem =
      elim (update_row_cases job_key candidate (λ j. is_queued j.status)
        (claimed_by now (lease_until lease_seconds now) worker) (λ r. refl) jobs k) [
          | inl m ↦ rw (m.counted, m.unchanged) (refl, λ j e q. cc (m.refused j e, q))
          | inr (j, h) ↦
              rw (h.counted, h.updated) (j, h.found, ground arith, h.updated, refl, h.others)
        ]

eligible_is_queued : (now : ℕ) (j : AnalysisJob) → is_eligible now j ≡ true → j.status ≡ queued
eligible_is_queued now j h = ground arith

created_first :
    (now : ℕ) (j : AnalysisJob) (jobs : Jobs)
    → IsFirst created_le (is_eligible now) j jobs
    → All (λ other. is_eligible now other ≡ true → j.created_at ≤ other.created_at) jobs
created_first now j [] h = tt
created_first now j (x ∷ jobs) h = ((λ e. leb→le _ _ (h.0 e)), created_first now j jobs h.1)

module _ (lease_seconds now worker : ℕ) (jobs : Jobs) (j : AnalysisJob)
    (here : find job_key j.id jobs ≡ some j) (passes : is_eligible now j ≡ true)
    (best : IsFirst created_le (is_eligible now) j jobs) where
  Claimed-of_candidate :
      (r : Option JobLease × Jobs)
      → ClaimedCandidate lease_seconds now worker j.id jobs r
      → Claimed lease_seconds now worker jobs r
  Claimed-of_candidate (none, after) h = absurd (h.1 j here (eligible_is_queued now j passes))
  Claimed-of_candidate (some lease, after) (x, there, q, claimed, is_lease, others) =
      let same_id : lease.job_id ≡ j.id = ap (λ (l : JobLease). l.job_id) is_lease in
      let same_job : x ≡ j = some-injective x j (sym there ∙ here) in
      (
        j,
        rw same_id here,
        passes,
        created_first now j jobs best,
        rw same_id (claimed ∙ rw same_job),
        ap (λ (l : JobLease). l.worker_id) is_lease,
        ap (λ (l : JobLease). l.expires_at) is_lease,
        ap (λ (l : JobLease). l.attempt) is_lease ∙ rw same_job,
        rw same_id others,
      )

-- In a table with one row for each id, `claim` takes an eligible job that no other eligible job was
-- created before: it is the worker's, running, under a lease of the full length and with one attempt
-- more, and no other row changes. Or no job is eligible, and nothing changes.
pub claim_lem :
    (lease_seconds now worker : ℕ) (jobs : Jobs)
    → IsKeyed job_key jobs
    → Claimed lease_seconds now worker jobs (claim lease_seconds now worker jobs)
unfolding claim next_eligible_job_id
claim_lem lease_seconds now worker jobs k =
    elim (Option-cases (first_by created_le (is_eligible now) jobs)) [
      | inl e ↦
          let nothing : claim lease_seconds now worker jobs ≡ (none, jobs) = ground arith in
          subst (Claimed lease_seconds now worker jobs) (sym nothing)
            (refl, first_by-none created_le (is_eligible now) jobs e)
      | inr (j, e) ↦
          let (passes, best) =
            first_by-some created_le (λ a. ground arith) (λ a b c p q. ground arith)
              (λ a b p. ground arith) (is_eligible now) jobs e in
          let here = first_by_found job_key created_le (is_eligible now) jobs k e in
          let took : claim lease_seconds now worker jobs
              ≡ claim_candidate lease_seconds now worker j.id jobs =
            ground arith in
          subst (Claimed lease_seconds now worker jobs) (sym took) (
            Claimed-of_candidate lease_seconds now worker jobs j here passes best
              (claim_candidate lease_seconds now worker j.id jobs)
              (claim_candidate_lem lease_seconds now worker j.id jobs k))
    ]

module _ (lease_seconds now worker candidate : ℕ) where
  pub claim_candidate-table :
      (jobs : Jobs)
      → (claim_candidate lease_seconds now worker candidate jobs).1
        ≡ (update_row job_key candidate
            (λ j. is_queued j.status)
            (claimed_by now (lease_until lease_seconds now) worker)
            jobs).0
  unfolding claim_candidate
  claim_candidate-table jobs = ground arith

  pub claim_candidate-IsKeyed :
      (jobs : Jobs)
      → IsKeyed job_key jobs
      → IsKeyed job_key (claim_candidate lease_seconds now worker candidate jobs).1
  claim_candidate-IsKeyed jobs k =
      rw (claim_candidate-table jobs) (update_row-IsKeyed job_key candidate _ _ (λ r. refl) jobs k)

  -- A row that is not queued cannot be claimed.
  pub claim_candidate_refused :
      (jobs : Jobs) (j : AnalysisJob)
      → IsKeyed job_key jobs
      → find job_key candidate jobs ≡ some j
      → is_queued j.status ≡ false
      → claim_candidate lease_seconds now worker candidate jobs ≡ (none, jobs)
  unfolding claim_candidate
  claim_candidate_refused jobs j k here idle =
      elim (update_row_cases job_key candidate (λ j. is_queued j.status)
        (claimed_by now (lease_until lease_seconds now) worker) (λ r. refl) jobs k) [
          | inl m ↦ rw (m.counted, m.unchanged)
          | inr (x, h) ↦ cc (
            h.passed,
            idle,
            ap (λ (r : AnalysisJob). is_queued r.status) (some-injective x j (sym h.found ∙ here)),
          )
        ]

-- Two workers that have both read the same candidate in a table with one row for each id, at whatever
-- times they go on: once one of them has won the row, the other gets nothing and changes nothing.
pub claim_race :
    (lease_seconds now now' worker worker' candidate : ℕ) (jobs : Jobs)
    → IsKeyed job_key jobs
    → (lease : JobLease) (after : Jobs)
    → claim_candidate lease_seconds now worker candidate jobs ≡ (some lease, after)
    → claim_candidate lease_seconds now' worker' candidate after ≡ (none, after)
claim_race lease_seconds now now' worker worker' candidate jobs k lease after won =
    let (j, _, _, taken, _, _) =
      subst (ClaimedCandidate lease_seconds now worker candidate jobs) won
        (claim_candidate_lem lease_seconds now worker candidate jobs k) in
    claim_candidate_refused lease_seconds now' worker' candidate after
      (claimed_by now (lease_until lease_seconds now) worker j)
      (subst (λ r. IsKeyed job_key r.1) won
        (claim_candidate-IsKeyed lease_seconds now worker candidate jobs k))
      taken refl
