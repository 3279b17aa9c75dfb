-- ===== src/ControlPlane.antt =====
-- apps/backend/app/workers/control_plane.py: which job is eligible, and who owns it. Every method
-- is one statement on the `analysis_jobs` table, so it takes the committed table to the next one.
-- The clock is read once in each method and is an argument here. The SQLite busy timeout of
-- `renew`, which never changes the row that is written, stands as the argument `locked`.
pub mod Claiming
pub mod Ownership
pub mod Reclaim
pub mod Expiry
pub mod Valid
use partha.Prelude.{
  ℕ, ◌+◌, Bool, true, false, ◌&&◌, ◌||◌, Option, none, some, List, map, leb, ltb, ◌==◌,
  if◌then◌else◌, is_none, holds_value, same_value, before, coalesce,
}
use partha.Table.{find, update_row}
use partha.Table.Select.{first_by, select_by}
use partha.Jobs.{seconds, AnalysisJob, job_key, queued, running, is_queued, is_running}

-- A datetime of Python: with a time zone, or naive and then read as UTC.
pub data DateTime : Type 0 where
  naive aware : ℕ → DateTime

abbrev pub instant : DateTime → ℕ
instant (naive t) = t
instant (aware t) = t

-- `.replace(tzinfo=UTC)`
abbrev replace_utc : DateTime → DateTime
replace_utc d = aware (instant d)

-- Python raises a TypeError on comparing a naive with an aware datetime.
abbrev pub datetime_lt : DateTime → DateTime → Option Bool
datetime_lt (naive a) (naive b) = some (ltb a b)
datetime_lt (aware a) (aware b) = some (ltb a b)
datetime_lt _ _ = none

unfoldable pub lease_expired : DateTime → DateTime → Option Bool
lease_expired (naive a) (aware b) = datetime_lt (replace_utc (naive a)) (aware b)
lease_expired (aware a) (naive b) = datetime_lt (aware a) (replace_utc (naive b))
lease_expired a b = datetime_lt a b

pub record JobLease : Type 0 where
  pub job_id : ℕ
  pub worker_id : ℕ
  pub expires_at : ℕ
  pub attempt : ℕ

pub data RenewalOutcome : Type 0 where
  renewed lost deferred : RenewalOutcome

pub record LeaseRenewal : Type 0 where
  pub outcome : RenewalOutcome
  pub cancel_requested : Bool
  pub expires_at : Option ℕ

abbrev pub Jobs : Type 0
Jobs = List AnalysisJob

-- `_lease_until`
abbrev pub lease_until : ℕ → ℕ → ℕ
lease_until lease_seconds now = now + seconds lease_seconds

-- `created_at` ascending
abbrev pub created_le : AnalysisJob → AnalysisJob → Bool
created_le a b = leb a.created_at b.created_at

-- Queued, and not serving a retry delay.
abbrev pub is_eligible : ℕ → AnalysisJob → Bool
is_eligible moment j =
    is_queued j.status && elim j.next_attempt_at [ none ↦ true | some t ↦ leb t moment ]

unfoldable pub next_eligible_job_id : ℕ → Jobs → Option ℕ
unfolding first_by
next_eligible_job_id moment jobs = elim (first_by created_le (is_eligible moment) jobs) [
  | none ↦ none
  | some j ↦ some j.id
]

-- The `.values(...)` of a claim.
abbrev pub claimed_by : ℕ → ℕ → ℕ → AnalysisJob → AnalysisJob
claimed_by now expires_at worker j = record j {
  status = running;
  worker_id = some worker;
  lease_expires_at = some expires_at;
  started_at = some (coalesce j.started_at now);
  attempt = j.attempt + 1;
  next_attempt_at = none;
  updated_at = now;
}

module _ (lease_seconds : ℕ) where
  -- The half of `claim` that follows the read of a candidate: the compare-and-swap, the test of its
  -- row count, and the lease.
  unfoldable pub claim_candidate : ℕ → ℕ → ℕ → Jobs → Option JobLease × Jobs
  claim_candidate now worker candidate jobs =
      let expires_at = lease_until lease_seconds now in
      let (after, count) =
        update_row job_key candidate (λ j. is_queued j.status) (claimed_by now expires_at worker)
          jobs in
      if count == 0 then (none, after) else (
        elim (find job_key candidate after) [
          | none ↦ none
          | some j ↦ some (record {
            job_id = candidate;
            worker_id = worker;
            expires_at = expires_at;
            attempt = j.attempt;
          })
        ],
        after,
      )

  unfoldable pub claim : ℕ → ℕ → Jobs → Option JobLease × Jobs
  claim now worker jobs = elim (next_eligible_job_id now jobs) [
    | none ↦ (none, jobs)
    | some candidate ↦ claim_candidate now worker candidate jobs
  ]

  -- `locked`: the statement met SQLite's "database is locked".
  unfoldable pub renew : Bool → ℕ → JobLease → Jobs → LeaseRenewal × Jobs
  renew locked now lease jobs =
      let expires_at = lease_until lease_seconds now in
      let owned =
        λ (j : AnalysisJob). is_running j.status && holds_value j.worker_id lease.worker_id in
      let (after, count) =
        update_row job_key lease.job_id owned
          (λ j. record j { lease_expires_at = some expires_at; updated_at = now }) jobs in
      if locked
      then (record { outcome = deferred; cancel_requested = false; expires_at = none }, jobs)
      else if count == 0
      then (record { outcome = lost; cancel_requested = false; expires_at = none }, jobs)
      else (
        record {
          outcome = renewed;
          cancel_requested = elim (find job_key lease.job_id after) [
            | none ↦ false
            | some j ↦ j.cancel_requested
          ];
          expires_at = some expires_at;
        },
        after,
      )

  -- `job` is the row as the caller has read it.
  unfoldable pub reclaim : ℕ → AnalysisJob → ℕ → Jobs → Option JobLease × Jobs
  reclaim now job worker jobs =
      let expires_at = lease_until lease_seconds now in
      let (after, count) =
        update_row job_key job.id
          (λ j.
            is_running j.status
            && same_value j.worker_id job.worker_id
            && same_value j.lease_expires_at job.lease_expires_at
            && before j.lease_expires_at now)
          (λ j. record j {
            worker_id = some worker;
            lease_expires_at = some expires_at;
            updated_at = now;
          })
          jobs in
      if count == 0 then (none, jobs) else (
        some (record {
          job_id = job.id;
          worker_id = worker;
          expires_at = expires_at;
          attempt = job.attempt;
        }),
        after,
      )

-- Running, and the lease lies before the moment.
abbrev pub is_expired : ℕ → AnalysisJob → Bool
is_expired moment j = is_running j.status && before j.lease_expires_at moment

-- `ORDER BY lease_expires_at, created_at`
abbrev pub lapse_le : AnalysisJob → AnalysisJob → Bool
lapse_le a b =
    let x = coalesce a.lease_expires_at 0 in
    let y = coalesce b.lease_expires_at 0 in ltb x y || (x == y && leb a.created_at b.created_at)

unfoldable pub expired_job_ids : ℕ → Jobs → List ℕ
unfolding select_by
expired_job_ids moment jobs = map (λ j. j.id) (select_by lapse_le (is_expired moment) jobs)

-- The ownership guard of every write of an executor.
abbrev pub is_owned : ℕ → Bool → AnalysisJob → Bool
is_owned worker require_cancel_not_requested j =
    holds_value j.worker_id worker
    && is_running j.status
    && (if require_cancel_not_requested && j.cancel_requested then false else true)

unfoldable pub update_owned : ℕ → ℕ → (AnalysisJob → AnalysisJob) → Bool → Jobs → Bool × Jobs
update_owned job_id worker values require_cancel_not_requested jobs =
    let (after, count) =
      update_row job_key job_id (is_owned worker require_cancel_not_requested) values jobs in
    (if count == 0 then false else true, after)

unfoldable pub cancel_requested : ℕ → Jobs → Bool
cancel_requested job_id jobs = elim (find job_key job_id jobs) [
  | none ↦ false
  | some j ↦ j.cancel_requested
]
