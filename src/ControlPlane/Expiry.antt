-- ===== src/ControlPlane/Expiry.antt =====
-- `expired_job_ids` and `lease_expired` of control_plane.py.
use partha.Prelude.{
  ℕ, ◌≤◌, ◌<◌, ◌≡◌, refl, sym, ◌∙◌, ◌↔◌, Bool, true, false, Option, none, some, List, [], ◌∷◌, map,
  arith, All, length, ltb, before, ◌&&◌,
}
use partha.Table.{rowcount}
use partha.Table.Select.{select_by, IsSorted}
use partha.Table.Select.Rows.{All-select_by, All-of_select_by, length-select_by, select_by-IsSorted}
use partha.Jobs.{JobStatus, AnalysisJob, is_running}
use partha.ControlPlane.{
  Jobs, DateTime, instant, is_expired, lapse_le, expired_job_ids, lease_expired,
}

-- A running job whose lease ended before the moment.
pub record HasLapsed (moment : ℕ) (j : AnalysisJob) : Type 0 where
  pub running : j.status ≡ JobStatus.running
  pub ended : (e : ℕ) × (j.lease_expires_at ≡ some e) × (e < moment)

-- The lease of one job ended before that of the other, or at the same time and the job is not younger.
abbrev pub IsEarlier : AnalysisJob → AnalysisJob → Type 0
IsEarlier a b =
    (e f : ℕ)
    → a.lease_expires_at ≡ some e
    → b.lease_expires_at ≡ some f
    → (e ≤ f) × (e ≡ f → a.created_at ≤ b.created_at)

-- Every job is earlier than all that follow it.
abbrev pub OldestFirst : List AnalysisJob → Type 0
OldestFirst [] = Unit
OldestFirst (j ∷ later) = All (IsEarlier j) later × OldestFirst later

is_running_iff : (s : JobStatus) → is_running s ≡ true → s ≡ JobStatus.running
is_running_iff JobStatus.running h = refl
is_running_iff JobStatus.queued h = cc
is_running_iff JobStatus.completed h = cc
is_running_iff JobStatus.failed h = cc
is_running_iff JobStatus.cancelled h = cc

and_both : (a b : Bool) → (a && b) ≡ true → (a ≡ true) × (b ≡ true)
and_both true b h = (refl, h)
and_both false b h = cc

before_some :
    (o : Option ℕ) (moment : ℕ) → before o moment ≡ true → (e : ℕ) × (o ≡ some e) × (e < moment)
before_some none moment h = cc
before_some (some e) moment h = (e, refl, ground arith)

is_expired-HasLapsed :
    (moment : ℕ) (j : AnalysisJob) → is_expired moment j ≡ true → HasLapsed moment j
is_expired-HasLapsed moment j h =
    let (runs, ended) = and_both (is_running j.status) (before j.lease_expires_at moment) h in
    record {
      running = is_running_iff j.status runs;
      ended = before_some j.lease_expires_at moment ended;
    }

HasLapsed-is_expired :
    (moment : ℕ) (j : AnalysisJob) → HasLapsed moment j → is_expired moment j ≡ true
HasLapsed-is_expired moment j h =
    let (e, lease, lapsed) = h.ended in rw (h.running, lease) (ground arith)

lapse_le-IsEarlier : (a b : AnalysisJob) → lapse_le a b ≡ true → IsEarlier a b
lapse_le-IsEarlier a b h e f p q = ground (arith, (rw (p, q) at h))

same_bool : (a b : Bool) → (a ≡ true) ↔ (b ≡ true) → a ≡ b
same_bool true b h = sym (h.0 refl)
same_bool false true h = h.1 refl
same_bool false false h = refl

rowcount_agree :
    (p q : AnalysisJob → Bool) (jobs : Jobs)
    → ((j : AnalysisJob) → (p j ≡ true) ↔ (q j ≡ true))
    → rowcount p jobs ≡ rowcount q jobs
rowcount_agree p q [] h = refl
rowcount_agree p q (j ∷ jobs) h = rw (rowcount_agree p q jobs h, same_bool (p j) (q j) (h j)) refl

All-map :
    {P Q : AnalysisJob → Type 0}
    → ((j : AnalysisJob) → P j → Q j)
    → (rows : List AnalysisJob) → All P rows
    → All Q rows
All-map f [] h = tt
All-map f (j ∷ rows) h = (f j h.0, All-map f rows h.1)

OldestFirst-of_sorted : (rows : List AnalysisJob) → IsSorted lapse_le rows → OldestFirst rows
OldestFirst-of_sorted [] s = tt
OldestFirst-of_sorted (j ∷ later) (first, s) =
    (All-map (lapse_le-IsEarlier j) later first, OldestFirst-of_sorted later s)

-- The scan lists the ids of running jobs whose lease ended before the moment: a predicate holds of
-- all the rows it lists exactly when it holds of every such job of the table, and they are as many as
-- any test of that kind counts. The lease of each ended no later than those of the rows after it, and
-- of two that ended together the job created first comes first.
pub expired_job_ids_lem :
    (moment : ℕ) (jobs : Jobs)
    → (rows : List AnalysisJob) × (expired_job_ids moment jobs ≡ map (λ j. j.id) rows)
      × OldestFirst rows
      × ((Q : AnalysisJob → Type 0) → All Q rows ↔ All (λ j. HasLapsed moment j → Q j) jobs)
      × ((p : AnalysisJob → Bool)
          → ((j : AnalysisJob) → (p j ≡ true) ↔ HasLapsed moment j)
          → length rows ≡ rowcount p jobs)
unfolding expired_job_ids
expired_job_ids_lem moment jobs =
    let rows = select_by lapse_le (is_expired moment) jobs in
    (
      rows,
      refl,
      OldestFirst-of_sorted rows (
          select_by-IsSorted lapse_le (λ a b c p q. ground arith) (λ a b p. ground arith)
            (is_expired moment) jobs),
      λ Q. (
        λ all.
            All-map (λ j f l. f (HasLapsed-is_expired moment j l)) jobs
              (All-of_select_by lapse_le (is_expired moment) Q jobs all),
        λ all.
            All-select_by lapse_le (is_expired moment) Q jobs
              (All-map (λ j f e. f (is_expired-HasLapsed moment j e)) jobs all),
      ),
      λ p agrees.
          length-select_by lapse_le (is_expired moment) jobs
          ∙ rowcount_agree (is_expired moment) p jobs (λ j. (
            λ e. (agrees j).1 (is_expired-HasLapsed moment j e),
            λ e. HasLapsed-is_expired moment j ((agrees j).0 e),
          )),
    )

-- Naive and aware timestamps compare by their instants, in every mixture, and without an error.
pub lease_expired_lem :
    (lease now : DateTime) → lease_expired lease now ≡ some (ltb (instant lease) (instant now))
unfolding lease_expired
lease_expired_lem lease now = ground arith
