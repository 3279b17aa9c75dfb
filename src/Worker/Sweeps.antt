-- ===== src/Worker/Sweeps.antt =====
-- The sweep of expired jobs and the run of a claimed job keep the queue valid.
use partha.Prelude.{
  ℕ, suc, ◌+◌, ◌≡◌, refl, ◌≢◌, Bool, true, false, ◌&&◌, Option, none, some, List, [], ◌∷◌, arith,
  ltb, ◌==◌, ==_iff, if◌then◌else◌, sym, ◌∙◌, Bool-cases, inl, inr, before,
}
use mathlib.Core.Path.{subst}
use mathlib.Core.Option.{some-injective}
use partha.Table.{find, update_row}
use partha.Table.Laws.{touch, find-update_row_self, find-update_row_ne}
use partha.Table.Cases.{find-key}
use partha.Jobs.{AnalysisJob, job_stale, job_key, is_running}
use partha.Database.{RiSnapshot}
use partha.Session.{Session, ◌>>◌, statement, gets}
use partha.Session.Rules.{Ensures, Ensures-bind, Ensures-pure, Ensures-if}
use partha.Session.Keeps.{Keeps, keeps_rules, Keeps-bind, Keeps-pure}
use partha.ControlPlane.{lease_until, JobLease, reclaim}
use partha.ControlPlane.Valid.{reclaim-IsQueue}
use partha.Retention.{purge_each, purge_orphaned_failed_facts}
use partha.Worker.{AnalysisWorker, StageContext, stale_message, get_job}
use partha.Worker.Endings.{already_sealed, fail_building, complete_at}
use partha.Worker.Sweep.{
  reclaim_job, requeue_or_fail_stale, settle_stale, reconcile_stale, sweep_job, sweep_jobs,
  sweep_stale,
}
use partha.Worker.Valid.{IsSound, Keeps-rollback}
use partha.Worker.Soundness.{sound_rules, Keeps-cancel, Keeps-complete_at, Keeps-purge}
use partha.Worker.Tracking.{
  Holds, HasAttempts, Holds-read_clock, Holds-get_record, Holds-get_snapshot, Holds-fail_building,
  Ensures-requeue,
}
use partha.Worker.Retries.{
  Tracked, Ensures-get_job, raising-IsSound, requeued_job-IsValid, Keeps-failed, of_IsSound,
}

module _ (attempt budget : ℕ) (p : AnalysisJob → Bool) (f : AnalysisJob → AnalysisJob)
    (same : (j : AnalysisJob) → (f j).id ≡ j.id)
    (same_attempt : (j : AnalysisJob) → (f j).attempt ≡ j.attempt)
    (same_budget : (j : AnalysisJob) → (f j).max_attempts ≡ j.max_attempts) where
  touch-attempts :
      (o : Option AnalysisJob) (x : AnalysisJob)
      → ((j : AnalysisJob) → o ≡ some j → (j.attempt ≡ attempt) × (j.max_attempts ≡ budget))
      → touch p f o ≡ some x
      → (x.attempt ≡ attempt) × (x.max_attempts ≡ budget)
  touch-attempts none x h e = cc
  touch-attempts (some j) x h e =
      subst (λ (r : AnalysisJob). (r.attempt ≡ attempt) × (r.max_attempts ≡ budget))
        (some-injective (if p j then f j else j) x e) (kept (p j))
    where
      kept :
          (b : Bool)
          → ((if b then f j else j).attempt ≡ attempt)
            × ((if b then f j else j).max_attempts ≡ budget)
      kept true = (same_attempt j ∙ (h j refl).0, same_budget j ∙ (h j refl).1)
      kept false = h j refl

  -- An update that leaves the attempts of each row alone.
  HasAttempts-update_row :
      (id i : ℕ) (jobs : List AnalysisJob)
      → HasAttempts id attempt budget jobs
      → HasAttempts id attempt budget (update_row job_key i p f jobs).0
  HasAttempts-update_row id i jobs h x found = elim (Bool-cases (id == i)) [
    | inr other ↦
        let apart : id ≢ i = λ e. cc ((==_iff id i).1 e, other) in
        h x (sym (find-update_row_ne job_key i p f same id apart jobs) ∙ found)
    | inl here ↦
        let at_i : id ≡ i = (==_iff id i).0 here in
        touch-attempts (find job_key i jobs) x (λ j e. h j (rw at_i e))
          (sym (find-update_row_self job_key i p f same jobs) ∙ (rw at_i at found))
  ]

pick-HasAttempts :
    {A : Type 0} (id attempt budget : ℕ) (b : Bool) (x y : A) (jobs after : List AnalysisJob)
    → HasAttempts id attempt budget jobs
    → HasAttempts id attempt budget after
    → HasAttempts id attempt budget
        (if◌then◌else◌ {A = A × List AnalysisJob} b (x, jobs) (y, after)).1
pick-HasAttempts id attempt budget true x y jobs after h k = h
pick-HasAttempts id attempt budget false x y jobs after h k = k

reclaim-HasAttempts :
    (lease_seconds now : ℕ) (job : AnalysisJob) (worker : ℕ) (jobs : List AnalysisJob)
    (id attempt budget : ℕ)
    → HasAttempts id attempt budget jobs
    → HasAttempts id attempt budget (reclaim lease_seconds now job worker jobs).1
unfolding reclaim
reclaim-HasAttempts lease_seconds now job worker jobs id attempt budget h =
    pick-HasAttempts id attempt budget _ none _ jobs _ h (
      HasAttempts-update_row attempt budget _
        (λ j. record j {
          worker_id = some worker;
          lease_expires_at = some (lease_until lease_seconds now);
          updated_at = now;
        })
        (λ j. refl) (λ j. refl) (λ j. refl) id job.id jobs h)

-- What a job that was read is known by, after the attempt to reclaim it.
abbrev Reclaiming : AnalysisJob → Option JobLease → Session → Type 0
Reclaiming job none = IsSound
Reclaiming job (some _) = Holds (HasAttempts job.id job.attempt job.max_attempts)

module _ (w : AnalysisWorker) where
  Ensures-reclaim_job :
      (job : AnalysisJob)
      → Ensures
          (Holds (HasAttempts job.id job.attempt job.max_attempts))
          (reclaim_job w job)
          (Reclaiming job)
          (λ _. IsSound)
  unfolding reclaim_job statement
  Ensures-reclaim_job job =
      let T = Holds (HasAttempts job.id job.attempt job.max_attempts) in
      Ensures-bind (λ _. T) _ _ (raising-IsSound (Holds-read_clock w.clock))
        λ now.
          Ensures-bind (λ _. T) _ _
            (record {
              at = λ s h. record {
                sound = record {
                  stored = h.sound.stored;
                  open_rows =
                      reclaim-IsQueue w.lease_seconds now w.worker_id s.work.jobs h.sound.open_rows
                        job;
                };
                about =
                    reclaim-HasAttempts w.lease_seconds now job w.worker_id s.work.jobs job.id
                      job.attempt job.max_attempts h.about;
              };
            })
            (elim [
              | none ↦
                  Ensures-bind (λ _. IsSound) _ _ (of_IsSound Keeps-rollback)
                    (λ _. Ensures-pure none (λ s h. h))
              | some l ↦ Ensures-pure (some l) (λ s h. h)
            ])

  Ensures-requeue_or_fail_stale :
      (ctx : StageContext) (job : AnalysisJob) (now : ℕ)
      → Ensures
          (Holds (HasAttempts ctx.job_id job.attempt job.max_attempts))
          (requeue_or_fail_stale w ctx job now)
          (λ _. IsSound)
          (λ _. IsSound)
  unfolding requeue_or_fail_stale
  Ensures-requeue_or_fail_stale ctx job now =
      Ensures-if (ltb job.attempt job.max_attempts) _ _
        (λ left.
          Ensures-bind (λ _. IsSound) _ _
            (Ensures-requeue w ctx _ (λ j. refl)
              (λ j v a b.
                requeued_job-IsValid job_stale stale_message _ now j (ground arith) v a b))
            (λ _. search sound_rules))
        (λ _. of_IsSound (search (sound_rules, Keeps-failed)))

  Ensures-unsealed :
      (ctx : StageContext) (job : AnalysisJob) (now : ℕ) (snapshot o : Option RiSnapshot)
      → Ensures
          (Holds (HasAttempts ctx.job_id job.attempt job.max_attempts))
          (elim o [
            | some s ↦ complete_at w ctx s now
            | none ↦ fail_building snapshot job_stale >> requeue_or_fail_stale w ctx job now
          ])
          (λ _. IsSound)
          (λ _. IsSound)
  Ensures-unsealed ctx job now snapshot none =
      Ensures-bind (λ _. Holds (HasAttempts ctx.job_id job.attempt job.max_attempts)) _ _
        (raising-IsSound (Holds-fail_building snapshot job_stale))
        (λ _. Ensures-requeue_or_fail_stale ctx job now)
  Ensures-unsealed ctx job now snapshot (some s) = of_IsSound (Keeps-complete_at w ctx s now)

  Ensures-settle_stale :
      (job : AnalysisJob) (now : ℕ)
      → Ensures
          (Holds (HasAttempts job.id job.attempt job.max_attempts))
          (settle_stale w job now)
          (λ _. IsSound)
          (λ _. IsSound)
  unfolding settle_stale
  Ensures-settle_stale job now =
      let T = Holds (HasAttempts job.id job.attempt job.max_attempts) in
      Ensures-bind (λ _. T) _ _ (raising-IsSound (Holds-get_record job.repository_id))
        λ record_id.
          Ensures-bind (λ _. T) _ _ (raising-IsSound (Holds-get_snapshot job.snapshot_id))
            λ snapshot.
              let ctx : StageContext = record { job_id = job.id; record_id = record_id } in
              Ensures-if job.cancel_requested _ _ (λ _. of_IsSound (Keeps-cancel w ctx))
                (λ _. Ensures-unsealed ctx job now snapshot (already_sealed snapshot))

  Ensures-reconcile_stale :
      (job : AnalysisJob) (now : ℕ)
      → Ensures
          (Holds (HasAttempts job.id job.attempt job.max_attempts))
          (reconcile_stale w job now)
          (λ _. IsSound)
          (λ _. IsSound)
  unfolding reconcile_stale
  Ensures-reconcile_stale job now =
      Ensures-bind (Reclaiming job) _ _ (Ensures-reclaim_job job) (elim [
        | none ↦ Ensures-pure false (λ s h. h)
        | some l ↦
            Ensures-bind (λ _. IsSound) _ _ (Ensures-settle_stale job now)
              (λ _. Ensures-pure true (λ s h. h))
      ])

  Ensures-sweep_job :
      (id now : ℕ) (o : Option AnalysisJob)
      → ((j : AnalysisJob) → o ≡ some j → j.id ≡ id)
      → Ensures (Tracked id o) (sweep_job w now o) (λ _. IsSound) (λ _. IsSound)
  unfolding sweep_job
  Ensures-sweep_job id now none own = Ensures-pure false (λ s h. h)
  Ensures-sweep_job id now (some job) own =
      Ensures-if (is_running job.status && before job.lease_expires_at now) _ _
        (λ _. rw (← own job refl) (Ensures-reconcile_stale job now))
        (λ _. of_IsSound (Keeps-pure false))

  -- The row that a sweep reads, which stands under the id that it has asked for.
  abbrev Found : ℕ → Option AnalysisJob → Session → Type 0
  Found id o s = Tracked id o s × ((j : AnalysisJob) → o ≡ some j → j.id ≡ id)

  Ensures-Found : (id : ℕ) → Ensures IsSound (get_job id) (Found id) (λ _. IsSound)
  unfolding get_job gets
  Ensures-Found id = record {
    at = λ s h. ((Ensures-get_job id).at s h, λ j e. find-key job_key id s.work.jobs e);
  }

  Ensures-swept :
      (id now : ℕ) (o : Option AnalysisJob)
      → Ensures (Found id o) (sweep_job w now o) (λ _. IsSound) (λ _. IsSound)
  Ensures-swept id now o = record { at = λ s h. (Ensures-sweep_job id now o h.1).at s h.0 }

  -- A sweep is one reconciliation after the other.
  Keeps-sweep_jobs : (now : ℕ) (ids : List ℕ) → Keeps IsSound (sweep_jobs w now ids)
  unfolding sweep_jobs
  Keeps-sweep_jobs now [] = Keeps-pure 0
  Keeps-sweep_jobs now (id ∷ ids) = Ensures-bind (Found id) _ _ (Ensures-Found id) λ job.
      Ensures-bind (λ _. IsSound) _ _ (Ensures-swept id now job)
        λ swept.
          Keeps-bind _ _ (Keeps-sweep_jobs now ids)
            (λ count. Keeps-pure (if swept then suc count else count))

  Keeps-purge_each : (ids : List ℕ) → Keeps IsSound (purge_each ids)
  unfolding purge_each
  Keeps-purge_each [] = Keeps-pure 0
  Keeps-purge_each (id ∷ ids) =
      Keeps-bind _ _ (Keeps-purge id)
        λ removed. Keeps-bind _ _ (Keeps-purge_each ids) (λ rest. Keeps-pure (removed + rest))

  Keeps-purge_orphaned : (limit : ℕ) → Keeps IsSound (purge_orphaned_failed_facts limit)
  unfolding purge_orphaned_failed_facts
  Keeps-purge_orphaned limit = search (keeps_rules, Keeps-purge_each)

  -- The sweep keeps the queue valid.
  pub Keeps-sweep_stale : Keeps IsSound (sweep_stale w)
  unfolding sweep_stale
  Keeps-sweep_stale = search (sound_rules, Keeps-purge_orphaned, Keeps-sweep_jobs) depth 8
