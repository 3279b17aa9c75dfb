-- ===== src/Worker/Retries.antt =====
-- What follows an exception, and the sweep of expired jobs, keep the queue valid: in particular a
-- job is queued again only while it has an attempt left.
use partha.Prelude.{
  ℕ, ◌<◌, ◌≡◌, refl, Bool, true, false, Option, none, some, List, arith, leb, sym, ap, ◌∙◌,
}
use mathlib.Core.Option.{some-injective}
use partha.Table.{find}
use partha.Jobs.{AnalysisJob, ErrorCode, job_failed, job_key}
use partha.Jobs.Valid.{IsValid}
use partha.Database.{RiSnapshot}
use partha.Session.{Session, Exn, lease_lost, cancellation_observed}
use partha.Session.Rules.{
  Ensures, Ensures-bind, Ensures-catch, Ensures-pure, Ensures-raise, Ensures-gets, Ensures-if,
  Ensures-weaken,
}
use partha.Session.Keeps.{
  Keeps, keeps_rules, Keeps-bind, Keeps-option, Keeps-if, Keeps-pure, Keeps-catch, Keeps-raise,
}
use partha.Worker.{AnalysisWorker, StageContext, error_message, get_job, failed_job, requeued_job}
use partha.Worker.Endings.{already_sealed, update_owned_job, complete_at, complete_sealed_snapshot}
use partha.Worker.Retry.{
  lock_or_cancel, give_up, try_again, requeue_or_fail, retry_job, retry_or_fail, fail_exceeded,
  exceed_job, fail_resource_exceeded,
}
use partha.Worker.Valid.{
  IsSound, Keeps-update_owned_job, failed_job-IsValid, Keeps-rollback, Keeps-read_clock,
}
use partha.Worker.Soundness.{
  sound_rules, Keeps-get_job, Keeps-get_snapshot, Keeps-lock_owned_job, Keeps-fail_open_snapshot,
  Keeps-get_record, Keeps-cancel, Keeps-complete_at, Keeps-complete_sealed_snapshot,
}
use partha.Worker.Tracking.{
  Holds, HasAttempts, Holds-read_clock, Holds-get_record, Holds-get_snapshot,
  Holds-fail_open_snapshot, Ensures-requeue, Ensures-lock,
}

pub requeued_job-IsValid :
    (code : ErrorCode) (message : List ℕ) (retry_at now : ℕ) {attempt budget : ℕ} (j : AnalysisJob)
    → attempt < budget
    → IsValid j
    → j.attempt ≡ attempt
    → j.max_attempts ≡ budget
    → IsValid (requeued_job code message retry_at now j)
requeued_job-IsValid code message retry_at now j left v a b = ground arith

-- A handler that needs no more than a valid queue goes on from a tracked one.
pub of_IsSound :
    {A : Type 0} {X : List AnalysisJob → Type 0} {m : _}
    → Keeps {A = A} IsSound m
    → Ensures (Holds X) m (λ _. IsSound) (λ _. IsSound)
of_IsSound k = Ensures-weaken _ (λ s h. h.sound) (λ a s h. h) (λ e s h. h) k

-- An action that keeps what is tracked, where an exception leaves a valid queue.
pub raising-IsSound :
    {A : Type 0} {X : List AnalysisJob → Type 0} {m : _}
    → Keeps {A = A} (Holds X) m
    → Ensures (Holds X) m (λ _. Holds X) (λ _. IsSound)
raising-IsSound k = Ensures-weaken _ (λ s h. h) (λ a s h. h) (λ e s h. h.sound) k

module _ (w : AnalysisWorker) where
  pub Keeps-failed :
      (ctx : StageContext) (code : ErrorCode) (message : List ℕ) (now : ℕ)
      → Keeps IsSound (update_owned_job w ctx false (failed_job code message now))
  Keeps-failed ctx code message now =
      Keeps-update_owned_job w ctx false (failed_job code message now) (λ j. refl)
        (λ j v own. failed_job-IsValid w.worker_id now false j v own code message)

  Keeps-give_up : (ctx : StageContext) (exc : Exn) (now : ℕ) → Keeps IsSound (give_up w ctx exc now)
  unfolding give_up
  Keeps-give_up ctx exc now = search (sound_rules, Keeps-failed)

  module _ (ctx : StageContext) (exc : Exn) where
    Ensures-try_again :
        (attempt budget now : ℕ)
        → attempt < budget
        → Ensures
            (Holds (HasAttempts ctx.job_id attempt budget))
            (try_again w ctx exc attempt now)
            (λ _. IsSound)
            (λ _. IsSound)
    unfolding try_again
    Ensures-try_again attempt budget now left =
        Ensures-bind (λ _. IsSound) _ _
          (Ensures-requeue w ctx _ (λ j. refl)
            (λ j v a b. requeued_job-IsValid job_failed (error_message exc) _ now j left v a b))
          (λ _. search sound_rules)

    Ensures-requeue_or_fail :
        (job : AnalysisJob) (now : ℕ)
        → Ensures
            (Holds (HasAttempts ctx.job_id job.attempt job.max_attempts))
            (requeue_or_fail w ctx exc job now)
            (λ _. IsSound)
            (λ _. IsSound)
    unfolding requeue_or_fail
    Ensures-requeue_or_fail job now =
        Ensures-bind (λ _. Holds (HasAttempts ctx.job_id job.attempt job.max_attempts)) _ _
          (raising-IsSound (Holds-fail_open_snapshot w ctx job_failed))
          (λ _.
            Ensures-if (leb job.max_attempts job.attempt) _ _
              (λ _. of_IsSound (Keeps-give_up ctx exc now))
              (λ e. Ensures-try_again job.attempt job.max_attempts now (ground arith)))

    -- Cancelled, or locked with the attempts that were read.
    abbrev Locked : AnalysisJob → Bool → Session → Type 0
    Locked job true = IsSound
    Locked job false = Holds (HasAttempts ctx.job_id job.attempt job.max_attempts)

    Ensures-lock_or_cancel :
        (job : AnalysisJob)
        → Ensures
            (Holds (HasAttempts ctx.job_id job.attempt job.max_attempts))
            (lock_or_cancel w ctx)
            (Locked job)
            (λ _. IsSound)
    unfolding lock_or_cancel
    Ensures-lock_or_cancel job =
        Ensures-catch (λ _. IsSound) _ _
          (Ensures-bind (λ _. Locked job false) _ _ (Ensures-lock w ctx true)
            (λ _. Ensures-pure false (λ s h. h)))
          (elim [
            | cancellation_observed ↦
                Ensures-bind (λ _. IsSound) _ _ (Keeps-cancel w ctx)
                  (λ _. Ensures-pure true (λ s h. h))
            | e ↦ Ensures-raise e (λ s h. h)
          ])

-- A job as it was read, if it is there, with its attempts.
abbrev pub Tracked : ℕ → Option AnalysisJob → Session → Type 0
Tracked id none = IsSound
Tracked id (some j) = Holds (HasAttempts id j.attempt j.max_attempts)

Tracked-of_find :
    (id : ℕ) (o : Option AnalysisJob) (s : Session)
    → IsSound s
    → find job_key id s.work.jobs ≡ o
    → Tracked id o s
Tracked-of_find id none s h e = h
Tracked-of_find id (some j) s h e = record {
  sound = h;
  about = λ x found.
      let same : j ≡ x = some-injective j x (sym e ∙ found) in
      (
        ap (λ (r : AnalysisJob). r.attempt) (sym same),
        ap (λ (r : AnalysisJob). r.max_attempts) (sym same),
      );
}

pub Ensures-get_job : (id : ℕ) → Ensures IsSound (get_job id) (Tracked id) (λ _. IsSound)
unfolding get_job
Ensures-get_job id =
    Ensures-gets _ (λ s h. Tracked-of_find id (find job_key id s.work.jobs) s h refl)

module _ (w : AnalysisWorker) where
  Ensures-settle :
      (ctx : StageContext) (exc : Exn) (job : AnalysisJob) (now : ℕ) (o : Option RiSnapshot)
      → Ensures
          (Holds (HasAttempts ctx.job_id job.attempt job.max_attempts))
          (elim o [ none ↦ requeue_or_fail w ctx exc job now | some s ↦ complete_at w ctx s now ])
          (λ _. IsSound)
          (λ _. IsSound)
  Ensures-settle ctx exc job now none = Ensures-requeue_or_fail w ctx exc job now
  Ensures-settle ctx exc job now (some s) = of_IsSound (Keeps-complete_at w ctx s now)

  Ensures-retry_job :
      (ctx : StageContext) (exc : Exn) (o : Option AnalysisJob)
      → Ensures (Tracked ctx.job_id o) (retry_job w ctx exc o) (λ _. IsSound) (λ _. IsSound)
  unfolding retry_job
  Ensures-retry_job ctx exc none = Ensures-raise lease_lost (λ s h. h)
  Ensures-retry_job ctx exc (some job) =
      let T = Holds (HasAttempts ctx.job_id job.attempt job.max_attempts) in
      Ensures-bind (λ _. T) _ _ (raising-IsSound (Holds-get_record job.repository_id))
        λ record_id.
          let ctx' = record ctx { record_id = record_id } in
          Ensures-bind (λ _. T) _ _ (raising-IsSound (Holds-read_clock w.clock))
            λ now.
              Ensures-bind (Locked w ctx' exc job) _ _ (Ensures-lock_or_cancel w ctx' exc job)
                (elim [
                  | true ↦ Ensures-pure tt (λ s h. h)
                  | false ↦
                      Ensures-bind (λ _. T) _ _
                        (raising-IsSound (Holds-get_snapshot job.snapshot_id))
                        (λ snapshot. Ensures-settle ctx' exc job now (already_sealed snapshot))
                ])

  -- The bounded retry keeps the queue valid.
  pub Keeps-retry_or_fail :
      (ctx : StageContext) (exc : Exn) → Keeps IsSound (retry_or_fail w ctx exc)
  unfolding retry_or_fail
  Keeps-retry_or_fail ctx exc =
      Ensures-bind (λ _. IsSound) _ _ Keeps-rollback
        λ _.
          Ensures-bind (Tracked ctx.job_id) _ _ (Ensures-get_job ctx.job_id)
            (Ensures-retry_job ctx exc)

  Keeps-lock_or_cancel : (ctx : StageContext) → Keeps IsSound (lock_or_cancel w ctx)
  unfolding lock_or_cancel
  Keeps-lock_or_cancel ctx =
      Keeps-catch _ _ (Keeps-bind _ _ (Keeps-lock_owned_job w ctx true) (λ _. Keeps-pure false))
        (elim [ cancellation_observed ↦ search (keeps_rules, Keeps-cancel) | e ↦ Keeps-raise e ])

  Keeps-fail_exceeded :
      (ctx : StageContext) (exc : Exn) (now : ℕ) → Keeps IsSound (fail_exceeded w ctx exc now)
  unfolding fail_exceeded
  Keeps-fail_exceeded ctx exc now =
      search (sound_rules, Keeps-fail_open_snapshot, Keeps-failed) depth 7

  Keeps-exceed_job :
      (ctx : StageContext) (exc : Exn) (o : Option AnalysisJob)
      → Keeps IsSound (exceed_job w ctx exc o)
  unfolding exceed_job
  Keeps-exceed_job ctx exc none = search keeps_rules
  Keeps-exceed_job ctx exc (some job) =
      Keeps-bind _ _ (Keeps-get_record job.repository_id) λ record_id.
        let ctx' = record ctx { record_id = record_id } in
        Keeps-bind _ _ (Keeps-read_clock w.clock) λ now.
          Keeps-bind _ _ (Keeps-lock_or_cancel ctx') λ was_cancelled.
            Keeps-if was_cancelled _ _ (Keeps-pure tt) (
              Keeps-bind _ _ (Keeps-get_snapshot job.snapshot_id) λ snapshot.
                Keeps-option (already_sealed snapshot) _ (complete_sealed_snapshot w ctx')
                  (Keeps-fail_exceeded ctx' exc now) (Keeps-complete_sealed_snapshot w ctx'))

  -- So does the terminal failure of a run that exceeds its budget.
  pub Keeps-fail_resource_exceeded :
      (ctx : StageContext) (exc : Exn) → Keeps IsSound (fail_resource_exceeded w ctx exc)
  unfolding fail_resource_exceeded
  Keeps-fail_resource_exceeded ctx exc =
      search (keeps_rules, Keeps-rollback, Keeps-get_job, Keeps-exceed_job)
