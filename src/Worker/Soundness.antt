-- ===== src/Worker/Soundness.antt =====
-- Every ending of a job keeps the queue valid, however it goes on and whatever it raises.
use partha.Prelude.{ℕ, refl, Bool, true, false, Option, none, some, arith}
use partha.Jobs.{Stage, ErrorCode}
use partha.Database.{RiSnapshot}
use partha.Session.{Raised, lease_lost}
use partha.Session.Keeps.{
  Keeps, keeps_rules, Keeps-pure, Keeps-gets, Keeps-if, Keeps-bind, Keeps-catch, Keeps-option,
}
use partha.Retention.{delete_snapshot_facts, purge_snapshot_facts}
use partha.Worker.{
  AnalysisWorker, StageContext, get_job, get_snapshot, get_record, finished_job, cancelled_job,
}
use partha.Worker.Endings.{
  mark_failed, already_sealed, update_owned_job, observe_cancellation, lock_owned_job,
  fail_building, fail_open_snapshot, complete_at, complete_sealed_snapshot, cancel_unsealed, cancel,
  cancel_accepted, complete, checkpoint,
}
use partha.Worker.Valid.{
  IsSound, Keeps-commit, Keeps-rollback, Keeps-read_clock, Keeps-modify, Keeps-edit_record,
  Keeps-statement, Keeps-update_owned_job, completed_job-IsValid, finished_job-IsValid,
  cancelled_job-IsValid,
}

pub ruleset sound_rules =
    (keeps_rules, Keeps-commit, Keeps-rollback, Keeps-read_clock, Keeps-edit_record)

pub Keeps-get_job : (id : ℕ) → Keeps IsSound (get_job id)
unfolding get_job
Keeps-get_job id = search keeps_rules

pub Keeps-get_record : (id : ℕ) → Keeps IsSound (get_record id)
unfolding get_record
Keeps-get_record id = search keeps_rules

pub Keeps-get_snapshot : (id : Option ℕ) → Keeps IsSound (get_snapshot id)
unfolding get_snapshot
Keeps-get_snapshot none = search keeps_rules
Keeps-get_snapshot (some id) = search keeps_rules

Keeps-delete : (id : ℕ) → Keeps IsSound (delete_snapshot_facts id)
unfolding delete_snapshot_facts
Keeps-delete id = Keeps-statement _ (λ db v. v)

pub Keeps-purge : (id : ℕ) → Keeps IsSound (purge_snapshot_facts id)
unfolding purge_snapshot_facts
Keeps-purge id = search (sound_rules, Keeps-delete) depth 7

Keeps-mark_failed : (s : RiSnapshot) (code : ErrorCode) → Keeps IsSound (mark_failed s code)
unfolding mark_failed
Keeps-mark_failed s code = search (sound_rules, Keeps-purge, Keeps-modify)

pub Keeps-fail_building :
    (s : Option RiSnapshot) (code : ErrorCode) → Keeps IsSound (fail_building s code)
unfolding fail_building
Keeps-fail_building none code = search keeps_rules
Keeps-fail_building (some s) code = search (keeps_rules, Keeps-mark_failed)

module _ (w : AnalysisWorker) where
  pub Keeps-fail_open_snapshot :
      (ctx : StageContext) (code : ErrorCode) → Keeps IsSound (fail_open_snapshot w ctx code)
  unfolding fail_open_snapshot
  Keeps-fail_open_snapshot ctx code =
      search (keeps_rules, Keeps-get_job, Keeps-get_snapshot, Keeps-fail_building)

  Keeps-observe :
      (ctx : StageContext) (require : Bool) (e : Raised)
      → Keeps IsSound (observe_cancellation w ctx require e)
  unfolding observe_cancellation
  Keeps-observe ctx true lease_lost = search (keeps_rules, Keeps-get_job)
  Keeps-observe ctx _ e = search keeps_rules

  pub Keeps-lock_owned_job :
      (ctx : StageContext) (require : Bool) → Keeps IsSound (lock_owned_job w ctx require)
  unfolding lock_owned_job
  Keeps-lock_owned_job ctx require =
      Keeps-catch _ _ (Keeps-update_owned_job w ctx require (λ j. j) (λ j. refl) (λ j v _. v))
        (Keeps-observe ctx require)

  pub Keeps-complete_at :
      (ctx : StageContext) (s : RiSnapshot) (now : ℕ) → Keeps IsSound (complete_at w ctx s now)
  unfolding complete_at
  Keeps-complete_at ctx s now =
      Keeps-bind _ _
        (Keeps-update_owned_job w ctx false _ (λ j. refl)
          (λ j v own. completed_job-IsValid w.worker_id now false j v own _))
        (λ _. search sound_rules)

  pub Keeps-complete_sealed_snapshot :
      (ctx : StageContext) (s : RiSnapshot) → Keeps IsSound (complete_sealed_snapshot w ctx s)
  unfolding complete_sealed_snapshot
  Keeps-complete_sealed_snapshot ctx s = search (sound_rules, Keeps-complete_at)

  Keeps-cancelled :
      (ctx : StageContext) (now : ℕ)
      → Keeps IsSound (update_owned_job w ctx false (cancelled_job now))
  Keeps-cancelled ctx now =
      Keeps-update_owned_job w ctx false (cancelled_job now) (λ j. refl)
        (λ j v own. cancelled_job-IsValid w.worker_id now false j v own)

  Keeps-cancel_unsealed : (ctx : StageContext) → Keeps IsSound (cancel_unsealed w ctx)
  unfolding cancel_unsealed
  Keeps-cancel_unsealed ctx =
      search (sound_rules, Keeps-fail_open_snapshot, Keeps-cancelled) depth 7

  pub Keeps-cancel : (ctx : StageContext) → Keeps IsSound (cancel w ctx)
  unfolding cancel
  Keeps-cancel ctx = Keeps-bind _ _ (Keeps-lock_owned_job ctx false) λ _.
      Keeps-bind _ _ (Keeps-get_job ctx.job_id) λ job.
        Keeps-bind _ _ (Keeps-get_snapshot _) λ snapshot.
          Keeps-option (already_sealed snapshot) _ (complete_sealed_snapshot w ctx)
            (Keeps-cancel_unsealed ctx) (Keeps-complete_sealed_snapshot ctx)

  Keeps-accepted : (ctx : StageContext) (e : Raised) → Keeps IsSound (cancel_accepted w ctx e)
  unfolding cancel_accepted
  Keeps-accepted ctx lease_lost =
      search (keeps_rules, Keeps-get_job, Keeps-get_record, Keeps-cancel) depth 7
  Keeps-accepted ctx e = search keeps_rules

  Keeps-finished :
      (ctx : StageContext) (now : ℕ)
      → Keeps IsSound (update_owned_job w ctx true (finished_job now))
  Keeps-finished ctx now =
      Keeps-update_owned_job w ctx true (finished_job now) (λ j. refl)
        (λ j v own. finished_job-IsValid w.worker_id now true j v own)

  pub Keeps-complete : (ctx : StageContext) → Keeps IsSound (complete w ctx)
  unfolding complete
  Keeps-complete ctx = search (sound_rules, Keeps-finished, Keeps-accepted) depth 7

  pub Keeps-checkpoint :
      (ctx : StageContext) (stage : Stage) (progress : ℕ)
      → Keeps IsSound (checkpoint w ctx stage progress)
  unfolding checkpoint
  Keeps-checkpoint ctx stage progress = Keeps-bind _ _ (Keeps-read_clock w.clock) λ now.
      Keeps-bind _ _ (Keeps-update_owned_job w ctx false _ (λ j. refl) (λ j v own. ground arith))
        (λ _. Keeps-commit)
