-- ===== src/Worker/Tracking.antt =====
-- What stays true of the queue while a handler works on other tables: between the reading of a job
-- and the write that decides its retry, its attempts are what they were.
use partha.Prelude.{ℕ, ◌≡◌, refl, Bool, true, false, Option, none, some, List}
use partha.Table.{find}
use partha.Jobs.{AnalysisJob, ErrorCode, job_key}
use partha.Jobs.Valid.{IsValid}
use partha.Database.{Database, RepositoryRecord, RiSnapshot}
use partha.Session.{
  Session, Raised, lease_lost, cancellation_observed, modify, commit, read_clock, statement,
}
use partha.Session.Rules.{
  Ensures, Ensures-bind, Ensures-catch, Ensures-pure, Ensures-raise, Ensures-gets, Ensures-rollback,
  Ensures-if, Ensures-modify, Ensures-commit, Ensures-read_clock,
}
use partha.Session.Keeps.{Keeps, keeps_rules, Keeps-pure}
use partha.Retention.{delete_snapshot_facts, purge_snapshot_facts}
use partha.ControlPlane.Valid.{update_owned_found-IsQueue, update_owned_same}
use partha.Worker.{AnalysisWorker, StageContext, get_job, get_snapshot, get_record, edit_record}
use partha.Worker.Endings.{
  update_owned_job, observe_cancellation, lock_owned_job, mark_failed, fail_building,
  fail_open_snapshot,
}
use partha.Worker.Valid.{IsSound, Keeps-rollback}

-- The queue is valid, and `X` holds of it as the open transaction sees it.
pub record Holds (X : List AnalysisJob → Type 0) (s : Session) : Type 0 where
  pub sound : IsSound s
  pub about : X s.work.jobs

module _ {X : List AnalysisJob → Type 0} where
  pub Holds-commit : Keeps (Holds X) commit
  Holds-commit = Ensures-commit (Holds X) (λ s h. record {
    sound = record { stored = h.sound.open_rows; open_rows = h.sound.open_rows };
    about = h.about;
  })

  pub Holds-read_clock : (clock : ℕ → ℕ) → Keeps (Holds X) (read_clock clock)
  Holds-read_clock clock =
      Ensures-read_clock (λ _. Holds X) clock
        (λ s h. record {
          sound = record { stored = h.sound.stored; open_rows = h.sound.open_rows };
          about = h.about;
        })

  pub Holds-modify :
      (f : Database → Database)
      → ((db : Database) → (f db).jobs ≡ db.jobs)
      → Keeps (Holds X) (modify f)
  Holds-modify f same = Ensures-modify (Holds X) f (λ s h. record {
    sound = record { stored = h.sound.stored; open_rows = rw same h.sound.open_rows };
    about = rw same h.about;
  })

  pub Holds-edit_record :
      (id : Option ℕ) (f : RepositoryRecord → RepositoryRecord) → Keeps (Holds X) (edit_record id f)
  unfolding edit_record
  Holds-edit_record none f = Keeps-pure tt
  Holds-edit_record (some id) f = Holds-modify _ (λ db. refl)

  pub Holds-get_job : (id : ℕ) → Keeps (Holds X) (get_job id)
  unfolding get_job
  Holds-get_job id = search keeps_rules

  pub Holds-get_record : (id : ℕ) → Keeps (Holds X) (get_record id)
  unfolding get_record
  Holds-get_record id = search keeps_rules

  pub Holds-get_snapshot : (id : Option ℕ) → Keeps (Holds X) (get_snapshot id)
  unfolding get_snapshot
  Holds-get_snapshot none = search keeps_rules
  Holds-get_snapshot (some id) = search keeps_rules

  Holds-delete : (id : ℕ) → Keeps (Holds X) (delete_snapshot_facts id)
  unfolding delete_snapshot_facts statement
  Holds-delete id = record {
    at = λ s h. record {
      sound = record { stored = h.sound.stored; open_rows = h.sound.open_rows };
      about = h.about;
    };
  }

  pub Holds-purge : (id : ℕ) → Keeps (Holds X) (purge_snapshot_facts id)
  unfolding purge_snapshot_facts
  Holds-purge id = search (keeps_rules, Holds-commit, Holds-delete) depth 7

  Holds-mark_failed : (s : RiSnapshot) (code : ErrorCode) → Keeps (Holds X) (mark_failed s code)
  unfolding mark_failed
  Holds-mark_failed s code = search (keeps_rules, Holds-commit, Holds-purge, Holds-modify) depth 7

  pub Holds-fail_building :
      (s : Option RiSnapshot) (code : ErrorCode) → Keeps (Holds X) (fail_building s code)
  unfolding fail_building
  Holds-fail_building none code = search keeps_rules
  Holds-fail_building (some s) code = search (keeps_rules, Holds-mark_failed)

  pub Holds-fail_open_snapshot :
      (w : AnalysisWorker) (ctx : StageContext) (code : ErrorCode)
      → Keeps (Holds X) (fail_open_snapshot w ctx code)
  unfolding fail_open_snapshot
  Holds-fail_open_snapshot w ctx code =
      search (keeps_rules, Holds-get_job, Holds-get_snapshot, Holds-fail_building) depth 7

-- The row of the job, if there is one, has these attempts.
abbrev pub HasAttempts : ℕ → ℕ → ℕ → List AnalysisJob → Type 0
HasAttempts id attempt budget jobs =
    (j : AnalysisJob)
    → find job_key id jobs ≡ some j
    → (j.attempt ≡ attempt) × (j.max_attempts ≡ budget)

-- The handler of a lost lease always raises.
Ensures-observe :
    {Q : Session → Type 0} (w : AnalysisWorker) (ctx : StageContext) (require : Bool) (e : Raised)
    → Ensures IsSound (observe_cancellation w ctx require e) (λ _. Q) (λ _. IsSound)
unfolding observe_cancellation get_job
Ensures-observe w ctx true lease_lost =
    Ensures-bind (λ _. IsSound) _ _ (Ensures-gets _ (λ s h. h))
      λ current.
        Ensures-if _ _ _ (λ _. Ensures-raise cancellation_observed (λ s h. h))
          (λ _. Ensures-raise lease_lost (λ s h. h))
Ensures-observe w ctx _ e = Ensures-raise e (λ s h. h)

module _ (w : AnalysisWorker) (ctx : StageContext) {attempt budget : ℕ} where
  -- A guarded write that rests on the attempts of the row, such as the one that queues it again.
  pub Ensures-requeue :
      (values : AnalysisJob → AnalysisJob)
      → ((j : AnalysisJob) → (values j).id ≡ j.id)
      → ((j : AnalysisJob)
          → IsValid j
          → j.attempt ≡ attempt
          → j.max_attempts ≡ budget
          → IsValid (values j))
      → Ensures
          (Holds (HasAttempts ctx.job_id attempt budget))
          (update_owned_job w ctx false values)
          (λ _. IsSound)
          (λ _. IsSound)
  unfolding update_owned_job statement
  Ensures-requeue values same keep =
      Ensures-bind (λ _. IsSound) _ _
        (record {
          at = λ s h. record {
            stored = h.sound.stored;
            open_rows =
                update_owned_found-IsQueue ctx.job_id w.worker_id false values same s.work.jobs
                  h.sound.open_rows (λ j e v own. let (a, b) = h.about j e in keep j v a b);
          };
        })
        (λ held. search (keeps_rules, Keeps-rollback))

  -- The lock keeps the attempts, or raises.
  pub Ensures-lock :
      (require : Bool)
      → Ensures
          (Holds (HasAttempts ctx.job_id attempt budget))
          (lock_owned_job w ctx require)
          (λ _. Holds (HasAttempts ctx.job_id attempt budget))
          (λ _. IsSound)
  unfolding lock_owned_job update_owned_job statement
  Ensures-lock require =
      Ensures-catch (λ _. IsSound) _ _
        (Ensures-bind (λ _. Holds (HasAttempts ctx.job_id attempt budget)) _ _
          (record {
            at = λ s h. record {
              sound = record {
                stored = h.sound.stored;
                open_rows =
                    rw (update_owned_same ctx.job_id w.worker_id require s.work.jobs)
                      h.sound.open_rows;
              };
              about = rw (update_owned_same ctx.job_id w.worker_id require s.work.jobs) h.about;
            };
          })
          (λ held.
            Ensures-if held _ _ (λ _. Ensures-pure tt (λ s h. h))
              (λ _.
                Ensures-bind (λ _. IsSound) _ _
                  (Ensures-rollback IsSound
                    (λ s h. record { stored = h.sound.stored; open_rows = h.sound.stored }))
                  (λ _. Ensures-raise lease_lost (λ s h. h)))))
        (λ e. Ensures-observe w ctx require e)
