-- ===== src/JobService/Submission.antt =====
-- `submit` and `status` of the service keep the queue valid, whatever other sessions do meanwhile
-- that keeps it valid too.
use partha.Prelude.{
  ℕ, ◌≡◌, refl, true, false, Option, none, some, List, [], ◌∷◌, ◌++◌, ◌==◌, All, arith, coalesce,
  Bool-cases, inl, inr,
}
use partha.Table.{find, IsKeyed}
use partha.Jobs.{AnalysisJob, job_key}
use partha.Jobs.Valid.{IsValid, IsQueue}
use partha.Database.{RepositoryRecord, RiSnapshot, Database}
use partha.Session.{Session, Exec, Raised, integrity_error, pure, ◌>>=◌, read_clock}
use partha.Session.Rules.{
  Ensures, Ensures-modify, Ensures-read_clock, Ensures-bind, Ensures-catch, Ensures-weaken,
}
use partha.Session.Keeps.{Keeps, Keeps-pure, Keeps-raise, Keeps-if, Keeps-bind, Keeps-option}
use partha.ControlPlane.Valid.{update_row-IsQueue}
use partha.Worker.Valid.{IsSound, Keeps-commit, Keeps-rollback, Keeps-read_clock}
use partha.JobService.{AnalysisJobService}
use partha.JobService.Queries.{
  Keeps-get_record, Keeps-reload_record, Keeps-require_revision, Keeps-completed_snapshot,
  Keeps-job_for_snapshot, Keeps-effective_job, Keeps-active_job, Keeps-latest_job,
}
use partha.JobService.Rows.{collides, insert_job, reconciled_job}
use partha.JobService.Submit.{
  write_completed, reconcile_completed_job, on_integrity_error, existing_or_raise,
  insert_completed_job, effective_or_raise, insert_queued_job, submit_sealed, submit_open, submit,
  status_sealed, status,
}

find_append :
    (i : ℕ) (j : AnalysisJob) (jobs : List AnalysisJob)
    → find job_key i jobs ≡ none
    → j.id == i ≡ false
    → find job_key i (jobs ++ j ∷ []) ≡ none
find_append i j [] h ne = rw ne refl
find_append i j (x ∷ t) h ne = elim (Bool-cases (x.id == i)) [
  | inl e ↦ cc ((rw e at h))
  | inr e ↦ rw e (find_append i j t ((rw e at h)) ne)
]

-- A row with a new id and a valid content joins the queue.
append-IsKeyed :
    (j : AnalysisJob) (jobs : List AnalysisJob)
    → IsKeyed job_key jobs
    → find job_key j.id jobs ≡ none
    → IsKeyed job_key (jobs ++ j ∷ [])
append-IsKeyed j [] k h = (refl, tt)
append-IsKeyed j (x ∷ t) k h = elim (Bool-cases (x.id == j.id)) [
  | inl e ↦ cc ((rw e at h))
  | inr e ↦ (find_append x.id j t k.0 ground arith, append-IsKeyed j t k.1 ((rw e at h)))
]

All-append_one :
    (j : AnalysisJob) (jobs : List AnalysisJob)
    → All IsValid jobs
    → IsValid j
    → All IsValid (jobs ++ j ∷ [])
All-append_one j [] h v = (v, tt)
All-append_one j (x ∷ t) h v = (h.0, All-append_one j t h.1 v)

-- The queue is valid, and what others have committed by the time of an insert has no row of the id
-- that the insert takes.
pub record IsFresh (fresh : ℕ) (others : Database → Database) (s : Session) : Type 0 where
  pub sound : IsSound s
  pub new_id : find job_key fresh (others s.committed).jobs ≡ none

-- From there, the action leaves a valid queue.
abbrev pub Ends : {A : Type 0} → ℕ → (Database → Database) → Exec A → Type 0
Ends fresh others m = Ensures (IsFresh fresh others) m (λ _. IsSound) (λ _. IsSound)

module _ (fresh : ℕ) (others : Database → Database) where
  Ends-sound : {A : Type 0} (m : Exec A) → Keeps IsSound m → Ends fresh others m
  Ends-sound m k = Ensures-weaken m (λ s h. h.sound) (λ a s h. h) (λ e s h. h) k

  Ends-bind :
      {A B : Type 0} (m : Exec A) (f : A → Exec B)
      → Keeps (IsFresh fresh others) m
      → ((a : A) → Ends fresh others (f a))
      → Ends fresh others (m >>= f)
  Ends-bind m f km kf =
      Ensures-bind (λ _. IsFresh fresh others) m f
        (Ensures-weaken m (λ s h. h) (λ a s h. h) (λ e s h. h.sound) km) kf

  Ends-option :
      {A B : Type 0} (o : Option B) (m : Exec A) (f : B → Exec A)
      → Ends fresh others m
      → ((b : B) → Ends fresh others (f b))
      → Ends fresh others (elim o [ none ↦ m | some b ↦ f b ])
  Ends-option none m f km kf = km
  Ends-option (some b) m f km kf = kf b

  IsFresh-read_clock : (clock : ℕ → ℕ) → Keeps (IsFresh fresh others) (read_clock clock)
  IsFresh-read_clock clock =
      Ensures-read_clock (λ _. IsFresh fresh others) clock
        (λ s h. record {
          sound = record { stored = h.sound.stored; open_rows = h.sound.open_rows };
          new_id = h.new_id;
        })

-- What others commit before an insert keeps the queue valid.
module _ (others : Database → Database)
    (keeps : (db : Database) → IsQueue db.jobs → IsQueue (others db).jobs) where
  -- The row, whose content is valid, is new.
  Ends-insert_job :
      (row : AnalysisJob) (also : Database → Database)
      → IsValid row
      → ((db : Database) → (also db).jobs ≡ db.jobs)
      → Ends row.id others (insert_job others row also)
  unfolding insert_job
  Ends-insert_job row also v same = record {
    at = λ s h. elim (Bool-cases (collides row (others s.committed).jobs)) [
      | inl e ↦ rw e (record {
        stored = keeps s.committed h.sound.stored;
        open_rows = rw (same _) (joined s.committed h.sound.stored h.new_id);
      })
      | inr e ↦ rw e (record {
        stored = rw (same _) (joined s.committed h.sound.stored h.new_id);
        open_rows = rw (same _) (joined s.committed h.sound.stored h.new_id);
      })
    ];
  }
    where
      joined :
          (db : Database)
          → IsQueue db.jobs
          → find job_key row.id (others db).jobs ≡ none
          → IsQueue ((others db).jobs ++ row ∷ [])
      joined db h new = record {
        keyed = append-IsKeyed row (others db).jobs (keeps db h).keyed new;
        valid = All-append_one row (others db).jobs (keeps db h).valid v;
      }

module _ (service : AnalysisJobService) (others : Database → Database) where
  reconciled_job-IsValid :
      (s : RiSnapshot) (at now : ℕ) (j : AnalysisJob)
      → IsValid j
      → IsValid (reconciled_job s at now j)
  reconciled_job-IsValid s at now j v = ground arith

  Keeps-write_completed :
      (r : RepositoryRecord) (j : AnalysisJob) (s : RiSnapshot)
      → Keeps IsSound (write_completed service others r j s)
  unfolding write_completed
  Keeps-write_completed r j s = Keeps-bind _ _ (Keeps-read_clock service.clock) λ now.
      Keeps-bind _ _
        (Ensures-modify IsSound _ (λ x h. record {
          stored = h.stored;
          open_rows =
              update_row-IsQueue j.id (λ _. true) (reconciled_job s (coalesce s.sealed_at now) now)
                (λ _. refl) (λ k v _. reconciled_job-IsValid s (coalesce s.sealed_at now) now k v)
                x.work.jobs h.open_rows;
        }))
        λ _. Keeps-bind _ _ Keeps-commit λ _. Keeps-pure _

  Keeps-reconcile_completed_job :
      (r : RepositoryRecord) (j : AnalysisJob) (s : RiSnapshot)
      → Keeps IsSound (reconcile_completed_job service others r j s)
  unfolding reconcile_completed_job
  Keeps-reconcile_completed_job r j s = Keeps-if _ _ _ (Keeps-pure j) (Keeps-write_completed r j s)

  Keeps-on_integrity_error :
      (m : Exec AnalysisJob) (e : Raised)
      → Keeps IsSound m
      → Keeps IsSound (on_integrity_error service others m e)
  Keeps-on_integrity_error m integrity_error k = k
  Keeps-on_integrity_error m _ k = Keeps-raise _

  Keeps-existing_or_raise :
      (r : RepositoryRecord) (s : RiSnapshot) → Keeps IsSound (existing_or_raise service others r s)
  unfolding existing_or_raise
  Keeps-existing_or_raise r s = Keeps-bind _ _ Keeps-rollback λ _.
      Keeps-bind _ _ (Keeps-reload_record service r.id) λ after.
        Keeps-bind _ _ (Keeps-job_for_snapshot service after.id s.snapshot_id) λ existing.
          Keeps-bind _ _ (Keeps-effective_job service after.id) λ effective.
            Keeps-option existing _ (λ j. reconcile_completed_job service others after j s)
              (Keeps-option effective _ (λ j. reconcile_completed_job service others after j s)
                (Keeps-raise _) (λ j. Keeps-reconcile_completed_job after j s))
              (λ j. Keeps-reconcile_completed_job after j s)

  Keeps-effective_or_raise :
      (r : RepositoryRecord) → Keeps IsSound (effective_or_raise service others r)
  unfolding effective_or_raise
  Keeps-effective_or_raise r = Keeps-bind _ _ Keeps-rollback λ _.
      Keeps-bind _ _ (Keeps-reload_record service r.id) λ after.
        Keeps-bind _ _ (Keeps-require_revision service after) λ revision.
          Keeps-bind _ _ (Keeps-completed_snapshot service after revision.1) λ sealed.
            Keeps-bind _ _ (Keeps-effective_job service after.id) λ effective.
              Keeps-option effective _
                (λ j. elim sealed [
                  | none ↦ pure j
                  | some s ↦ reconcile_completed_job service others after j s
                ])
                (Keeps-raise _)
                λ j.
                  Keeps-option sealed _ (λ s. reconcile_completed_job service others after j s)
                    (Keeps-pure j) (λ s. Keeps-reconcile_completed_job after j s)

  module _ (fresh : ℕ) (keeps : (db : Database) → IsQueue db.jobs → IsQueue (others db).jobs) where
    Ends-insert_completed_job :
        (r : RepositoryRecord) (s : RiSnapshot)
        → Ends fresh others (insert_completed_job service others fresh r s)
    unfolding insert_completed_job
    Ends-insert_completed_job r s =
        Ends-bind fresh others _ _ (IsFresh-read_clock fresh others service.clock) λ now.
          Ends-bind fresh others _ _ (Keeps-require_revision service r) λ revision.
            Ends-bind fresh others _ _ (IsFresh-read_clock fresh others service.clock) λ created.
              Ends-bind fresh others _ _ (IsFresh-read_clock fresh others service.clock) λ updated.
                Ensures-catch (λ _. IsSound) _ _
                  (Ensures-bind (λ _. IsSound) _ _
                    (Ends-insert_job others keeps _ _ (ground arith) (λ _. refl))
                    (λ _. Keeps-pure _))
                  λ e. Keeps-on_integrity_error _ e (Keeps-existing_or_raise r s)

    Ends-insert_queued_job :
        (r : RepositoryRecord) → Ends fresh others (insert_queued_job service others fresh r)
    unfolding insert_queued_job
    Ends-insert_queued_job r =
        Ends-bind fresh others _ _ (Keeps-require_revision service r) λ revision.
          Ends-bind fresh others _ _ (IsFresh-read_clock fresh others service.clock) λ created.
            Ends-bind fresh others _ _ (IsFresh-read_clock fresh others service.clock) λ updated.
              Ensures-catch (λ _. IsSound) _ _
                (Ensures-bind (λ _. IsSound) _ _
                  (Ends-insert_job others keeps _ _ (ground arith) (λ _. refl)) (λ _. Keeps-pure _))
                λ e. Keeps-on_integrity_error _ e (Keeps-effective_or_raise r)

    Ends-reconcile :
        (r : RepositoryRecord) (j : AnalysisJob) (s : RiSnapshot)
        → Ends fresh others (reconcile_completed_job service others r j s)
    Ends-reconcile r j s = Ends-sound fresh others _ (Keeps-reconcile_completed_job r j s)

    Ends-submit_sealed :
        (r : RepositoryRecord) (s : RiSnapshot)
        → Ends fresh others (submit_sealed service others fresh r s)
    unfolding submit_sealed
    Ends-submit_sealed r s =
        Ends-bind fresh others _ _ (Keeps-job_for_snapshot service r.id s.snapshot_id) λ existing.
          Ends-option fresh others existing _ (λ j. reconcile_completed_job service others r j s)
            (Ends-insert_completed_job r s) λ j. Ends-reconcile r j s

    Ends-submit_open :
        (r : RepositoryRecord) → Ends fresh others (submit_open service others fresh r)
    unfolding submit_open
    Ends-submit_open r = Ends-bind fresh others _ _ (Keeps-active_job service r.id) λ active.
        Ends-option fresh others active _ pure (Ends-insert_queued_job r)
          λ j. Ends-sound fresh others _ (Keeps-pure j)

    -- A submission leaves a valid queue, where what else is committed before its insert keeps it valid
    -- and does not take the new row's id, and however it ends.
    pub Ends-submit :
        (repository_id : ℕ) → Ends fresh others (submit service others fresh repository_id)
    unfolding submit
    Ends-submit repository_id =
        Ends-bind fresh others _ _ (Keeps-get_record service repository_id) λ r.
          Ends-bind fresh others _ _ (Keeps-require_revision service r) λ revision.
            Ends-bind fresh others _ _ (Keeps-completed_snapshot service r revision.1) λ sealed.
              Ends-option fresh others sealed _ (λ s. submit_sealed service others fresh r s)
                (Ends-submit_open r) (λ s. Ends-submit_sealed r s)

    Ends-status_sealed :
        (r : RepositoryRecord) (s : RiSnapshot)
        → Ends fresh others (status_sealed service others fresh r s)
    unfolding status_sealed
    Ends-status_sealed r s =
        Ends-bind fresh others _ _ (Keeps-job_for_snapshot service r.id s.snapshot_id) λ existing.
          Ends-bind fresh others _ _ (Keeps-effective_job service r.id) λ effective.
            Ensures-bind (λ _. IsSound) _ _
              (Ends-option fresh others existing _
                (λ j. reconcile_completed_job service others r j s)
                (Ends-option fresh others effective _
                  (λ j. reconcile_completed_job service others r j s)
                  (Ends-insert_completed_job r s) (λ j. Ends-reconcile r j s))
                (λ j. Ends-reconcile r j s))
              λ j. Keeps-pure _

    -- A reading of the status leaves a valid queue, under the same conditions as a submission: it also
    -- writes, when it finds a sealed snapshot whose job does not say that it is completed.
    pub Ends-status :
        (repository_id : ℕ) → Ends fresh others (status service others fresh repository_id)
    unfolding status
    Ends-status repository_id =
        Ends-bind fresh others _ _ (Keeps-get_record service repository_id) λ r.
          Ends-bind fresh others _ _ (Keeps-require_revision service r) λ revision.
            Ends-bind fresh others _ _ (Keeps-completed_snapshot service r revision.1) λ sealed.
              Ends-option fresh others sealed _ (λ s. status_sealed service others fresh r s)
                (Ends-sound fresh others _ (Keeps-latest_job service repository_id))
                (λ s. Ends-status_sealed r s)
