-- ===== src/JobService/Queries.antt =====
-- The queries of the service write nothing: they keep whatever holds of a session.
use partha.Prelude.{ℕ, none, some, ◌==◌, if◌then◌else◌}
use partha.Database.{RepositoryRecord}
use partha.Session.{Session, service_error, conflict, pure, raise}
use partha.Session.Keeps.{
  Keeps, keeps_rules, Keeps-pure, Keeps-raise, Keeps-gets, Keeps-bind, Keeps-option,
}
use partha.JobService.{AnalysisJobService}
use partha.JobService.Lookup.{
  get_record, reload_record, require_revision, completed_snapshot, latest_job, active_job,
  effective_job, job_for_snapshot, reload_job,
}

module _ (service : AnalysisJobService) {P : Session → Type 0} where
  pub Keeps-get_record : (id : ℕ) → Keeps P (get_record service id)
  unfolding get_record
  Keeps-get_record id =
      Keeps-bind _ _ (Keeps-gets _) λ found. Keeps-option found _ pure (Keeps-raise _) Keeps-pure

  pub Keeps-reload_record : (id : ℕ) → Keeps P (reload_record service id)
  unfolding reload_record
  Keeps-reload_record id =
      Keeps-bind _ _ (Keeps-gets _) λ found. Keeps-option found _ pure (Keeps-raise _) Keeps-pure

  pub Keeps-require_revision : (r : RepositoryRecord) → Keeps P (require_revision service r)
  unfolding require_revision
  Keeps-require_revision r =
      Keeps-option r.revision_kind _
        (λ kind. elim r.revision_value [
          | none ↦ raise service_error
          | some value ↦ pure (kind, value)
        ])
        (Keeps-raise _)
        λ kind.
          Keeps-option r.revision_value _ (λ value. pure (kind, value)) (Keeps-raise _)
            λ value. Keeps-pure _

  pub Keeps-latest_job : (id : ℕ) → Keeps P (latest_job service id)
  unfolding latest_job
  Keeps-latest_job id = search (keeps_rules)

  pub Keeps-active_job : (id : ℕ) → Keeps P (active_job service id)
  unfolding active_job
  Keeps-active_job id = search (keeps_rules)

  pub Keeps-effective_job : (id : ℕ) → Keeps P (effective_job service id)
  unfolding effective_job
  Keeps-effective_job id = search (keeps_rules)

  pub Keeps-job_for_snapshot : (id snapshot : ℕ) → Keeps P (job_for_snapshot service id snapshot)
  unfolding job_for_snapshot
  Keeps-job_for_snapshot id snapshot = search (keeps_rules)

  pub Keeps-completed_snapshot :
      (r : RepositoryRecord) (value : ℕ) → Keeps P (completed_snapshot service r value)
  unfolding completed_snapshot
  Keeps-completed_snapshot r value = search (keeps_rules)

  pub Keeps-reload_job : (id : ℕ) → Keeps P (reload_job service id)
  unfolding reload_job
  Keeps-reload_job id = Keeps-bind _ _ (Keeps-gets _) λ found.
      Keeps-option found _ (λ j. if j.owner_id == service.owner_id then pure j else raise conflict)
        (Keeps-raise _) λ j. search (keeps_rules)
