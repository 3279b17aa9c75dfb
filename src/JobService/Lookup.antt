-- ===== src/JobService/Lookup.antt =====
-- The queries of the service. Each is scoped to its owner.
use partha.Prelude.{
  ℕ, Bool, true, ◌&&◌, Option, none, some, List, [], ◌∷◌, ◌==◌, holds_value, is_none, if◌then◌else◌,
  not,
}
use partha.Prelude.Text.{codes}
use partha.Table.{find}
use partha.Table.Select.{first_by}
use partha.Jobs.{AnalysisJob, RevisionKind, job_key}
use partha.Database.{RepositoryRecord, repository_key, is_sealed, RiSnapshot, Database}
use partha.Session.{Exec, failure, pure, raise, gets, ◌>>=◌, not_found, service_error, conflict}
use partha.JobService.{AnalysisJobService, created_ge, is_active, is_effective}

-- `RepositoryRepository.get_for_owner`
unfoldable pub get_for_owner : ℕ → ℕ → List RepositoryRecord → Option RepositoryRecord
get_for_owner repository_id owner_id repositories =
    elim (find repository_key repository_id repositories) [
      | none ↦ none
      | some r ↦ if r.owner_id == owner_id then some r else none
    ]

-- The first snapshot that passes the guard.
abbrev pub first_snapshot : (RiSnapshot → Bool) → List RiSnapshot → Option RiSnapshot
first_snapshot p [] = none
first_snapshot p (s ∷ t) = if p s then some s else first_snapshot p t

module _ (service : AnalysisJobService) where
  open service use {owner_id, config_hash, schema_version, producer_set_hash}

  unfoldable pub get_record : ℕ → Exec RepositoryRecord
  get_record repository_id = do
    found ← gets (λ db. get_for_owner repository_id owner_id db.repositories)
    elim found [ none ↦ raise not_found | some r ↦ pure r ]

  -- The attributes of a record are expired by a rollback, and read again on the next access, which
  -- raises where the row is gone.
  unfoldable pub reload_record : ℕ → Exec RepositoryRecord
  reload_record repository_id = do
    found ← gets (λ db. find repository_key repository_id db.repositories)
    elim found [
      | none ↦ raise (failure (record { text = []; class_name = codes "ObjectDeletedError" }))
      | some r ↦ pure r
    ]

  unfoldable pub require_revision : RepositoryRecord → Exec (RevisionKind × ℕ)
  require_revision r = elim r.revision_kind [
    | none ↦ raise service_error
    | some kind ↦ elim r.revision_value [
      | none ↦ raise service_error
      | some value ↦ pure (kind, value)
    ]
  ]

  -- The guard of `SnapshotStore.find_completed_for_owner`, beside its join.
  abbrev pub has_identity : ℕ → ℕ → RiSnapshot → Bool
  has_identity repository_id revision_value s =
      s.repository_id == repository_id
      && s.revision_value == revision_value
      && s.schema_version == schema_version
      && s.producer_set_hash == producer_set_hash
      && s.config_hash == config_hash
      && is_sealed s.state

  unfoldable pub find_completed_for_owner : ℕ → ℕ → Database → Option RiSnapshot
  unfolding get_for_owner
  find_completed_for_owner repository_id revision_value db =
      first_snapshot
        (λ s.
          has_identity repository_id revision_value s
          && not (is_none (get_for_owner s.repository_id owner_id db.repositories)))
        db.snapshots

  unfoldable pub completed_snapshot : RepositoryRecord → ℕ → Exec (Option RiSnapshot)
  completed_snapshot r revision_value = gets (find_completed_for_owner r.id revision_value)

  abbrev pub owns_job : ℕ → AnalysisJob → Bool
  owns_job repository_id j = j.repository_id == repository_id && j.owner_id == owner_id

  -- The latest job of the repository among those that pass one more guard.
  abbrev pub latest_where : ℕ → (AnalysisJob → Bool) → Exec (Option AnalysisJob)
  latest_where repository_id p =
      gets (λ db. first_by created_ge (λ j. owns_job repository_id j && p j) db.jobs)

  unfoldable pub latest_job : ℕ → Exec (Option AnalysisJob)
  latest_job repository_id = latest_where repository_id (λ _. true)

  unfoldable pub active_job : ℕ → Exec (Option AnalysisJob)
  active_job repository_id =
      latest_where repository_id (λ j. j.config_hash == config_hash && is_active j.status)

  unfoldable pub effective_job : ℕ → Exec (Option AnalysisJob)
  effective_job repository_id =
      latest_where repository_id (λ j. j.config_hash == config_hash && is_effective j.status)

  unfoldable pub job_for_snapshot : ℕ → ℕ → Exec (Option AnalysisJob)
  job_for_snapshot repository_id snapshot_id =
      latest_where repository_id (λ j. holds_value j.snapshot_id snapshot_id)

  unfoldable pub reload_job : ℕ → Exec AnalysisJob
  reload_job job_id = do
    found ← gets (λ db. find job_key job_id db.jobs)
    elim found [
      | none ↦ raise conflict
      | some j ↦ if j.owner_id == owner_id then pure j else raise conflict
    ]
