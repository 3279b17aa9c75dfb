-- ===== src/Database.antt =====
-- The rows that the worker and the job service write: apps/backend/app/models/repository.py and
-- models/snapshot.py (the columns that these parts read or write, without the `updated_at` of a
-- repository, which each update sets and nothing here reads), beside the queue of `Jobs`.
-- A fact of a snapshot is a row of one of seven tables.
use partha.Prelude.{ℕ, Bool, true, false, Option, List}
use partha.Jobs.{AnalysisJob, RevisionKind, Stage, ErrorCode}

-- What is written to `repositories.status`.
pub data RepositoryStatus : Type 0 where
  analysing completed cancelled error : RepositoryStatus

-- The texts that are written to `repositories.error_message`.
pub data RepositoryError : Type 0 where
  analysis_failed budget_exceeded lease_failed : RepositoryError

pub record RepositoryRecord : Type 0 where
  pub id : ℕ
  pub owner_id : ℕ
  pub revision_kind : Option RevisionKind
  pub revision_value : Option ℕ
  pub status : RepositoryStatus
  pub analysis_stage : Option Stage
  pub analysis_progress : ℕ
  pub analysed_at : Option ℕ
  pub error_message : Option RepositoryError

abbrev pub repository_key : RepositoryRecord → ℕ
repository_key r = r.id

pub data SnapshotState : Type 0 where
  building sealed failed : SnapshotState

abbrev pub is_building : SnapshotState → Bool
is_building SnapshotState.building = true
is_building _ = false

-- The state "completed".
abbrev pub is_sealed : SnapshotState → Bool
is_sealed SnapshotState.sealed = true
is_sealed _ = false

abbrev pub is_failed : SnapshotState → Bool
is_failed SnapshotState.failed = true
is_failed _ = false

pub record RiSnapshot : Type 0 where
  pub snapshot_id : ℕ
  pub repository_id : ℕ
  pub revision_kind : RevisionKind
  pub revision_value : ℕ
  pub schema_version : ℕ
  pub producer_set_hash : ℕ
  pub config_hash : ℕ
  pub state : SnapshotState
  pub canonical_graph_hash : Option ℕ
  pub failure_code : Option ErrorCode
  pub created_at : ℕ
  pub sealed_at : Option ℕ

abbrev pub snapshot_key : RiSnapshot → ℕ
snapshot_key r = r.snapshot_id

-- `_FACT_TABLES` of intelligence/retention.py
pub data FactTable : Type 0 where
  derivation evidence assertion diagnostic edge observation node : FactTable

pub record Fact : Type 0 where
  pub table : FactTable
  pub snapshot_id : ℕ

pub record Database : Type 0 where
  pub jobs : List AnalysisJob
  pub repositories : List RepositoryRecord
  pub snapshots : List RiSnapshot
  pub facts : List Fact
