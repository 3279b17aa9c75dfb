-- ===== src/Tests/Reuse.antt =====
-- A request that begins a snapshot, and the same request after the snapshot is completed.
use partha.Prelude.{ℕ, ◌≡◌, refl, sym, true, false, none, some, List, [], ◌∷◌}
use mathlib.Core.Path.{subst}
use partha.Prelude.Text.{codes}
use partha.Table.Select.{select_by}
use partha.Database.{SnapshotState}
use partha.Canonical.{ok}
use partha.Canonical.Results.{ok-injective}
use partha.Canonical.Records.{distinct, order_records}
use partha.Canonical.Key.{is_empty}
use partha.Canonical.Lists.{normalize_producer_version_set}
use partha.Canonical.Lists.Producers.{normalize-normalize_producer_version_set}
use partha.Snapshots.Begin.{
  Revision, SnapshotRow, RepositoryRow, Request, validate_revision, require_matching_repository,
  resolve_config_hash, find_row, producer_set_hash, begin, get_or_reuse, complete_rows,
}
use partha.Snapshots.Begin.Reuse.{reuse_after_begin}
use partha.Tests.Paths.{ascii}

abbrev same : List ℕ → List ℕ
same s = s

abbrev producers : List (List ℕ)
producers = codes "ts@1" ∷ codes "py@2" ∷ codes "ts@1" ∷ []

normalized :
    normalize_producer_version_set ascii same producers ≡ ok (codes "py@2" ∷ codes "ts@1" ∷ [])
unfolding normalize_producer_version_set order_records distinct select_by
normalized = refl

normalize-normalize_producer_version_set_example :
    normalize_producer_version_set ascii same (codes "py@2" ∷ codes "ts@1" ∷ [])
    ≡ ok (codes "py@2" ∷ codes "ts@1" ∷ [])
normalize-normalize_producer_version_set_example =
    normalize-normalize_producer_version_set ascii same (λ s. refl) producers
      (codes "py@2" ∷ codes "ts@1" ∷ []) normalized

abbrev hash : List ℕ
hash = codes "sha256:0123456789abcdef0123456789abcdef0123456789abcdef0123456789abcdef"

abbrev digest : List (List ℕ) → List ℕ
digest [] = codes "none"
digest (s ∷ ss) = s

abbrev revision : Revision
revision = record { kind = codes "upload"; value = hash; ref = none }

abbrev repositories : List RepositoryRow
repositories =
    record { id = codes "repo"; revision_kind = some (codes "upload"); revision_value = some hash }
    ∷ []

abbrev request : Request
request = record {
  repository_id = codes "repo";
  revision = revision;
  producer_version_set = producers;
  schema_version = codes "ri.v1";
  config_given = true;
  config_hash = none;
}

abbrev row : SnapshotRow
row = record {
  snapshot_id = codes "snap_1";
  repository_id = codes "repo";
  revision_kind = codes "upload";
  revision_value = hash;
  revision_ref = none;
  schema_version = codes "ri.v1";
  producer_version_set = codes "py@2" ∷ codes "ts@1" ∷ [];
  producer_set_hash = codes "py@2";
  config_hash = hash;
  state = SnapshotState.building;
}

begun :
    get_or_reuse ascii same digest repositories (ok hash) hash (codes "snap_1") request []
    ≡ ok (row, false, row ∷ [])
unfolding get_or_reuse begin require_matching_repository validate_revision resolve_config_hash
    producer_set_hash find_row normalize_producer_version_set order_records distinct select_by
begun = refl

resolved : (h : List ℕ) → resolve_config_hash true none (ok hash) ≡ ok h → h ≡ hash
unfolding resolve_config_hash
resolved h e = sym (ok-injective e)

reuse_after_begin_example :
    get_or_reuse ascii same digest repositories
      (ok hash)
      hash
      (codes "snap_2")
      request
      (complete_rows (codes "snap_1") (row ∷ []))
    ≡ ok (
      record row { state = SnapshotState.sealed },
      true,
      complete_rows (codes "snap_1") (row ∷ []),
    )
reuse_after_begin_example =
    reuse_after_begin ascii same digest repositories (λ s. refl) (ok hash) hash (codes "snap_1")
      (codes "snap_2") request [] (row ∷ []) row
      (λ h e. subst (λ (x : List ℕ). is_empty x ≡ false) (sym (resolved h e)) refl) tt begun
