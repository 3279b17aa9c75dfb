-- ===== src/Snapshots/Begin.antt =====
-- `begin`, `get_or_reuse` and `find_completed`, with the checks that they share. `digest` is the hash of a list of texts
-- (`sha256_prefixed` of its JSON), `computed` is what `compute_config_hash` returns for the configuration, and
-- `config_given` tells whether there is one;
-- `empty_hash` is what it returns for none. The new identifier is an argument. A new row is the last one.
pub mod Reuse
use partha.Prelude.{
  ℕ, Bool, true, false, not, ◌&&◌, ◌||◌, Option, none, some, List, [], ◌∷◌, ◌++◌, length, ◌==◌, leb,
  is_none, if◌then◌else◌,
}
use partha.Prelude.Text.{codes}
use partha.Text.{same_text, starts_with, ends_with, contains, drop}
use partha.Database.{SnapshotState, building, sealed, is_sealed}
use partha.Canonical.{Unicode, snapshot_seal_error, Checked, ok, err, ◌>>=◌, ◌>>◌}
use partha.Canonical.Key.{is_empty}
use partha.Canonical.Lists.{normalize_producer_version_set}

pub record Revision : Type 0 where
  pub kind : List ℕ
  pub value : List ℕ
  pub ref : Option (List ℕ)

-- `RiSnapshot`, with the columns that `begin` sets.
pub record SnapshotRow : Type 0 where
  pub snapshot_id : List ℕ
  pub repository_id : List ℕ
  pub revision_kind : List ℕ
  pub revision_value : List ℕ
  pub revision_ref : Option (List ℕ)
  pub schema_version : List ℕ
  pub producer_version_set : List (List ℕ)
  pub producer_set_hash : List ℕ
  pub config_hash : List ℕ
  pub state : SnapshotState

-- The revision columns of `repositories`.
pub record RepositoryRow : Type 0 where
  pub id : List ℕ
  pub revision_kind : Option (List ℕ)
  pub revision_value : Option (List ℕ)

abbrev is_hex_digit : ℕ → Bool
is_hex_digit c = leb b'0' c && leb c b'9' || leb b'a' c && leb c b'f'

abbrev all_hex : List ℕ → Bool
all_hex [] = true
all_hex (c ∷ s) = is_hex_digit c && all_hex s

-- `_GIT_REVISION_RE`; `_UPLOAD_REVISION_RE` and `_HASH_RE`, which are the same.
abbrev pub is_git_revision : List ℕ → Bool
is_git_revision s = length s == 40 && all_hex s

abbrev pub is_content_hash : List ℕ → Bool
is_content_hash s = starts_with s (codes "sha256:") && length (drop 7 s) == 64 && all_hex (drop 7 s)

abbrev pub is_ref : Option (List ℕ) → Bool
is_ref none = true
is_ref (some ref) = starts_with ref (codes "refs/")

unfoldable pub validate_revision : Revision → Checked (Unit {0})
validate_revision r =
    if same_text r.kind (codes "git")
    then if not (is_git_revision r.value)
      then err snapshot_seal_error
      else if not (is_ref r.ref)
      then err snapshot_seal_error
      else ok tt
    else if same_text r.kind (codes "upload")
    then if not (is_content_hash r.value) || not (is_none r.ref)
      then err snapshot_seal_error
      else ok tt
    else err snapshot_seal_error

abbrev pub get_repository : List ℕ → List RepositoryRow → Option RepositoryRow
get_repository id [] = none
get_repository id (r ∷ rows) = if same_text r.id id then some r else get_repository id rows

abbrev pub is_value : Option (List ℕ) → List ℕ → Bool
is_value none s = false
is_value (some t) s = same_text t s

abbrev pub check_repository : Revision → Option RepositoryRow → Checked (Unit {0})
check_repository revision none = err snapshot_seal_error
check_repository revision (some r) =
    if is_value r.revision_kind revision.kind && is_value r.revision_value revision.value
    then ok tt
    else err snapshot_seal_error

unfoldable pub require_matching_repository :
    List RepositoryRow → List ℕ → Revision → Checked (Unit {0})
unfolding validate_revision
require_matching_repository repositories repository_id revision =
    validate_revision revision
    >> check_repository revision (get_repository repository_id repositories)

-- `config_hash or computed`
abbrev pub hash_or : Option (List ℕ) → List ℕ → List ℕ
hash_or none computed = computed
hash_or (some h) computed = if is_empty h then computed else h

unfoldable pub resolve_config_hash : Bool → Option (List ℕ) → Checked (List ℕ) → Checked (List ℕ)
resolve_config_hash config_given config_hash computed = do
  hash ← computed
  if not (is_none config_hash) && config_given && not (is_value config_hash hash)
      then err snapshot_seal_error
      else ok (hash_or config_hash hash)

abbrev pub is_bad_producer : List ℕ → Bool
is_bad_producer p = not (contains b'@' p) || starts_with p (codes "@") || ends_with p (codes "@")

abbrev pub any_bad : List (List ℕ) → Bool
any_bad [] = false
any_bad (p ∷ ps) = is_bad_producer p || any_bad ps

-- What identifies a snapshot.
pub record Identity : Type 0 where
  pub repository_id : List ℕ
  pub revision_value : List ℕ
  pub schema_version : List ℕ
  pub producer_set_hash : List ℕ
  pub config_hash : List ℕ

abbrev pub is_completed_of : Identity → SnapshotRow → Bool
is_completed_of i s =
    same_text s.repository_id i.repository_id
    && same_text s.revision_value i.revision_value
    && same_text s.schema_version i.schema_version
    && same_text s.producer_set_hash i.producer_set_hash
    && same_text s.config_hash i.config_hash
    && is_sealed s.state

-- The statement of `find_completed`.
unfoldable pub find_row : Identity → List SnapshotRow → Option SnapshotRow
find_row i [] = none
find_row i (s ∷ rows) = if is_completed_of i s then some s else find_row i rows

-- The arguments of `begin` and `get_or_reuse`.
pub record Request : Type 0 where
  pub repository_id : List ℕ
  pub revision : Revision
  pub producer_version_set : List (List ℕ)
  pub schema_version : List ℕ
  pub config_given : Bool
  pub config_hash : Option (List ℕ)

module _ (u : Unicode) (utf_8 : List ℕ → List ℕ) (digest : List (List ℕ) → List ℕ)
    (repositories : List RepositoryRow) where
  -- `canonical.producer_set_hash`
  unfoldable pub producer_set_hash : List (List ℕ) → Checked (List ℕ)
  unfolding normalize_producer_version_set
  producer_set_hash producers = do
    normalized ← normalize_producer_version_set u utf_8 producers
    ok (digest normalized)

  abbrev pub new_row : List ℕ → Request → List (List ℕ) → List ℕ → List ℕ → SnapshotRow
  new_row snapshot_id r producers set_hash config_hash = record {
    snapshot_id = snapshot_id;
    repository_id = r.repository_id;
    revision_kind = r.revision.kind;
    revision_value = r.revision.value;
    revision_ref = r.revision.ref;
    schema_version = r.schema_version;
    producer_version_set = producers;
    producer_set_hash = set_hash;
    config_hash = config_hash;
    state = SnapshotState.building;
  }

  unfoldable pub begin :
      Checked (List ℕ)
      → List ℕ
      → Request
      → List SnapshotRow
      → Checked (SnapshotRow × List SnapshotRow)
  unfolding require_matching_repository resolve_config_hash producer_set_hash
  begin computed snapshot_id r rows = do
    require_matching_repository repositories r.repository_id r.revision
    producers ← normalize_producer_version_set u utf_8 r.producer_version_set
    if any_bad producers then err snapshot_seal_error else do
      config_hash ← resolve_config_hash r.config_given r.config_hash computed
      if not (is_content_hash config_hash) then err snapshot_seal_error else do
        set_hash ← producer_set_hash producers
        let row = new_row snapshot_id r producers set_hash config_hash
        ok (row, rows ++ row ∷ [])

  abbrev pub identity_of : Request → List ℕ → List ℕ → Identity
  identity_of r set_hash config_hash = record {
    repository_id = r.repository_id;
    revision_value = r.revision.value;
    schema_version = r.schema_version;
    producer_set_hash = set_hash;
    config_hash = config_hash;
  }

  abbrev pub started :
      Checked (SnapshotRow × List SnapshotRow) → Checked (SnapshotRow × Bool × List SnapshotRow)
  started m = do result ← m; ok (result.0, false, result.1)

  abbrev pub reuse_or :
      Option SnapshotRow
      → List SnapshotRow
      → Checked (SnapshotRow × List SnapshotRow)
      → Checked (SnapshotRow × Bool × List SnapshotRow)
  reuse_or none rows begun = started begun
  reuse_or (some existing) rows begun = ok (existing, true, rows)

  -- The snapshot, whether it is reused, and the table.
  unfoldable pub get_or_reuse :
      Checked (List ℕ)
      → List ℕ
      → List ℕ
      → Request
      → List SnapshotRow
      → Checked (SnapshotRow × Bool × List SnapshotRow)
  unfolding begin find_row
  get_or_reuse computed empty_hash snapshot_id r rows = do
    require_matching_repository repositories r.repository_id r.revision
    config_hash ← resolve_config_hash r.config_given r.config_hash computed
    set_hash ← producer_set_hash r.producer_version_set
    reuse_or (find_row (identity_of r set_hash config_hash) rows) rows (
        begin (ok empty_hash) snapshot_id
          (record r { config_hash = some config_hash; config_given = false }) rows)

-- The state that `seal` writes to the row.
abbrev pub complete_row : List ℕ → SnapshotRow → SnapshotRow
complete_row id s =
    if same_text s.snapshot_id id then record s { state = SnapshotState.sealed } else s

abbrev pub complete_rows : List ℕ → List SnapshotRow → List SnapshotRow
complete_rows id [] = []
complete_rows id (s ∷ rows) = complete_row id s ∷ complete_rows id rows
