-- ===== src/Snapshots/Evidence.antt =====
-- `_add_evidence`, which checks a record before it writes it, and `_validate_stored_evidence`, which checks each row again
-- before the snapshot is sealed. `rows` is the table `ri_evidence` (models/snapshot.py) without the keys of its rows; a new
-- row is the last one. A line number that is negative is not modelled; the checks reject it as they reject 0.
pub mod Sealing
use partha.Prelude.{
  ℕ, Bool, true, false, not, ◌&&◌, ◌||◌, Option, none, some, List, [], ◌∷◌, ◌++◌, ◌==◌, leb, ltb,
  same_value, if◌then◌else◌,
}
use partha.Prelude.Text.{codes}
use partha.Text.{same_text, one_of}
use partha.Canonical.{
  Unicode, IntelligenceError, snapshot_seal_error, Checked, ok, err, ◌>>=◌, ◌>>◌,
}
use partha.Canonical.Path.{normalize_repo_path}
use partha.Canonical.Key.{is_empty}

-- The argument `Evidence` of the writers.
pub record Evidence : Type 0 where
  pub path : List ℕ
  pub start_line : ℕ
  pub end_line : ℕ
  pub extractor : List ℕ
  pub extractor_version : List ℕ
  pub logical_line_count : ℕ
  pub granularity : List ℕ

-- The one of `node_ref`, `edge_ref` and `observation_ref` that is set.
pub data Parent : Type 0 where
  node_ref edge_ref observation_ref : ℕ → Parent

pub record RiEvidence : Type 0 where
  pub snapshot_id : List ℕ
  pub parent : Parent
  pub path : List ℕ
  pub start_line : ℕ
  pub end_line : ℕ
  pub logical_line_count : Option ℕ
  pub granularity : List ℕ
  pub extractor : List ℕ
  pub extractor_version : List ℕ

abbrev same_parent : Parent → Parent → Bool
same_parent (node_ref a) (node_ref b) = a == b
same_parent (edge_ref a) (edge_ref b) = a == b
same_parent (observation_ref a) (observation_ref b) = a == b
same_parent _ _ = false

-- The WHERE clause of the lookup.
abbrev pub same_evidence : RiEvidence → RiEvidence → Bool
same_evidence a b =
    same_text a.snapshot_id b.snapshot_id
    && same_parent a.parent b.parent
    && same_text a.path b.path
    && a.start_line == b.start_line
    && a.end_line == b.end_line
    && same_text a.granularity b.granularity
    && same_text a.extractor b.extractor
    && same_text a.extractor_version b.extractor_version

abbrev pub find_evidence : RiEvidence → List RiEvidence → Option RiEvidence
find_evidence e [] = none
find_evidence e (row ∷ rows) = if same_evidence row e then some row else find_evidence e rows

abbrev pub granularities : List (List ℕ)
granularities = codes "span" ∷ codes "file" ∷ []

abbrev pub is_span : ℕ → ℕ → ℕ → Bool
is_span start_line end_line lines =
    leb 1 start_line && leb start_line end_line && leb end_line lines

-- The row that a record makes, or the first check that it fails.
unfoldable pub evidence_row : Unicode → List ℕ → Parent → Evidence → Checked RiEvidence
evidence_row u snapshot_id parent evidence = do
  path ← normalize_repo_path u evidence.path
  let extractor = u.nfc evidence.extractor
  let extractor_version = u.nfc evidence.extractor_version
  if is_empty path
      then err snapshot_seal_error
      else if not (one_of evidence.granularity granularities)
      then err snapshot_seal_error
      else if is_empty extractor || is_empty extractor_version
      then err snapshot_seal_error
      else if not (is_span evidence.start_line evidence.end_line evidence.logical_line_count)
      then err snapshot_seal_error
      else ok (record {
        snapshot_id = snapshot_id;
        parent = parent;
        path = path;
        start_line = evidence.start_line;
        end_line = evidence.end_line;
        logical_line_count = some evidence.logical_line_count;
        granularity = evidence.granularity;
        extractor = extractor;
        extractor_version = extractor_version;
      })

abbrev pub insert_row : RiEvidence → List RiEvidence → Option RiEvidence → Checked (List RiEvidence)
insert_row row rows none = ok (rows ++ row ∷ [])
insert_row row rows (some existing) =
    if same_value existing.logical_line_count row.logical_line_count
    then ok rows
    else err snapshot_seal_error

unfoldable pub add_evidence :
    Unicode → List ℕ → Parent → Evidence → List RiEvidence → Checked (List RiEvidence)
unfolding evidence_row
add_evidence u snapshot_id parent evidence rows = do
  row ← evidence_row u snapshot_id parent evidence
  insert_row row rows (find_evidence row rows)

abbrev pub has_lines : Option ℕ → Bool
has_lines none = false
has_lines (some lines) = leb 1 lines

abbrev pub lines_of : Option ℕ → ℕ
lines_of none = 0
lines_of (some lines) = lines

-- `_require_producer`
unfoldable pub require_producer : List (List ℕ) → List ℕ → List ℕ → Checked (Unit {0})
require_producer producer_set producer version =
    if one_of (producer ++ codes "@" ++ version) producer_set
    then ok tt
    else err snapshot_seal_error

-- A path that is rejected is reported as any other check that fails.
abbrev pub as_seal_error : Checked (List ℕ) → Checked (List ℕ)
as_seal_error (ok path) = ok path
as_seal_error (err e) = err snapshot_seal_error

unfoldable pub validate_stored_evidence : Unicode → List (List ℕ) → RiEvidence → Checked (Unit {0})
unfolding require_producer
validate_stored_evidence u producer_set row =
    if is_empty row.extractor || is_empty row.extractor_version
    then err snapshot_seal_error
    else if not (one_of row.granularity granularities)
    then err snapshot_seal_error
    else do
      path ← as_seal_error (normalize_repo_path u row.path)
      if is_empty path
          then err snapshot_seal_error
          else if not (same_text path row.path)
          then err snapshot_seal_error
          else if not (has_lines row.logical_line_count)
          then err snapshot_seal_error
          else if not (is_span row.start_line row.end_line (lines_of row.logical_line_count))
          then err snapshot_seal_error
          else require_producer producer_set row.extractor row.extractor_version
