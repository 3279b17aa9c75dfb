-- ===== src/Canonical/Lists.antt =====
-- The lists that are ordered before they are hashed: `normalize_producer_version_set`, `sort_derived_from` and
-- `order_evidence`. `utf_8` is `str.encode`; `encode` stands for `canonical_json_bytes` of a record. In a mapping that comes
-- from JSON no key occurs twice, and its values here are texts. A line number that is negative is not modelled.
pub mod Orders
pub mod Producers
use partha.Prelude.{
  ℕ, Bool, true, false, not, ◌&&◌, ◌||◌, Option, none, some, List, [], ◌∷◌, length, ◌==◌, is_none,
  if◌then◌else◌,
}
use partha.Prelude.Text.{codes}
use partha.Text.{same_text, one_of}
use partha.Canonical.{Unicode, canonicalization_error, Checked, ok, err, ◌>>=◌}
use partha.Canonical.Path.{normalize_repo_path}
use partha.Canonical.Key.{is_empty}
use partha.Canonical.Records.{order_records}

-- A set of texts, ordered by their bytes.
unfoldable pub normalize_producer_version_set :
    Unicode → (List ℕ → List ℕ) → List (List ℕ) → Checked (List (List ℕ))
unfolding order_records
normalize_producer_version_set u utf_8 producers =
    order_records (λ producer. utf_8 producer ∷ []) (λ producer. ok (u.nfc producer))
      (λ producer. ok producer) producers

pub data ReferenceKind : Type 0 where
  observation node edge assertion : ReferenceKind

-- The keys of `_REFERENCE_IDENTITY_FIELD`.
abbrev pub kind_name : ReferenceKind → List ℕ
kind_name observation = codes "observation"
kind_name node = codes "node"
kind_name edge = codes "edge"
kind_name assertion = codes "assertion"

abbrev pub identity_field : ReferenceKind → List ℕ
identity_field observation = codes "observation_id"
identity_field node = codes "stable_key"
identity_field edge = codes "edge_id"
identity_field assertion = codes "assertion_id"

abbrev pub reference_rank : ReferenceKind → ℕ
reference_rank observation = 0
reference_rank node = 1
reference_rank edge = 2
reference_rank assertion = 3

abbrev pub kind_of : List ℕ → Option ReferenceKind
kind_of name =
    if same_text name (codes "observation")
    then some observation
    else if same_text name (codes "node")
    then some node
    else if same_text name (codes "edge")
    then some edge
    else if same_text name (codes "assertion")
    then some assertion
    else none

-- A mapping of texts to texts.
abbrev pub Mapping : Type 0
Mapping = List (List ℕ × List ℕ)

abbrev pub get_field : List ℕ → Mapping → Option (List ℕ)
get_field name [] = none
get_field name ((key, value) ∷ fields) =
    if same_text key name then some value else get_field name fields

-- `_normalize` of a mapping of texts, with the keys that it has.
unfoldable pub normalize_mapping : Unicode → List (List ℕ) → Mapping → Checked Mapping
normalize_mapping u seen [] = ok []
normalize_mapping u seen ((key, value) ∷ fields) = do
  rest ← normalize_mapping u (u.nfc key ∷ seen) fields
  if one_of (u.nfc key) seen
      then err canonicalization_error
      else ok ((u.nfc key, u.nfc value) ∷ rest)

pub record Reference : Type 0 where
  pub kind : ReferenceKind
  pub identity : List ℕ

-- The shape `{"kind": ..., identity_field: ...}`, and no other key.
abbrev pub shaped : Mapping → ReferenceKind → Option (List ℕ) → Checked Reference
shaped fields kind none = err canonicalization_error
shaped fields kind (some identity) =
    if not (length fields == 2) || is_empty identity
    then err canonicalization_error
    else ok (record { kind = kind; identity = identity })

abbrev pub tagged : Mapping → Option ReferenceKind → Checked Reference
tagged fields none = err canonicalization_error
tagged fields (some kind) = shaped fields kind (get_field (identity_field kind) fields)

abbrev pub named_kind : Option (List ℕ) → Option ReferenceKind
named_kind none = none
named_kind (some name) = kind_of name

-- The checks of one round of the loop.
unfoldable pub reference_of : Unicode → Mapping → Checked Reference
unfolding normalize_mapping
reference_of u raw = do
  fields ← normalize_mapping u [] raw
  tagged fields (named_kind (get_field (codes "kind") fields))

abbrev pub reference_key : Reference → List (List ℕ)
reference_key r = (reference_rank r.kind ∷ []) ∷ r.identity ∷ []

unfoldable pub sort_derived_from :
    Unicode → (Reference → Checked (List ℕ)) → List Mapping → Checked (List Reference)
unfolding order_records reference_of
sort_derived_from u encode references =
    order_records reference_key (reference_of u) encode references

pub record EvidenceRecord : Type 0 where
  pub path : List ℕ
  pub start_line : ℕ
  pub end_line : ℕ
  pub granularity : List ℕ
  pub extractor : List ℕ
  pub extractor_version : List ℕ

-- `evidence.get("granularity") or "span"`, and the path in normal form.
unfoldable pub canonical_evidence_record : Unicode → EvidenceRecord → Checked EvidenceRecord
canonical_evidence_record u evidence = do
  path ← normalize_repo_path u evidence.path
  let granularity = if is_empty evidence.granularity then codes "span" else evidence.granularity
  ok (record evidence { path = path; granularity = granularity })

unfoldable pub canonical_evidence_records :
    Unicode → List EvidenceRecord → Checked (List EvidenceRecord)
unfolding canonical_evidence_record
canonical_evidence_records u [] = ok []
canonical_evidence_records u (evidence ∷ records) = do
  prepared ← canonical_evidence_record u evidence
  rest ← canonical_evidence_records u records
  ok (prepared ∷ rest)

-- `_normalize` of an evidence record.
abbrev pub normalize_evidence : Unicode → EvidenceRecord → Checked EvidenceRecord
normalize_evidence u evidence = ok (record evidence {
  path = u.nfc evidence.path;
  granularity = u.nfc evidence.granularity;
  extractor = u.nfc evidence.extractor;
  extractor_version = u.nfc evidence.extractor_version;
})

abbrev pub evidence_key : EvidenceRecord → List (List ℕ)
evidence_key evidence =
    evidence.path
    ∷ (evidence.start_line ∷ [])
    ∷ (evidence.end_line ∷ [])
    ∷ evidence.granularity
    ∷ evidence.extractor
    ∷ evidence.extractor_version
    ∷ []

unfoldable pub order_evidence :
    Unicode
    → (EvidenceRecord → Checked (List ℕ))
    → List EvidenceRecord
    → Checked (List EvidenceRecord)
unfolding order_records canonical_evidence_records
order_evidence u encode evidence_records = do
  prepared ← canonical_evidence_records u evidence_records
  order_records evidence_key (normalize_evidence u) encode prepared
