-- ===== src/Snapshots/Evidence/Sealing.antt =====
-- What `_add_evidence` writes, `_validate_stored_evidence` accepts, but for a path with the prefix of a drive.
use partha.Prelude.{
  not-false, ℕ, ◌≡◌, refl, true, false, not, ◌||◌, some, List, ◌++◌, leb, if◌then◌else◌, arith,
  Bool-cases, inl, inr,
}
use mathlib.Core.Path.{subst}
use partha.Prelude.Text.{codes}
use partha.Text.{one_of}
use partha.Text.Laws.{same_text_refl}
use partha.Canonical.{Unicode, path_escape_error, snapshot_seal_error, ok, err}
use partha.Canonical.Results.{ok-injective, bind_ok, else_ok}
use partha.Canonical.Path.{is_drive, normalize_repo_path}
use partha.Canonical.Path.Normal.{normalize_repo_path-normalize_repo_path}
use partha.Canonical.Key.{is_empty}
use partha.Snapshots.Evidence.{
  Evidence, Parent, RiEvidence, granularities, is_span, evidence_row, require_producer,
  validate_stored_evidence,
}

span_lines : (a b l : ℕ) → is_span a b l ≡ true → leb 1 l ≡ true
span_lines a b l h = ground (arith, h)

module _ (u : Unicode) (producer_set : List (List ℕ)) where
  -- The producer is declared, and the path is one that `nfc` leaves as it is.
  pub record IsDeclared (row : RiEvidence) : Type 0 where
    pub declared : one_of (row.extractor ++ codes "@" ++ row.extractor_version) producer_set ≡ true
    pub stable : u.nfc row.path ≡ row.path

  checked :
      (row : RiEvidence) (lines : ℕ) (raw : List ℕ)
      → row.logical_line_count ≡ some lines
      → normalize_repo_path u raw ≡ ok row.path
      → is_empty row.path ≡ false
      → one_of row.granularity granularities ≡ true
      → (is_empty row.extractor || is_empty row.extractor_version) ≡ false
      → is_span row.start_line row.end_line lines ≡ true
      → IsDeclared row
      → validate_stored_evidence u producer_set row
        ≡ (if is_drive u row.path then err snapshot_seal_error else ok tt)
  unfolding validate_stored_evidence require_producer
  checked row lines raw l n full g x s d =
      let again : normalize_repo_path u row.path
          ≡ (if is_drive u row.path then err path_escape_error else ok row.path) =
        normalize_repo_path-normalize_repo_path u raw row.path n d.stable in
      elim (Bool-cases (is_drive u row.path)) [
        | inl drive ↦ rw (x, g, again, drive) refl
        | inr local ↦
            rw
              (
                x,
                g,
                again,
                local,
                full,
                same_text_refl row.path,
                l,
                span_lines row.start_line row.end_line lines s,
                s,
                d.declared,
              )
              refl
      ]

  -- A record that passes the checks before it is written makes a row that passes the checks before sealing.
  pub evidence_row-validate_stored_evidence :
      (snapshot_id : List ℕ) (parent : Parent) (evidence : Evidence) (row : RiEvidence)
      → evidence_row u snapshot_id parent evidence ≡ ok row
      → IsDeclared row
      → validate_stored_evidence u producer_set row
        ≡ (if is_drive u row.path then err snapshot_seal_error else ok tt)
  unfolding evidence_row
  evidence_row-validate_stored_evidence snapshot_id parent evidence row h d =
      let (p, n, a) = bind_ok (normalize_repo_path u evidence.path) _ h in
      let (full, b) = else_ok (is_empty p) snapshot_seal_error a in
      let (g, c) =
        else_ok (not (one_of evidence.granularity granularities)) snapshot_seal_error b in
      let (x, e) =
        else_ok (is_empty (u.nfc evidence.extractor) || is_empty (u.nfc evidence.extractor_version))
          snapshot_seal_error c in
      let (s, f) =
        else_ok (not (is_span evidence.start_line evidence.end_line evidence.logical_line_count))
          snapshot_seal_error e in
      subst
        (λ (r : RiEvidence).
          IsDeclared r
          → validate_stored_evidence u producer_set r
            ≡ (if is_drive u r.path then err snapshot_seal_error else ok tt))
        (ok-injective f)
        (checked _ evidence.logical_line_count evidence.path refl n full (not-false _ g) x
          (not-false _ s))
        d
