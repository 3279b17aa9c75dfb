-- ===== src/Tests/Snapshots.antt =====
-- The theorems on ordered records, on derivations and on evidence at small snapshots.
use partha.Prelude.{
  ℕ, ◌≡◌, ◌≢◌, refl, sym, ap, ◌∙◌, some, List, [], ◌∷◌, ◌++◌, length, ◌↔◌, IsIn, inl, inr, arith,
}
use mathlib.Core.List.{tail}
use partha.Prelude.Text.{codes}
use partha.Text.{split, join}
use partha.Table.Select.{select_by}
use partha.Canonical.{snapshot_seal_error, Checked, ok, err}
use partha.Canonical.Results.{ok-injective}
use partha.Canonical.Path.{normalize_repo_path, resolve, resolve_text}
use partha.Canonical.Records.{distinct, order_records}
use partha.Canonical.Records.Ordered.{order_records_lem}
use partha.Canonical.Lists.{
  EvidenceRecord, canonical_evidence_record, canonical_evidence_records, order_evidence,
}
use partha.Canonical.Lists.Orders.{order_evidence_lem}
use partha.Snapshots.Graph.{Outgoing, cycle, exhausted, scan, visit, visit_all, detect_cycle}
use partha.Snapshots.Graph.Acyclic.{HasCycle}
use partha.Snapshots.Graph.Search.{detect_cycle_lem}
use partha.Snapshots.Evidence.{
  Evidence, observation_ref, RiEvidence, evidence_row, validate_stored_evidence,
}
use partha.Snapshots.Evidence.Sealing.{IsDeclared, evidence_row-validate_stored_evidence}
use partha.Tests.Paths.{ascii}

-- Records that are texts and encode as themselves.
abbrev itself : List ℕ → Checked (List ℕ)
itself s = ok s

abbrev first_char : List ℕ → List (List ℕ)
first_char [] = []
first_char (c ∷ s) = (c ∷ []) ∷ []

abbrev repeated : List (List ℕ)
repeated = codes "b" ∷ codes "ab" ∷ codes "b" ∷ codes "aa" ∷ []

abbrev once : List (List ℕ)
once = codes "aa" ∷ codes "b" ∷ codes "ab" ∷ []

IsIn-once : (a : List ℕ) → IsIn a repeated → IsIn a once
IsIn-once a (inl e) = inr (inl e)
IsIn-once a (inr (inl e)) = inr (inr (inl e))
IsIn-once a (inr (inr (inl e))) = inr (inl e)
IsIn-once a (inr (inr (inr (inl e)))) = inl e
IsIn-once a (inr (inr (inr (inr never)))) = elim never [ ]

IsIn-repeated : (a : List ℕ) → IsIn a once → IsIn a repeated
IsIn-repeated a (inl e) = inr (inr (inr (inl e)))
IsIn-repeated a (inr (inl e)) = inl e
IsIn-repeated a (inr (inr (inl e))) = inr (inl e)
IsIn-repeated a (inr (inr (inr never))) = elim never [ ]

ordered :
    order_records first_char itself itself repeated ≡ ok (codes "aa" ∷ codes "ab" ∷ codes "b" ∷ [])
unfolding order_records distinct select_by
ordered = refl

order_records_lem_example :
    order_records first_char itself itself once ≡ ok (codes "aa" ∷ codes "ab" ∷ codes "b" ∷ [])
order_records_lem_example =
    order_records_lem itself itself first_char (λ a b e h k. ok-injective (h ∙ sym k)) repeated once
      (codes "aa" ∷ codes "ab" ∷ codes "b" ∷ []) IsIn-once IsIn-repeated ordered

-- An encoding of evidence that tells records apart: each text behind its length.
abbrev field : List ℕ → List ℕ → List ℕ
field s rest = length s ∷ s ++ rest

abbrev encode : EvidenceRecord → Checked (List ℕ)
encode e = ok (
    e.start_line
    ∷ e.end_line
    ∷ field e.path (field e.granularity (field e.extractor e.extractor_version)))

abbrev first_of : ℕ → List ℕ → ℕ
first_of d [] = d
first_of d (a ∷ s) = a

halves : (s t r r' : List ℕ) → length s ≡ length t → s ++ r ≡ t ++ r' → (s ≡ t) × (r ≡ r')
halves [] [] r r' l h = (refl, h)
halves [] (b ∷ t) r r' l h = absurd (omega (arith, l))
halves (a ∷ s) [] r r' l h = absurd (omega (arith, l))
halves (a ∷ s) (b ∷ t) r r' l h =
    let (e, f) = halves s t r r' (omega (arith, l)) (ap tail h) in
    (ap (λ (x : List ℕ). a ∷ x) e ∙ ap (λ (x : ℕ). x ∷ t) (ap (first_of a) h), f)

fields : (s t r r' : List ℕ) → field s r ≡ field t r' → (s ≡ t) × (r ≡ r')
fields s t r r' h = halves s t r r' (ap (first_of 0) h) (ap tail h)

encode-injective : (a b : EvidenceRecord) (e : List ℕ) → encode a ≡ ok e → encode b ≡ ok e → a ≡ b
encode-injective a b e h k =
    let same = ok-injective (h ∙ sym k) in
    let (p, f) = fields a.path b.path _ _ (ap (λ (s : List ℕ). tail (tail s)) same) in
    let (g, v) = fields a.granularity b.granularity _ _ f in
    let (x, v') = fields a.extractor b.extractor _ _ v in
    λ i. record {
      path = p i;
      start_line = ap (first_of 0) same i;
      end_line = ap (λ (s : List ℕ). first_of 0 (tail s)) same i;
      granularity = g i;
      extractor = x i;
      extractor_version = v' i;
    }

abbrev at_line : List ℕ → ℕ → EvidenceRecord
at_line path line = record {
  path = path;
  start_line = line;
  end_line = line;
  granularity = [];
  extractor = codes "python";
  extractor_version = codes "1";
}

abbrev of_span : EvidenceRecord → EvidenceRecord
of_span e = record e { path = codes "a.py"; granularity = codes "span" }

abbrev late : EvidenceRecord
late = at_line (codes "./a.py") 7

abbrev early : EvidenceRecord
early = at_line (codes "a.py") 2

given :
    order_evidence ascii encode (late ∷ early ∷ late ∷ []) ≡ ok (of_span early ∷ of_span late ∷ [])
unfolding order_evidence order_records distinct select_by canonical_evidence_records
    canonical_evidence_record normalize_repo_path resolve_text resolve split join
given = refl

swap-IsIn : (a : EvidenceRecord) → IsIn a (late ∷ early ∷ late ∷ []) → IsIn a (early ∷ late ∷ [])
swap-IsIn a (inl e) = inr (inl e)
swap-IsIn a (inr (inl e)) = inl e
swap-IsIn a (inr (inr (inl e))) = inr (inl e)
swap-IsIn a (inr (inr (inr never))) = elim never [ ]

IsIn-swap : (a : EvidenceRecord) → IsIn a (early ∷ late ∷ []) → IsIn a (late ∷ early ∷ late ∷ [])
IsIn-swap a (inl e) = inr (inl e)
IsIn-swap a (inr (inl e)) = inl e
IsIn-swap a (inr (inr never)) = elim never [ ]

order_evidence_lem_example :
    order_evidence ascii encode (early ∷ late ∷ []) ≡ ok (of_span early ∷ of_span late ∷ [])
order_evidence_lem_example =
    order_evidence_lem ascii encode encode-injective (late ∷ early ∷ late ∷ []) (early ∷ late ∷ [])
      (of_span early ∷ of_span late ∷ []) swap-IsIn IsIn-swap given

-- Two edges that derive from each other.
abbrev mutual_edges : Outgoing
mutual_edges =
    (codes "edge:1", codes "observation:9" ∷ codes "edge:2" ∷ [])
    ∷ (codes "edge:2", codes "edge:1" ∷ [])
    ∷ []

detect_cycle_lem_example :
    ((detect_cycle mutual_edges ≡ cycle) ↔ HasCycle mutual_edges)
    × (detect_cycle mutual_edges ≢ exhausted)
detect_cycle_lem_example = detect_cycle_lem mutual_edges

found : detect_cycle mutual_edges ≡ cycle
unfolding detect_cycle visit_all visit scan
found = refl

abbrev line_two : List ℕ → Evidence
line_two path = record {
  path = path;
  start_line = 2;
  end_line = 2;
  extractor = codes "python";
  extractor_version = codes "1";
  logical_line_count = 4;
  granularity = codes "span";
}

abbrev row_of : List ℕ → RiEvidence
row_of path = record {
  snapshot_id = codes "snap_1";
  parent = observation_ref 3;
  path = path;
  start_line = 2;
  end_line = 2;
  logical_line_count = some 4;
  granularity = codes "span";
  extractor = codes "python";
  extractor_version = codes "1";
}

-- The row of "./C:/x", which the check before sealing rejects.
written :
    evidence_row ascii (codes "snap_1") (observation_ref 3) (line_two (codes "./C:/x"))
    ≡ ok (row_of (codes "C:/x"))
unfolding evidence_row normalize_repo_path resolve_text resolve split join
written = refl

declared : IsDeclared ascii (codes "python@1" ∷ []) (row_of (codes "C:/x"))
declared = record { declared = refl; stable = refl }

evidence_row-validate_stored_evidence_example :
    validate_stored_evidence ascii (codes "python@1" ∷ []) (row_of (codes "C:/x"))
    ≡ err snapshot_seal_error
evidence_row-validate_stored_evidence_example =
    evidence_row-validate_stored_evidence ascii (codes "python@1" ∷ []) (codes "snap_1")
      (observation_ref 3) (line_two (codes "./C:/x")) (row_of (codes "C:/x")) written declared
