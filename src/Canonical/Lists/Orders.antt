-- ===== src/Canonical/Lists/Orders.antt =====
-- The order and the repetitions of the evidence of a record do not matter.
use partha.Prelude.{ℕ, ◌≡◌, refl, sym, ap, ◌∙◌, List, [], ◌∷◌, IsIn, ◌⊎◌, inl, inr}
use mathlib.Core.Path.{subst}
use partha.Canonical.{Unicode, Checked, ok}
use partha.Canonical.Results.{ok-injective, bind_ok}
use partha.Canonical.Records.Ordered.{order_records_lem}
use partha.Canonical.Lists.{
  EvidenceRecord, canonical_evidence_record, canonical_evidence_records, normalize_evidence,
  evidence_key, order_evidence,
}

record-IsIn :
    (q : EvidenceRecord) (qs : List EvidenceRecord) (p : EvidenceRecord)
    → IsIn p (q ∷ qs)
    → (q ≡ p) ⊎ IsIn p qs
record-IsIn q qs p i = i

module _ (u : Unicode) where
  -- A record of the result was made of one of the records, and one of each.
  made_of :
      (xs ps : List EvidenceRecord)
      → canonical_evidence_records u xs ≡ ok ps
      → (p : EvidenceRecord) → IsIn p ps
      → (x : EvidenceRecord) × IsIn x xs × (canonical_evidence_record u x ≡ ok p)
  unfolding canonical_evidence_records
  made_of [] ps h p i = absurd (subst (IsIn p) (sym (ok-injective h)) i)
  made_of (x ∷ xs) ps h p i =
      let (q, c, later) = bind_ok (canonical_evidence_record u x) _ h in
      let (rest, r, e) = bind_ok (canonical_evidence_records u xs) _ later in
      elim (record-IsIn q rest p (subst (IsIn p) (sym (ok-injective e)) i)) [
        | inl same ↦ (x, inl refl, c ∙ ap ok same)
        | inr j ↦ let (y, here, m) = made_of xs rest r p j in (y, inr here, m)
      ]

  makes :
      (xs ps : List EvidenceRecord)
      → canonical_evidence_records u xs ≡ ok ps
      → (x : EvidenceRecord) → IsIn x xs
      → (p : EvidenceRecord) × IsIn p ps × (canonical_evidence_record u x ≡ ok p)
  unfolding canonical_evidence_records
  makes [] ps h x i = absurd i
  makes (y ∷ xs) ps h x i =
      let (q, c, later) = bind_ok (canonical_evidence_record u y) _ h in
      let (rest, r, e) = bind_ok (canonical_evidence_records u xs) _ later in
      elim (record-IsIn y xs x i) [
        | inl same ↦ (
          q,
          subst (IsIn q) (ok-injective e) (inl refl),
          subst (λ (z : EvidenceRecord). canonical_evidence_record u z ≡ ok q) same c,
        )
        | inr j ↦
            let (p, here, m) = makes xs rest r x j in
            (p, subst (IsIn p) (ok-injective e) (inr here), m)
      ]

  makes_all :
      (ys : List EvidenceRecord)
      → ((y : EvidenceRecord)
          → IsIn y ys
          → (p : EvidenceRecord) × (canonical_evidence_record u y ≡ ok p))
      → (qs : List EvidenceRecord) × (canonical_evidence_records u ys ≡ ok qs)
  unfolding canonical_evidence_records
  makes_all [] h = ([], refl)
  makes_all (y ∷ ys) h =
      let (p, e) = h y (inl refl) in
      let (qs, r) = makes_all ys (λ z i. h z (inr i)) in (p ∷ qs, rw (e, r) refl)

  made-IsIn :
      (xs ys ps qs : List EvidenceRecord)
      → ((x : EvidenceRecord) → IsIn x xs → IsIn x ys)
      → canonical_evidence_records u xs ≡ ok ps
      → canonical_evidence_records u ys ≡ ok qs
      → (p : EvidenceRecord) → IsIn p ps
      → IsIn p qs
  made-IsIn xs ys ps qs f h k p i =
      let (x, here, m) = made_of xs ps h p i in
      let (q, there, m') = makes ys qs k x (f x here) in
      subst (λ (r : EvidenceRecord). IsIn r qs) (ok-injective (sym m' ∙ m)) there

-- The evidence of a record in any order and with any repetitions is ordered into the same list, where the encodings tell
-- evidence records apart.
pub order_evidence_lem :
    (u : Unicode) (encode : EvidenceRecord → Checked (List ℕ))
    → ((a b : EvidenceRecord) (e : List ℕ) → encode a ≡ ok e → encode b ≡ ok e → a ≡ b)
    → (xs ys zs : List EvidenceRecord) → ((a : EvidenceRecord) → IsIn a xs → IsIn a ys)
    → ((a : EvidenceRecord) → IsIn a ys → IsIn a xs)
    → order_evidence u encode xs ≡ ok zs
    → order_evidence u encode ys ≡ ok zs
unfolding order_evidence
order_evidence_lem u encode injective xs ys zs f g h =
    let (ps, c, o) = bind_ok (canonical_evidence_records u xs) _ h in
    let (qs, d) = makes_all u ys (λ y i. let (p, here, m) = makes u xs ps c y (g y i) in (p, m)) in
    rw (d) (
      order_records_lem (normalize_evidence u) encode evidence_key injective ps qs zs
        (made-IsIn u xs ys ps qs f c d) (made-IsIn u ys xs qs ps g d c) o)
